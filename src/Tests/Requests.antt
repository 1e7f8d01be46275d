-- ===== src/Tests/Requests.antt =====
-- Runs of the geocoding cache: a service that answers each address with a text about it.
use Prim.Native.String
use address_quality.Prelude.{
  nat_eq, string_eq, none, some, [], ◌∷◌, true, false, ◌≡◌, refl, String, ◌↔◌,
}
use address_quality.Text.{fields}
use address_quality.Geocode.{
  Calls, Decoders, Reply, answered, hit, miss, response, canonicalize_request_body,
  validate_address_v0, serve,
}
use address_quality.Geocode.Memo.{seen, memo_step, memo_of, validate_address_v0-refines}
use address_quality.Geocode.Repeat.{
  validate_address_v0-repeat, validate_address_v0-error, canonicalize_request_body-words,
}
use address_quality.Text.{join}
use address_quality.Geocode.{
  answer, get_google_maps_cache, fetch, call_google_maps, store, build_geocode_response,
  response_is_not_found,
}

abbrev json : Decoders
json = record { address = λ s. some s; probe = λ s. none; trim_space = λ s. s }

abbrev hash : String → String
hash s = s

abbrev calls : Calls
calls = record {
  lookup_fails = false;
  upsert_fails = false;
  upstream = λ s. answered 200 (String.◌++◌ "about " s);
}

abbrev full_disk : Calls
full_disk = record calls { upsert_fails = true }

abbrev offline : Calls
offline = record calls { upstream = λ s. Reply.unreachable }

canonicalize_request_body-words_example :
    (canonicalize_request_body " Jl.  Dago " ≡ canonicalize_request_body "Jl. Dago")
    ↔ (fields " Jl.  Dago " ≡ fields "Jl. Dago")
canonicalize_request_body-words_example = canonicalize_request_body-words " Jl.  Dago " "Jl. Dago"

validate_address_v0-refines_example :
    seen hash json false (validate_address_v0 hash json false calls "Dago" [])
    ≡ memo_step hash json false calls "Dago" (memo_of [])
validate_address_v0-refines_example = validate_address_v0-refines hash json false calls "Dago" []

validate_address_v0-repeat_example :
    validate_address_v0 hash json false offline " Dago  Atas" (
      serve hash json false
        ((calls, "Coblong") ∷ [])
        (validate_address_v0 hash json false calls "Dago Atas" []).0)
    ≡ (
      serve hash json false
          ((calls, "Coblong") ∷ [])
          (validate_address_v0 hash json false calls "Dago Atas" []).0,
      response hit "about Dago Atas" 200,
    )
unfolding validate_address_v0 answer get_google_maps_cache fetch call_google_maps store
    build_geocode_response canonicalize_request_body response_is_not_found join fields
validate_address_v0-repeat_example =
    validate_address_v0-repeat hash json false calls offline "Dago Atas" " Dago  Atas"
      ((calls, "Coblong") ∷ []) [] miss "about Dago Atas" 200 refl refl refl

validate_address_v0-error_example : (validate_address_v0 hash json false full_disk "Dago" []).0 ≡ []
unfolding validate_address_v0 answer get_google_maps_cache fetch call_google_maps store
validate_address_v0-error_example =
    validate_address_v0-error hash json false full_disk "Dago" [] refl
