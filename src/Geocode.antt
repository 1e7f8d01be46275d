-- ===== src/Geocode.antt =====
-- internal/service/geocode.go with internal/database/google_maps.go: a geocoding request is answered
-- from the cache, or by the upstream service, whose answer is then cached. The mutex makes one
-- request after the other the only executions. The hash and the JSON decoder are parameters, and so
-- are what fails and what the upstream service answers at a request.
pub mod Memo
pub mod Kept
pub mod Repeat
use Prim.Native.Char.{Char, code}
use Prim.Native.String
use address_quality.Prelude.{
  nat_eq, string_eq, none, some, [], ◌∷◌, true, false, String, Option, List, ℕ, Bool, if◌then◌else◌,
  ◌==◌, ◌||◌, ◌&&◌, not, is_some,
}
use address_quality.Text.{join, fields}

unfoldable pub canonicalize_request_body : String → String
canonicalize_request_body raw_body = join " " (fields raw_body)

-- A row of google_maps_cache; its times are not read.
pub record CacheRow : Type 0 where
  pub request_hash : String
  pub request : String
  pub response : String
  pub deleted_at : Option String

-- What an HTTP call of the upstream service comes to: an error of the transport, or a status code
-- with a body.
pub data Reply : Type 0 where
  unreachable : Reply
  answered : ℕ → String → Reply

-- The outcomes of the calls that one request makes.
pub record Calls : Type 0 where
  pub lookup_fails : Bool
  pub upsert_fails : Bool
  pub upstream : String → Reply

-- The decoders of JSON that the requests use: the address of a request body, and of a payload
-- whether it has an error and the number of its results, if it has a list of them.
pub record Decoders : Type 0 where
  pub address : String → Option String
  pub probe : String → Option (Bool × Option ℕ)
  pub trim_space : String → String

pub data CacheStatus : Type 0 where
  hit miss : CacheStatus

-- The response and its status, or the status of an error.
pub data Outcome : Type 0 where
  bad_request internal_error : Outcome
  response : CacheStatus → String → ℕ → Outcome

unfoldable pub response_is_not_found : Decoders → String → Bool
response_is_not_found json payload =
    let trimmed = json.trim_space payload in
    if trimmed == "" || trimmed == "{}" then true else elim (json.probe trimmed) [
      | none ↦ false
      | some (has_error, results) ↦
          if has_error then true else elim results [ none ↦ false | some n ↦ n == 0 ]
    ]

unfoldable pub build_geocode_response : Decoders → String → CacheStatus → Outcome
build_geocode_response json payload cache_status =
    response cache_status payload (if response_is_not_found json payload then 404 else 200)

unfoldable pub mock_not_found_response : String
mock_not_found_response =
    "{\"error\":{\"code\":404,\"message\":\"Address not found\",\"status\":\"NOT_FOUND\"}}"

-- The payload to be cached: the body of status 200, or of 404 (errGoogleMapsNotFound).
unfoldable pub call_google_maps : Reply → Option String
call_google_maps unreachable = none
call_google_maps (answered status body) =
    if status == 200 then some body else if status == 404 then some body else none

unfoldable pub is_active_row : String → CacheRow → Bool
is_active_row hash r = r.request_hash == hash && not (is_some r.deleted_at)

-- The active row of a hash.
unfoldable pub get_google_maps_cache : String → List CacheRow → Option CacheRow
get_google_maps_cache hash [] = none
get_google_maps_cache hash (r ∷ rows) =
    let later = get_google_maps_cache hash rows in if is_active_row hash r then some r else later

-- INSERT ... ON CONFLICT(request_hash) DO UPDATE
unfoldable pub upsert_google_maps_cache : String → String → String → List CacheRow → List CacheRow
upsert_google_maps_cache hash request payload [] =
    (record { request_hash = hash; request = request; response = payload; deleted_at = none }) ∷ []
upsert_google_maps_cache hash request payload (r ∷ rows) =
    let rest = upsert_google_maps_cache hash request payload rows in
    if r.request_hash == hash
    then (record r { request = request; response = payload; deleted_at = none }) ∷ rows
    else r ∷ rest

module _ (hash_of : String → String) (json : Decoders) (mock : Bool) where
  -- After a lookup that found nothing.
  unfoldable pub fetch : Calls → String → String → Option String
  fetch calls canonical address =
      if mock then some mock_not_found_response else call_google_maps (calls.upstream address)

  unfoldable pub store : Calls → String → String → List CacheRow → List CacheRow × Outcome
  store calls canonical payload cache = if calls.upsert_fails then (cache, internal_error) else (
    upsert_google_maps_cache (hash_of canonical) canonical payload cache,
    build_geocode_response json payload miss,
  )

  unfoldable pub answer : Calls → String → String → List CacheRow → List CacheRow × Outcome
  answer calls canonical address cache =
      if calls.lookup_fails
      then (cache, internal_error)
      else elim (get_google_maps_cache (hash_of canonical) cache) [
        | some r ↦ (cache, build_geocode_response json r.response hit)
        | none ↦ elim (fetch calls canonical address) [
          | none ↦ (cache, internal_error)
          | some payload ↦ store calls canonical payload cache
        ]
      ]

  unfoldable pub validate_address_v0 : Calls → String → List CacheRow → List CacheRow × Outcome
  validate_address_v0 calls raw_body cache =
      let canonical = canonicalize_request_body raw_body in
      elim (json.address canonical) [
        | none ↦ (cache, bad_request)
        | some address ↦ answer calls canonical address cache
      ]

  -- One request after the other.
  unfoldable pub serve : List (Calls × String) → List CacheRow → List CacheRow
  serve [] cache = cache
  serve ((calls, raw_body) ∷ requests) cache =
      serve requests (validate_address_v0 calls raw_body cache).0
