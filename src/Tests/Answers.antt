-- ===== src/Tests/Answers.antt =====
-- Runs of the evidence, of the lookup by postal code and of a validation.
use address_quality.Prelude.{
  nat_eq, string_eq, some, [], ◌∷◌, true, false, ◌≡◌, refl, String, select, List, any, All, ◌≤◌,
  arith, pos, none,
}
use address_quality.Tests.{in_order, swapped, caches}
use address_quality.Sort.Insertion.{insertion}
use address_quality.Model.{Location}
use address_quality.Evidence.{extract_evidence, is_skipped}
use address_quality.Evidence.Distinct.{
  is_place_name, lower_values, NoneAgain, extract_evidence-places,
}
use address_quality.Pipeline.{evaluate_candidates}
use address_quality.Validate.Lookup.{infer_location}
use address_quality.Validate.Float.{is_close, float_of, spacing, round_even}
use address_quality.Validate.Response.{final_status}
use address_quality.Validate.Groups.{same_location, count_of}
use address_quality.Validate.Postal.{infer_location-largest}
use address_quality.Validate.Status.{is_ambiguous, is_contested, final_status-is_ambiguous}
use address_quality.Tests.{full}
use address_quality.Cache.{no_caches}
use address_quality.Database.{Conn, empty_db}
use address_quality.Model.{AddressRequest, ResponseData}
use address_quality.Database.Sources.{latest, is_active}
use address_quality.Validate.{
  Stage, data_of, validate_address_v1, is_valid_request, byte_length, source_code_of,
}
use address_quality.Validate.Ensure.{Service, ensure_entities_caches_loaded}
use address_quality.Validate.Ensure.Repeat.{ensure_entities_caches_loaded-repeat}
use address_quality.Validate.Answers.{validate_address_v1-answers}

abbrev text : String
text = "jl dago coblong dago bandung 40135"

extract_evidence-places_example :
    NoneAgain (lower_values (select is_place_name (extract_evidence text)))
    × All (λ e. is_skipped e.value ≡ false) (select is_place_name (extract_evidence text))
extract_evidence-places_example = extract_evidence-places text

abbrev place : String → String → Location
place sub_district district = record {
  postal_code = "40135";
  sub_district = sub_district;
  district = district;
  city = "Kota Bandung";
  province = "Jawa Barat";
}

abbrev others : List Location
others = place "Dago" "Coblong" ∷ place "Lebak Siliwangi" "Coblong" ∷ []

infer_location-largest_example :
    (pick : Location) × (infer_location swapped (place "Cihaurgeulis" "Cibeunying" ∷ others)
      ≡ some (pick, true))
    × (any (same_location pick) (place "Cihaurgeulis" "Cibeunying" ∷ others) ≡ true)
    × ((district : String)
        → count_of district (place "Cihaurgeulis" "Cibeunying" ∷ others)
          ≤ count_of pick.district (place "Cihaurgeulis" "Cibeunying" ∷ others))
infer_location-largest_example =
    infer_location-largest swapped (place "Cihaurgeulis" "Cibeunying") others

final_status-is_ambiguous_example :
    (is_contested 1000 (evaluate_candidates in_order insertion caches (full ∷ full ∷ []) []) ≡ true
      → is_ambiguous
          (final_status (evaluate_candidates in_order insertion caches (full ∷ full ∷ []) []))
        ≡ true)
    × (is_ambiguous
            (final_status (evaluate_candidates in_order insertion caches (full ∷ full ∷ []) []))
          ≡ true
        → is_contested 1001 (evaluate_candidates in_order insertion caches (full ∷ full ∷ []) [])
          ≡ true)
final_status-is_ambiguous_example =
    final_status-is_ambiguous in_order insertion caches (full ∷ full ∷ []) [] (omega arith)

-- At a distance of 0.1: `0.3-0.2` and `0.9-0.8` are below it in float64, `0.2-0.1` is not.
is_close_runs :
    (is_close (pos 3000) (pos 2000) ≡ true)
    × (is_close (pos 8000) (pos 9000) ≡ true)
    × (is_close (pos 2000) (pos 1000) ≡ false)
    × (is_close (pos 10000) (pos 8999) ≡ false)
unfolding is_close float_of spacing round_even
is_close_runs = (refl, refl, refl, refl)

abbrev registered : Conn
registered = record {
  db = record empty_db {
    location_sources =
        record {
          id = 1;
          code = "kemendagri";
          version = "2025";
          name = "Kepmendagri";
          code_date = "";
          desc = "";
          deleted_at = none;
        }
        ∷ [];
  };
  faults = [];
}

abbrev stage : Stage
stage = record {
  max_address_length = 100;
  default_source_code = "kemendagri";
  sanitize = λ s. s;
  road_tokens = λ s. [];
  strip_road_context = λ s. s;
  dict = [];
  address_id = "a-1";
}

abbrev request : AddressRequest
request = record { address = text; source_code = "" }

-- A service before its first request.
abbrev idle : Service
idle = record { caches = no_caches; city_priority_set = []; done = [] }

validate_address_v1-answers_example :
    (d : ResponseData) × ((validate_address_v1 in_order insertion
        (λ n. "u")
        stage
        request
        idle
        registered).0
      ≡ data_of d)
unfolding is_valid_request byte_length latest source_code_of is_active
validate_address_v1-answers_example =
    validate_address_v1-answers in_order insertion (λ n. "u") stage request idle registered 1 "2025"
      refl refl refl refl

-- A connection whose second load fails.
abbrev broken : Conn
broken = record { db = empty_db; faults = false ∷ false ∷ true ∷ [] }

ensure_entities_caches_loaded-repeat_example :
    ensure_entities_caches_loaded swapped 2
      (ensure_entities_caches_loaded swapped 1 idle broken).1
      registered
    ≡ (
      (ensure_entities_caches_loaded swapped 1 idle broken).0,
      (ensure_entities_caches_loaded swapped 1 idle broken).1,
      registered,
    )
ensure_entities_caches_loaded-repeat_example =
    ensure_entities_caches_loaded-repeat swapped 1 2 idle broken registered
