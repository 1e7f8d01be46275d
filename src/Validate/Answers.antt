-- ===== src/Validate/Answers.antt =====
-- Which requests are answered.
use address_quality.Prelude.{
  ℕ, Bool, true, false, Option, none, some, List, [], ◌∷◌, String, Bool-cases, ◌≡◌, refl, ◌==◌, inl,
  inr, string_eq, nat_eq,
}
use address_quality.GoMap.{RangeOrder}
use address_quality.Sort.{SliceSort}
use address_quality.Model.{Location, AddressRequest, ResponseData}
use address_quality.Normalizer.{normalize}
use address_quality.Evidence.{extract_postal_code}
use address_quality.Database.{Conn, pure}
use address_quality.Database.Sources.{latest, find_source_by_code}
use address_quality.Database.Codes.{find_by_postal_code}
use address_quality.Database.Returns.{
  Returns, bind-Returns, pure-Returns, find_by_postal_code-Returns, select_row-Returns,
}
use address_quality.Validate.Ensure.{
  provinces, cities, districts, sub_districts, hierarchy, city_priority, Service, ensure_each,
  ensure_entities_caches_loaded,
}
use address_quality.Validate.Lookup.{
  is_no_location, infer_location, fill_location, resolve_location_by_postal_code,
}
use address_quality.Validate.Postal.{infer_location-largest}
use address_quality.Validate.Response.{winner_location, respond, final_status}
use address_quality.Validate.{
  Stage, data_of, is_valid_request, rank, assess, with_caches, source_code_of, as_answer,
  validate_address_v1,
}
use address_quality.Validate.Ensure.Clean.{is_clean, ensure_each-clean}

infer_location-Returns :
    (order : RangeOrder) (results : List Location)
    → Returns {A = Location × Bool} (λ c. (infer_location order results, c))
unfolding infer_location
infer_location-Returns order [] c clean = (_, refl, clean)
infer_location-Returns order (r ∷ rest) c clean =
    let (pick, picked, there, largest) = infer_location-largest order r rest in
    ((pick, true), picked, clean)

resolve_location_by_postal_code-Returns :
    (order : RangeOrder) (location : Location) (normalized : String) (source_id : ℕ)
    → Returns (resolve_location_by_postal_code order location normalized source_id)
unfolding resolve_location_by_postal_code
resolve_location_by_postal_code-Returns order location normalized source_id =
    elim (Bool-cases (extract_postal_code normalized == "")) [
      | inl without ↦ rw (resolve_location_by_postal_code, without) (pure-Returns (location, false))
      | inr given ↦ elim (Bool-cases (is_no_location location)) [
        | inl nothing ↦
            rw (resolve_location_by_postal_code, given, nothing)
              (bind-Returns (find_by_postal_code order (extract_postal_code normalized) source_id)
                (λ results c. (infer_location order results, c))
                (find_by_postal_code-Returns order (extract_postal_code normalized) source_id)
                (λ results. infer_location-Returns order results))
        | inr something ↦
            rw (resolve_location_by_postal_code, given, something)
              (pure-Returns (fill_location location (extract_postal_code normalized)))
      ]
    ]

module _ (order : RangeOrder) (sorter : SliceSort) (new_uuid : ℕ → String) where
  assess-Returns :
      (stage : Stage) (req : AddressRequest) (source_code : String) (source_id : ℕ)
      (source_version : String) (s : Service)
      → Returns (assess order sorter new_uuid stage req source_code source_id source_version s)
  unfolding assess
  assess-Returns stage req source_code source_id source_version s =
      let sanitized = stage.sanitize req.address in
      let ranking = rank order sorter new_uuid stage s source_id sanitized in
      bind-Returns
        (resolve_location_by_postal_code order (winner_location ranking.0) (normalize sanitized)
          source_id)
        (λ found. pure (
          respond
            (record {
              address_id = stage.address_id;
              raw_input = req.address;
              normalized = normalize sanitized;
              source_code = source_code;
              source_version = source_version;
            })
            (final_status ranking.0) ranking.1 ranking.0 found))
        (resolve_location_by_postal_code-Returns order (winner_location ranking.0)
          (normalize sanitized) source_id)
        (λ found. pure-Returns _)

  as_answer-data :
      (o : Option ResponseData × Service × Conn) (d : ResponseData)
      → o.0 ≡ some d
      → (as_answer order sorter new_uuid o).0 ≡ data_of d
  unfolding as_answer
  as_answer-data (none, s, c) d h = cc
  as_answer-data (some e, s, c) d h = cc

  with_caches-data :
      (stage : Stage) (req : AddressRequest) (code : String) (s : Service)
      (o : Option (ℕ × String) × Conn) (source_id : ℕ) (source_version : String)
      → o.0 ≡ some (source_id, source_version)
      → o.1.faults ≡ []
      → is_clean s ≡ true
      → (d : ResponseData) × ((with_caches order sorter new_uuid stage req code s o).0 ≡ some d)
  unfolding with_caches ensure_entities_caches_loaded
  with_caches-data stage req code s (none, c) source_id source_version e clean h = cc
  with_caches-data stage req code s (some (i, v), c) source_id source_version e clean h =
      let gs = provinces ∷ cities ∷ districts ∷ sub_districts ∷ hierarchy ∷ city_priority ∷ [] in
      let loaded = ensure_each order i gs s c in
      let (works, still) = ensure_each-clean order i gs s c h clean in
      let (d, returned, rest) = assess-Returns stage req code i v loaded.1 loaded.2 still in
      (d, rw (with_caches, works) returned)

  -- A request with an address that is neither empty nor too long is answered with data when its
  -- source is registered, no earlier loading of a cache has left an error, and no call of the
  -- database fails, whichever of the caches are loaded already.
  pub validate_address_v1-answers :
      (stage : Stage) (req : AddressRequest) (s : Service) (c : Conn) (source_id : ℕ)
      (source_version : String)
      → is_valid_request stage.max_address_length req ≡ true
      → latest (source_code_of order sorter new_uuid stage req) c.db.location_sources
        ≡ some (source_id, source_version)
      → is_clean s ≡ true
      → c.faults ≡ []
      → (d : ResponseData) × ((validate_address_v1 order sorter new_uuid stage req s c).0
          ≡ data_of d)
  unfolding validate_address_v1 find_source_by_code
  validate_address_v1-answers stage req s c source_id source_version valid registered loaded clean =
      let code = source_code_of order sorter new_uuid stage req in
      let (found, still) =
        select_row-Returns (λ d. latest code d.location_sources) c (source_id, source_version) clean
          registered in
      let (d, answered) =
        with_caches-data stage req code s (find_source_by_code code c) source_id source_version
          found still loaded in
      (
        d,
        rw (validate_address_v1, valid)
            (as_answer-data
              (with_caches order sorter new_uuid stage req code s (find_source_by_code code c)) d
              answered),
      )
