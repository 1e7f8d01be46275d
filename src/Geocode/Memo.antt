-- ===== src/Geocode/Memo.antt =====
-- The cache as a partial function from hashes to payloads, and the service over such a function.
use mathlib.Core.Path.{fun_ext}
use mathlib.Core.Option
use address_quality.Prelude.{
  nat_eq, string_eq, none, some, inl, inr, [], ◌∷◌, false, String, Option, List, Bool, ◌≡◌, refl,
  if◌then◌else◌, beq_self, ◌==◌, Bool-cases, Option-cases, beq→eq, subst, ap,
}
use address_quality.Geocode.{
  CacheRow, Calls, Decoders, Outcome, bad_request, internal_error, hit, miss,
  build_geocode_response, canonicalize_request_body, get_google_maps_cache,
  upsert_google_maps_cache, is_active_row, fetch, store, answer, validate_address_v0,
}

-- What an active row answers; soft-deleted rows and the order of rows are forgotten.
abbrev pub Memo : Type 0
Memo = String → Option String

unfoldable pub memo_of : List CacheRow → Memo
memo_of cache hash = Option.map (λ (r : CacheRow). r.response) (get_google_maps_cache hash cache)

unfoldable pub remember : String → String → Memo → Memo
remember hash payload memo k = if hash == k then some payload else memo k

get-upsert_self :
    (hash request payload : String) (rows : List CacheRow)
    → memo_of (upsert_google_maps_cache hash request payload rows) hash ≡ some payload
unfolding memo_of get_google_maps_cache upsert_google_maps_cache is_active_row
get-upsert_self hash request payload [] = rw (beq_self hash) refl
get-upsert_self hash request payload (r ∷ rows) = elim (Bool-cases (r.request_hash == hash)) [
  | inl same ↦ rw (upsert_google_maps_cache, same, get_google_maps_cache, is_active_row, same) refl
  | inr other ↦
      rw (upsert_google_maps_cache, other, get_google_maps_cache, is_active_row, other)
        (get-upsert_self hash request payload rows)
]

get-upsert_ne :
    (hash request payload k : String) (rows : List CacheRow)
    → (hash == k) ≡ false
    → memo_of (upsert_google_maps_cache hash request payload rows) k ≡ memo_of rows k
unfolding memo_of get_google_maps_cache upsert_google_maps_cache is_active_row
get-upsert_ne hash request payload k [] ne = rw ne refl
get-upsert_ne hash request payload k (r ∷ rows) ne = elim (Bool-cases (r.request_hash == hash)) [
  | inl same ↦
      let e = beq→eq r.request_hash hash same in
      let differs : (r.request_hash == k) ≡ false = rw e ne in
      rw (upsert_google_maps_cache, same, get_google_maps_cache, is_active_row, differs) refl
  | inr other ↦ elim (Bool-cases (is_active_row k r)) [
    | inl found ↦ rw (upsert_google_maps_cache, other, get_google_maps_cache, found) refl
    | inr missing ↦
        rw (upsert_google_maps_cache, other, get_google_maps_cache, missing)
          (get-upsert_ne hash request payload k rows ne)
  ]
]

memo_of-upsert :
    (hash request payload : String) (rows : List CacheRow)
    → memo_of (upsert_google_maps_cache hash request payload rows)
      ≡ remember hash payload (memo_of rows)
unfolding remember
memo_of-upsert hash request payload rows = fun_ext λ k. elim (Bool-cases (hash == k)) [
  | inl same ↦
      rw (remember, same)
        (subst (λ x. memo_of (upsert_google_maps_cache hash request payload rows) x ≡ some payload)
          (beq→eq hash k same) (get-upsert_self hash request payload rows))
  | inr other ↦ rw (remember, other) (get-upsert_ne hash request payload k rows other)
]

module _ (hash_of : String → String) (json : Decoders) (mock : Bool) where
  -- The service over a memo.
  unfoldable pub memo_answer : Calls → String → String → Memo → Memo × Outcome
  memo_answer calls canonical address memo =
      if calls.lookup_fails then (memo, internal_error) else elim (memo (hash_of canonical)) [
        | some payload ↦ (memo, build_geocode_response json payload hit)
        | none ↦ elim (fetch hash_of json mock calls canonical address) [
          | none ↦ (memo, internal_error)
          | some payload ↦ if calls.upsert_fails then (memo, internal_error) else (
            remember (hash_of canonical) payload memo,
            build_geocode_response json payload miss,
          )
        ]
      ]

  unfoldable pub memo_step : Calls → String → Memo → Memo × Outcome
  memo_step calls raw_body memo = elim (json.address (canonicalize_request_body raw_body)) [
    | none ↦ (memo, bad_request)
    | some address ↦ memo_answer calls (canonicalize_request_body raw_body) address memo
  ]

  -- What is left of a run once its cache is seen as a memo.
  abbrev pub seen : List CacheRow × Outcome → Memo × Outcome
  seen (cache, outcome) = (memo_of cache, outcome)

  answer-refines :
      (calls : Calls) (canonical address : String) (cache : List CacheRow)
      → seen (answer hash_of json mock calls canonical address cache)
        ≡ memo_answer calls canonical address (memo_of cache)
  unfolding answer memo_answer store memo_of
  answer-refines calls canonical address cache = elim (Bool-cases calls.lookup_fails) [
    | inl fails ↦ rw (answer, memo_answer, fails) refl
    | inr works ↦ elim (Option-cases (get_google_maps_cache (hash_of canonical) cache)) [
      | inr (r, found) ↦ rw (answer, memo_answer, works, memo_of, found) refl
      | inl missing ↦ elim (Option-cases (fetch hash_of json mock calls canonical address)) [
        | inl unanswered ↦ rw (answer, memo_answer, works, memo_of, missing, unanswered) refl
        | inr (payload, fetched) ↦ elim (Bool-cases calls.upsert_fails) [
          | inl fails ↦
              rw (answer, memo_answer, works, memo_of, missing, fetched, store, fails) refl
          | inr stored ↦
              rw (answer, memo_answer, works, memo_of, missing, fetched, store, stored)
                (ap (λ m. (m, build_geocode_response json payload miss))
                  (memo_of-upsert (hash_of canonical) canonical payload cache))
        ]
      ]
    ]
  ]

  -- The service over rows does what the service over a partial function from hashes to payloads
  -- does: with the cache seen as such a function, both give the same outcome and the same new
  -- function, on every branch.
  pub validate_address_v0-refines :
      (calls : Calls) (raw_body : String) (cache : List CacheRow)
      → seen (validate_address_v0 hash_of json mock calls raw_body cache)
        ≡ memo_step calls raw_body (memo_of cache)
  unfolding validate_address_v0 memo_step
  validate_address_v0-refines calls raw_body cache =
      elim (Option-cases (json.address (canonicalize_request_body raw_body))) [
        | inl undecoded ↦ rw (validate_address_v0, memo_step, undecoded) refl
        | inr (address, decoded) ↦
            rw (validate_address_v0, memo_step, decoded)
              (answer-refines calls (canonicalize_request_body raw_body) address cache)
      ]
