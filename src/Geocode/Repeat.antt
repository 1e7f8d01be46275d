-- ===== src/Geocode/Repeat.antt =====
-- Requests that were answered, asked again; and requests that end with an error.
use address_quality.Prelude.{
  nat_eq, string_eq, some, inl, inr, true, false, String, List, ℕ, Bool, ◌≡◌, refl, ap, Bool-cases,
  Option-cases, subst, sym, ◌∙◌, some-eq, ◌↔◌,
}
use address_quality.Text.{join, fields}
use address_quality.Text.Fields.{fields-All, fields-join}
use address_quality.Geocode.{
  CacheRow, Calls, Decoders, Outcome, CacheStatus, bad_request, internal_error, response, hit,
  build_geocode_response, canonicalize_request_body, fetch, answer, validate_address_v0, serve,
  get_google_maps_cache, store,
}
use address_quality.Geocode.Memo.{Memo, memo_of, validate_address_v0-refines}
use address_quality.Geocode.Kept.{serve-keeps, memo_step-Answers, status_of, Answers}

-- Two bodies have the same canonical form exactly when they have the same words.
pub canonicalize_request_body-words :
    (raw_body raw_body' : String)
    → (canonicalize_request_body raw_body ≡ canonicalize_request_body raw_body')
      ↔ (fields raw_body ≡ fields raw_body')
unfolding canonicalize_request_body
canonicalize_request_body-words raw_body raw_body' = (
  λ same.
      sym (fields-join (fields raw_body) (fields-All raw_body))
      ∙ ap fields same
      ∙ fields-join (fields raw_body') (fields-All raw_body'),
  ap (join " "),
)

abbrev pub is_error : Outcome → Bool
is_error bad_request = true
is_error internal_error = true
is_error (response s p status) = false

module _ (hash_of : String → String) (json : Decoders) (mock : Bool) where
  -- An answered body can be decoded.
  answered-decodes :
      (calls : Calls) (raw_body : String) (cache : List CacheRow) (s : CacheStatus) (p : String)
      (status : ℕ)
      → (validate_address_v0 hash_of json mock calls raw_body cache).1 ≡ response s p status
      → (address : String) × (json.address (canonicalize_request_body raw_body) ≡ some address)
  unfolding validate_address_v0
  answered-decodes calls raw_body cache s p status answered =
      elim (Option-cases (json.address (canonicalize_request_body raw_body))) [
        | inl undecoded ↦ cc (rw (validate_address_v0, undecoded) at answered)
        | inr found ↦ found
      ]

  answer-hit :
      (calls : Calls) (canonical address p : String) (cache : List CacheRow)
      → calls.lookup_fails ≡ false
      → memo_of cache (hash_of canonical) ≡ some p
      → answer hash_of json mock calls canonical address cache
        ≡ (cache, response hit p (status_of hash_of json mock p))
  unfolding answer memo_of build_geocode_response
  answer-hit calls canonical address p cache works at =
      elim (Option-cases (get_google_maps_cache (hash_of canonical) cache)) [
        | inl missing ↦ cc (rw (memo_of, missing) at at)
        | inr (r, found) ↦
            let same : r.response ≡ p = some-eq _ _ (rw (memo_of, found) at at) in
            rw (answer, works, found, same) refl
      ]

  validate-hit :
      (calls : Calls) (raw_body address p : String) (cache : List CacheRow)
      → json.address (canonicalize_request_body raw_body) ≡ some address
      → calls.lookup_fails ≡ false
      → memo_of cache (hash_of (canonicalize_request_body raw_body)) ≡ some p
      → validate_address_v0 hash_of json mock calls raw_body cache
        ≡ (cache, response hit p (status_of hash_of json mock p))
  unfolding validate_address_v0
  validate-hit calls raw_body address p cache decoded works at =
      rw (validate_address_v0, decoded)
        (answer-hit calls (canonicalize_request_body raw_body) address p cache works at)

  -- Once a body is answered, and after any further requests, a body with the same words is answered
  -- from the cache, with the same payload and the same status, and leaves the cache as it is,
  -- whatever the upstream service would answer then; only the lookup must not fail.
  pub validate_address_v0-repeat :
      (calls calls' : Calls) (raw_body raw_body' : String) (requests : List (Calls × String))
      (cache : List CacheRow) (s : CacheStatus) (p : String) (status : ℕ)
      → (validate_address_v0 hash_of json mock calls raw_body cache).1 ≡ response s p status
      → fields raw_body' ≡ fields raw_body
      → calls'.lookup_fails ≡ false
      → validate_address_v0 hash_of json mock calls' raw_body' (
          serve hash_of json mock requests
            (validate_address_v0 hash_of json mock calls raw_body cache).0)
        ≡ (
          serve hash_of json mock requests
              (validate_address_v0 hash_of json mock calls raw_body cache).0,
          response hit p status,
        )
  unfolding validate_address_v0 canonicalize_request_body Answers
  validate_address_v0-repeat calls calls' raw_body raw_body' requests cache s p status answered same
        works =
      let canonical = canonicalize_request_body raw_body in
      let run = validate_address_v0 hash_of json mock calls raw_body cache in
      let later = serve hash_of json mock requests run.0 in
      let (address, decoded) = answered-decodes calls raw_body cache s p status answered in
      let refined = validate_address_v0-refines hash_of json mock calls raw_body cache in
      let kept : Answers hash_of json mock (hash_of canonical) run.1 (memo_of run.0) =
        subst (λ (o : Memo × Outcome). Answers hash_of json mock (hash_of canonical) o.1 o.0)
          (sym refined) (memo_step-Answers hash_of json mock calls raw_body (memo_of cache)) in
      let (at, status_at) : (memo_of run.0 (hash_of canonical) ≡ some p)
          × (status ≡ status_of hash_of json mock p) =
        subst (λ o. Answers hash_of json mock (hash_of canonical) o (memo_of run.0)) answered
          kept in
      let again : canonicalize_request_body raw_body' ≡ canonical = ap (join " ") same in
      subst
        (λ t.
          validate_address_v0 hash_of json mock calls' raw_body' later ≡ (later, response hit p t))
        (sym status_at)
        (validate-hit calls' raw_body' address p later (ap json.address again ∙ decoded) works (
          ap (λ x. memo_of later (hash_of x)) again
          ∙ serve-keeps hash_of json mock requests (hash_of canonical) p run.0 at))

  -- A request that ends with an error leaves the cache as it is.
  pub validate_address_v0-error :
      (calls : Calls) (raw_body : String) (cache : List CacheRow)
      → is_error (validate_address_v0 hash_of json mock calls raw_body cache).1 ≡ true
      → (validate_address_v0 hash_of json mock calls raw_body cache).0 ≡ cache
  unfolding validate_address_v0 answer store build_geocode_response
  validate_address_v0-error calls raw_body cache failed =
      elim (Option-cases (json.address (canonicalize_request_body raw_body))) [
        | inl undecoded ↦ rw (validate_address_v0, undecoded) refl
        | inr (address, decoded) ↦ elim (Bool-cases calls.lookup_fails) [
          | inl fails ↦ rw (validate_address_v0, decoded, answer, fails) refl
          | inr works ↦
              elim (Option-cases
                (get_google_maps_cache (hash_of (canonicalize_request_body raw_body)) cache)) [
                  | inr (r, found) ↦ rw (validate_address_v0, decoded, answer, works, found) refl
                  | inl missing ↦
                      elim (Option-cases (
                        fetch hash_of json mock calls (canonicalize_request_body raw_body)
                          address)) [
                            | inl unanswered ↦
                                rw
                                  (validate_address_v0, decoded, answer, works, missing, unanswered)
                                  refl
                            | inr (payload, fetched) ↦ elim (Bool-cases calls.upsert_fails) [
                              | inl fails ↦
                                  rw
                                    (
                                      validate_address_v0, decoded, answer, works, missing, fetched,
                                      store, fails,
                                    )
                                    refl
                              | inr stored ↦ cc (
                                  rw
                                    (
                                      validate_address_v0, decoded, answer, works, missing, fetched,
                                      store, stored,
                                    )
                                    at failed)
                            ]
                          ]
                ]
        ]
      ]
