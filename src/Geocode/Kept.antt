-- ===== src/Geocode/Kept.antt =====
-- What the memo keeps, and what an answer leaves in it.
use address_quality.Prelude.{
  nat_eq, string_eq, none, some, inl, inr, [], ◌∷◌, String, List, ℕ, Bool, ◌≡◌, refl, Bool-cases,
  ◌==◌, beq→eq, Option-cases, subst, if◌then◌else◌, beq_self, sym,
}
use address_quality.Geocode.{
  CacheRow, Calls, Decoders, Outcome, bad_request, internal_error, response, build_geocode_response,
  response_is_not_found, canonicalize_request_body, fetch, validate_address_v0, serve,
}
use address_quality.Geocode.Memo.{
  Memo, memo_of, memo_answer, memo_step, remember, validate_address_v0-refines,
}

module _ (hash_of : String → String) (json : Decoders) (mock : Bool) where
  remembers :
      (hash payload k p : String) (memo : Memo)
      → memo hash ≡ none
      → memo k ≡ some p
      → remember hash payload memo k ≡ some p
  unfolding remember
  remembers hash payload k p memo missing at = elim (Bool-cases (hash == k)) [
    | inl same ↦ cc (beq→eq hash k same, missing, at)
    | inr other ↦ rw (remember, other) at
  ]

  memo_answer-keeps :
      (calls : Calls) (canonical address k p : String) (memo : Memo)
      → memo k ≡ some p
      → (memo_answer hash_of json mock calls canonical address memo).0 k ≡ some p
  unfolding memo_answer
  memo_answer-keeps calls canonical address k p memo at = elim (Bool-cases calls.lookup_fails) [
    | inl fails ↦ rw (memo_answer, fails) at
    | inr works ↦ elim (Option-cases (memo (hash_of canonical))) [
      | inr (q, found) ↦ rw (memo_answer, works, found) at
      | inl missing ↦ elim (Option-cases (fetch hash_of json mock calls canonical address)) [
        | inl unanswered ↦ rw (memo_answer, works, missing, unanswered) at
        | inr (q, fetched) ↦ elim (Bool-cases calls.upsert_fails) [
          | inl fails ↦ rw (memo_answer, works, missing, fetched, fails) at
          | inr stored ↦
              rw (memo_answer, works, missing, fetched, stored)
                (remembers (hash_of canonical) q k p memo missing at)
        ]
      ]
    ]
  ]

  memo_step-keeps :
      (calls : Calls) (raw_body k p : String) (memo : Memo)
      → memo k ≡ some p
      → (memo_step hash_of json mock calls raw_body memo).0 k ≡ some p
  unfolding memo_step
  memo_step-keeps calls raw_body k p memo at =
      elim (Option-cases (json.address (canonicalize_request_body raw_body))) [
        | inl undecoded ↦ rw (memo_step, undecoded) at
        | inr (address, decoded) ↦
            rw (memo_step, decoded)
              (memo_answer-keeps calls (canonicalize_request_body raw_body) address k p memo at)
      ]

  pub serve-keeps :
      (requests : List (Calls × String)) (k p : String) (cache : List CacheRow)
      → memo_of cache k ≡ some p
      → memo_of (serve hash_of json mock requests cache) k ≡ some p
  unfolding serve
  serve-keeps [] k p cache at = at
  serve-keeps ((calls, raw_body) ∷ requests) k p cache at =
      serve-keeps requests k p (validate_address_v0 hash_of json mock calls raw_body cache).0 (
        subst (λ (o : Memo × Outcome). o.0 k ≡ some p)
          (sym (validate_address_v0-refines hash_of json mock calls raw_body cache))
          (memo_step-keeps calls raw_body k p (memo_of cache) at))

  -- The status of a payload.
  abbrev pub status_of : String → ℕ
  status_of payload = if response_is_not_found json payload then 404 else 200

  -- What an answer leaves in the memo.
  unfoldable pub Answers : String → Outcome → Memo → Type 0
  Answers hash bad_request memo = Unit
  Answers hash internal_error memo = Unit
  Answers hash (response s p status) memo = (memo hash ≡ some p) × (status ≡ status_of p)

  remember_self : (hash p : String) (memo : Memo) → remember hash p memo hash ≡ some p
  unfolding remember
  remember_self hash p memo = rw (beq_self hash) refl

  memo_answer-Answers :
      (calls : Calls) (canonical address : String) (memo : Memo)
      → Answers
          (hash_of canonical)
          (memo_answer hash_of json mock calls canonical address memo).1
          (memo_answer hash_of json mock calls canonical address memo).0
  unfolding memo_answer build_geocode_response Answers
  memo_answer-Answers calls canonical address memo = elim (Bool-cases calls.lookup_fails) [
    | inl fails ↦ rw (memo_answer, fails) tt
    | inr works ↦ elim (Option-cases (memo (hash_of canonical))) [
      | inr (q, found) ↦ rw (memo_answer, works, found) (found, refl)
      | inl missing ↦ elim (Option-cases (fetch hash_of json mock calls canonical address)) [
        | inl unanswered ↦ rw (memo_answer, works, missing, unanswered) tt
        | inr (q, fetched) ↦ elim (Bool-cases calls.upsert_fails) [
          | inl fails ↦ rw (memo_answer, works, missing, fetched, fails) tt
          | inr stored ↦
              rw (memo_answer, works, missing, fetched, stored)
                (remember_self (hash_of canonical) q memo, refl)
        ]
      ]
    ]
  ]

  pub memo_step-Answers :
      (calls : Calls) (raw_body : String) (memo : Memo)
      → Answers
          (hash_of (canonicalize_request_body raw_body))
          (memo_step hash_of json mock calls raw_body memo).1
          (memo_step hash_of json mock calls raw_body memo).0
  unfolding memo_step Answers
  memo_step-Answers calls raw_body memo =
      elim (Option-cases (json.address (canonicalize_request_body raw_body))) [
        | inl undecoded ↦ rw (memo_step, undecoded) tt
        | inr (address, decoded) ↦
            rw (memo_step, decoded)
              (memo_answer-Answers calls (canonicalize_request_body raw_body) address memo)
      ]
