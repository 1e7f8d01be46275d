-- ===== src/Seeder/Stored/Prefix.antt =====
-- The rows that are stored when the loop over the batches ends, with or without an error.
use mathlib.Core.List.{foldl, foldl-append}
use address_quality.Prelude.{
  nat_eq, string_eq, none, inl, inr, [], ◌∷◌, ◌≡◌, refl, ℕ, List, take, ◌⊎◌, ◌++◌, ◌<◌, length,
  drop, ◌≤◌, ◌+◌, arith, ◌*◌, suc, ◌∙◌, ap, sym, zero, length-drop,
}
use address_quality.Chunks.{chunks, chunks_from, concat}
use address_quality.Seeder.{LocationCodeRow, batch_size}
use address_quality.Seeder.Stored.{insert_batches}
use address_quality.Database.{Conn, ◌>>=◌}
use address_quality.Database.Codes.{insert_code, insert_location_code_batch}
use address_quality.Database.Codes.Batch.{
  insert_location_code_batch-Does, insert_location_code_batch-IsAtomic,
}

-- The first batches are stored, all of them if there is no error.
insert_batches-take :
    (source_id : ℕ) (groups : List (List LocationCodeRow)) (c : Conn)
    → (k : ℕ) × ((insert_batches source_id groups c).1.db
        ≡ foldl (insert_code source_id) c.db (concat (take k groups)))
      × (((insert_batches source_id groups c).0 ≡ none) ⊎ (length groups ≤ k))
unfolding insert_batches
insert_batches-take source_id [] c = (0, refl, inr (omega arith))
insert_batches-take source_id (batch ∷ groups) c =
    elim (insert_location_code_batch-Does source_id batch c) [
      | inl (failed, fault) ↦ (
        0,
        rw (insert_batches, ◌>>=◌, failed)
            (insert_location_code_batch-IsAtomic source_id batch c failed),
        inl (rw (insert_batches, ◌>>=◌, failed) refl),
      )
      | inr (returned, left, clean) ↦
          let (k, stored, ends) =
            insert_batches-take source_id groups (insert_location_code_batch source_id batch c).1 in
          (
            suc k,
            rw (insert_batches, ◌>>=◌, returned)
                (stored
                  ∙ ap (λ d. foldl (insert_code source_id) d (concat (take k groups))) left
                  ∙ sym (foldl-append (insert_code source_id) c.db batch (concat (take k groups)))),
            rw (insert_batches, ◌>>=◌, returned)
                (elim ends [ inl failed ↦ inl failed | inr all ↦ inr (omega arith) ]),
          )
    ]

take-nil : {A : Type 0} (n : ℕ) → take {A = A} n [] ≡ []
take-nil zero = refl
take-nil (suc n) = refl

take-add : {A : Type 0} (m n : ℕ) (xs : List A) → take m xs ++ take n (drop m xs) ≡ take (m + n) xs
take-add zero n xs = ap (λ i. take i xs) (omega arith)
take-add (suc m) zero [] = sym (take-nil (suc m + 0))
take-add (suc m) (suc n) [] = sym (take-nil (suc m + suc n))
take-add (suc m) n (x ∷ xs) =
    let next : suc (m + n) ≡ suc m + n = omega arith in
    ap (λ l. x ∷ l) (take-add m n xs) ∙ ap (λ i. take i (x ∷ xs)) next

chunks_from-take :
    {A : Type 0} (size fuel k : ℕ) (rows : List A)
    → 0 < size
    → length rows ≤ fuel
    → concat (take k (chunks_from size fuel rows)) ≡ take (k * size) rows
unfolding chunks_from
chunks_from-take size fuel zero rows h enough =
    let none_taken : 0 ≡ zero * size = omega arith in ap (λ i. take i rows) none_taken
chunks_from-take size zero (suc k) [] h enough = sym (take-nil (suc k * size))
chunks_from-take size zero (suc k) (r ∷ rows) h enough = elim enough [ ]
chunks_from-take size (suc fuel) (suc k) [] h enough = sym (take-nil (suc k * size))
chunks_from-take size (suc fuel) (suc k) (r ∷ rows) h enough =
    let all : size + k * size ≡ suc k * size = omega arith in
    ap (λ l. take size (r ∷ rows) ++ l)
      (chunks_from-take size fuel k (drop size (r ∷ rows)) h
        (omega (arith, length-drop size (r ∷ rows))))
    ∙ take-add size (k * size) (r ∷ rows)
    ∙ ap (λ n. take n (r ∷ rows)) all

length-chunks_from :
    {A : Type 0} (size fuel k : ℕ) (rows : List A)
    → 0 < size
    → length rows ≤ fuel
    → length (chunks_from size fuel rows) ≤ k
    → length rows ≤ k * size
unfolding chunks_from
length-chunks_from size fuel k [] h enough few = omega arith
length-chunks_from size zero k (r ∷ rows) h enough few = elim enough [ ]
length-chunks_from size (suc fuel) zero (r ∷ rows) h enough few = elim few [ ]
length-chunks_from size (suc fuel) (suc k) (r ∷ rows) h enough few =
    let rest =
      length-chunks_from size fuel k (drop size (r ∷ rows)) h
        (omega (arith, length-drop size (r ∷ rows))) (omega arith) in
    omega (arith, length-drop size (r ∷ rows), rest)

-- When the loop over the batches of `main` ends, the rows that are stored are those of a number of
-- whole batches, inserted one row after the other; and this is all of them unless the loop ended
-- with an error.
pub insert_batches-prefix :
    (source_id : ℕ) (rows : List LocationCodeRow) (c : Conn)
    → (k : ℕ) × ((insert_batches source_id (chunks batch_size rows) c).1.db
        ≡ foldl (insert_code source_id) c.db (take (k * 500) rows))
      × (((insert_batches source_id (chunks batch_size rows) c).0 ≡ none) ⊎ (length rows ≤ k * 500))
unfolding chunks batch_size
insert_batches-prefix source_id rows c =
    let (k, stored, ends) = insert_batches-take source_id (chunks 500 rows) c in
    (
      k,
      stored
          ∙ ap (foldl (insert_code source_id) c.db)
              (chunks_from-take 500 (length rows) k rows (omega arith) (omega arith)),
      elim ends [
        | inl failed ↦ inl failed
        | inr all ↦
            inr (length-chunks_from 500 (length rows) k rows (omega arith) (omega arith) all)
      ],
    )
