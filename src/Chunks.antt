-- ===== src/Chunks.antt =====
-- The loops `for start := 0; start < len(rows); start += chunk` over slices `rows[start:end]`.
use address_quality.Prelude.{
  [], ◌∷◌, List, ℕ, zero, suc, take, drop, length, ◌++◌, ◌≡◌, refl, ap, ◌<◌, ◌≤◌, arith,
  length-drop, ◌∙◌,
}

-- A chunk takes at least one row, so that there are at most as many as rows.
unfoldable pub chunks_from : {A : Type 0} → ℕ → ℕ → List A → List (List A)
chunks_from size zero rows = []
chunks_from size (suc fuel) [] = []
chunks_from size (suc fuel) (r ∷ rows) =
    take size (r ∷ rows) ∷ chunks_from size fuel (drop size (r ∷ rows))

unfoldable pub chunks : {A : Type 0} → ℕ → List A → List (List A)
chunks size rows = chunks_from size (length rows) rows

abbrev pub concat : {A : Type 0} → List (List A) → List A
concat [] = []
concat (l ∷ ls) = l ++ concat ls

take-drop : {A : Type 0} (n : ℕ) (xs : List A) → take n xs ++ drop n xs ≡ xs
take-drop zero xs = refl
take-drop (suc n) [] = refl
take-drop (suc n) (x ∷ xs) = ap (λ l. x ∷ l) (take-drop n xs)

chunks_from-concat :
    {A : Type 0} (size fuel : ℕ) (rows : List A)
    → 0 < size
    → length rows ≤ fuel
    → concat (chunks_from size fuel rows) ≡ rows
unfolding chunks_from
chunks_from-concat size zero [] h enough = refl
chunks_from-concat size zero (r ∷ rows) h enough = elim enough [ ]
chunks_from-concat size (suc fuel) [] h enough = refl
chunks_from-concat size (suc fuel) (r ∷ rows) h enough =
    ap (λ l. take size (r ∷ rows) ++ l)
      (chunks_from-concat size fuel (drop size (r ∷ rows)) h
        (omega (arith, length-drop size (r ∷ rows))))
    ∙ take-drop size (r ∷ rows)

-- The chunks, one after the other, are the rows.
pub chunks-concat :
    {A : Type 0} (size : ℕ) (rows : List A) → 0 < size → concat (chunks size rows) ≡ rows
unfolding chunks
chunks-concat size rows h = chunks_from-concat size (length rows) rows h (omega arith)
