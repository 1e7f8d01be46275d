-- ===== src/Fuzzy/Distance/Rows.antt =====
-- The rows hold the values of `dist`.
use address_quality.Prelude.{
  if◌then◌else◌, ℕ, zero, suc, ◌+◌, ◌-◌, ◌<◌, ◌≡◌, refl, List, length, get_or, set, arith,
  replicate, length-set, length-replicate, get_or-set_self, get_or-set_ne, subst, ◌∙◌, sym, ltb,
  true, min,
}
use native.Mathlib.Numerals.{add-one}
use native.Mathlib.Nat.{zero-add}
use address_quality.Fuzzy.Distance.{
  first_row, substitution_cost, cell, fill, rows, damerau_levenshtein,
}
use address_quality.Fuzzy.Distance.Alignment.{dist, dist-zero}

suc_sub_one : (n : ℕ) → suc n - 1 ≡ n
suc_sub_one n = omega arith

suc_sub_two : (n : ℕ) → suc (suc n) - 2 ≡ n
suc_sub_two n = omega arith

ltb_one : (n : ℕ) → ltb 1 (suc (suc n)) ≡ true
ltb_one n = ground arith

min_by_test : (t m : ℕ) → (if ltb t m then t else m) ≡ min t m
min_by_test t m = ground arith

-- An array of `width` cells, of which those below `upto` hold the values of `f`.
record IsFilled (width : ℕ) (f : ℕ → ℕ) (upto : ℕ) (xs : List ℕ) : Type 0 where
  size : length xs ≡ width
  cells : (j : ℕ) → j < upto → get_or xs j 0 ≡ f j

IsFilled-set :
    {width : ℕ} {f : ℕ → ℕ} {k : ℕ} (xs : List ℕ) (v : ℕ)
    → IsFilled width f k xs
    → k < width
    → v ≡ f k
    → IsFilled width f (suc k) (set xs k v)
IsFilled-set {f} {k} xs v h inside e = record {
  size = omega (arith, length-set xs k v, h.size);
  cells = λ j below.
      ground (arith, h.cells j, get_or-set_self xs k v 0, get_or-set_ne xs k j v 0, h.size);
}

first_row-IsFilled :
    (width n j : ℕ) (xs : List ℕ)
    → n + j ≡ width
    → IsFilled width (λ k. k) j xs
    → IsFilled width (λ k. k) width (first_row n j xs)
unfolding first_row
first_row-IsFilled width zero j xs e h = subst (λ k. IsFilled width (λ k. k) k xs) (omega arith) h
first_row-IsFilled width (suc n) j xs e h =
    rw add-one
      (first_row-IsFilled width n (suc j) _ (omega arith) (IsFilled-set xs j h (omega arith) refl))

module _ (a b : List ℕ) where
  abbrev IsRow : ℕ → List ℕ → Type 0
  IsRow i = IsFilled (length b + 1) (dist a b i) (length b + 1)

  -- The row before the previous one, which is there from the second row on.
  abbrev IsRowBefore : ℕ → List ℕ → Type 0
  IsRowBefore zero xs = length xs ≡ length b + 1
  IsRowBefore (suc i) xs = IsRow i xs

  cell-eq-dist :
      (i j : ℕ) (prev2 prev cur : List ℕ)
      → j < length b
      → IsRowBefore i prev2
      → IsRow i prev
      → IsFilled (length b + 1) (dist a b (suc i)) (suc j) cur
      → cell a b (suc i) (suc j) prev2 prev cur ≡ dist a b (suc i) (suc j)
  unfolding cell substitution_cost dist
  cell-eq-dist zero j prev2 prev cur inside h2 h1 h0 =
      simp (suc_sub_one, suc_sub_two) (ground (arith, h1.cells j, h1.cells (suc j), h0.cells j))
  cell-eq-dist (suc i) zero prev2 prev cur inside h2 h1 h0 =
      simp (suc_sub_one, suc_sub_two) (ground (arith, h1.cells 0, h1.cells 1, h0.cells 0))
  cell-eq-dist (suc i) (suc j) prev2 prev cur inside h2 h1 h0 = simp (
    suc_sub_one,
    suc_sub_two,
    ltb_one,
    min_by_test,
    add-one,
    h1.cells (suc j) (omega arith),
    h1.cells (suc (suc j)) (omega arith),
    h0.cells (suc j) (omega arith),
    h2.cells j (omega arith),
  )

  fill-IsRow :
      (n i j : ℕ) (prev2 prev cur : List ℕ)
      → n + j ≡ length b
      → IsRowBefore i prev2
      → IsRow i prev
      → IsFilled (length b + 1) (dist a b (suc i)) (suc j) cur
      → IsRow (suc i) (fill a b n (suc i) (suc j) prev2 prev cur)
  unfolding fill
  fill-IsRow zero i j prev2 prev cur e h2 h1 h0 =
      subst (λ k. IsFilled (length b + 1) (dist a b (suc i)) k cur) (omega arith) h0
  fill-IsRow (suc n) i j prev2 prev cur e h2 h1 h0 = rw (add-one (suc j)) (
      fill-IsRow n i (suc j) prev2 prev _ (omega arith) h2 h1 (
        IsFilled-set cur _ h0 (omega arith)
          (cell-eq-dist i j prev2 prev cur (omega arith) h2 h1 h0)))

  start-IsFilled :
      (i : ℕ) (xs : List ℕ)
      → length xs ≡ length b + 1
      → IsFilled (length b + 1) (dist a b (suc i)) 1 (set xs 0 (suc i))
  unfolding dist
  start-IsFilled i xs e =
      IsFilled-set xs (suc i) (record { size = e; cells = λ j h. absurd (omega arith) })
        (omega arith) refl

  IsRowBefore-size : (i : ℕ) (xs : List ℕ) → IsRowBefore i xs → length xs ≡ length b + 1
  IsRowBefore-size zero xs h = h
  IsRowBefore-size (suc i) xs h = h.size

  rows-IsRow :
      (n i : ℕ) (prev2 prev cur : List ℕ)
      → length cur ≡ length b + 1
      → IsRowBefore i prev2
      → IsRow i prev
      → IsRow (n + i) (rows a b n (suc i) prev2 prev cur)
  unfolding rows
  rows-IsRow zero i prev2 prev cur e h2 h1 = rw zero-add h1
  rows-IsRow (suc n) i prev2 prev cur e h2 h1 = rw (add-one (suc i)) (
      subst
        (λ k. IsRow k (
          rows a b n (suc (suc i)) prev
            (fill a b (length b) (suc i) 1 prev2 prev (set cur 0 (suc i))) prev2))
        (omega arith)
        (rows-IsRow n (suc i) prev (fill a b (length b) (suc i) 1 prev2 prev (set cur 0 (suc i)))
          prev2 (IsRowBefore-size i prev2 h2) h1
          (fill-IsRow (length b) i 0 prev2 prev _ (omega arith) h2 h1 (start-IsFilled i cur e))))

  dist_first : (j : ℕ) → dist a b 0 j ≡ j
  unfolding dist
  dist_first j = refl

  -- The routine computes `dist` of the whole texts.
  pub damerau_levenshtein-eq-dist : damerau_levenshtein a b ≡ dist a b (length a) (length b)
  unfolding damerau_levenshtein
  damerau_levenshtein-eq-dist =
      ground (arith, dist-zero a b (length a), dist_first (length b), last_row.cells (length b))
    where
      zeros : List ℕ
      zeros = replicate (length b + 1) 0

      first : IsRow 0 (first_row (length b + 1) 0 zeros)
      first =
          let h =
            first_row-IsFilled (length b + 1) (length b + 1) 0 zeros (omega arith)
              (record { size = length-replicate _ 0; cells = λ j k. absurd (omega arith) }) in
          record { size = h.size; cells = λ j k. h.cells j k ∙ sym (dist_first j) }

      last_row :
          IsRow
            (length a + 0)
            (rows a b (length a) 1 zeros (first_row (length b + 1) 0 zeros) zeros)
      last_row =
          rows-IsRow (length a) 0 zeros _ zeros (length-replicate _ 0) (length-replicate _ 0) first
