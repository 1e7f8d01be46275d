-- ===== src/Fuzzy/Distance.antt =====
-- `damerauLevenshtein` and `damerauSimilarity` of internal/service/fuzzy_context.go. A text is the
-- list of its runes; the three rows are arrays that are written in place and change places.
pub mod Alignment
mod Rows
pub mod Laws
use address_quality.Prelude.{
  ℕ, zero, suc, ◌+◌, ◌-◌, min, max, List, Bool, ◌&&◌, ltb, ◌==◌, nat_eq, if◌then◌else◌, length,
  get_or, set, replicate,
}

-- `prev[j] = j` for j from 0 to lb
unfoldable pub first_row : ℕ → ℕ → List ℕ → List ℕ
first_row zero j prev = prev
first_row (suc n) j prev = first_row n (j + 1) (set prev j j)

module _ (a b : List ℕ) where
  unfoldable pub substitution_cost : ℕ → ℕ → ℕ
  substitution_cost i j = if get_or a i 0 == get_or b j 0 then 0 else 1

  -- The value of `cur[j]`.
  unfoldable pub cell : ℕ → ℕ → List ℕ → List ℕ → List ℕ → ℕ
  cell i j prev2 prev cur =
      let cost = substitution_cost (i - 1) (j - 1) in
      let m =
        min (min (get_or cur (j - 1) 0 + 1) (get_or prev j 0 + 1)) (get_or prev (j - 1) 0 + cost) in
      if ltb 1 i
        && ltb 1 j
        && get_or a (i - 1) 0 == get_or b (j - 2) 0
        && get_or a (i - 2) 0 == get_or b (j - 1) 0
      then (let t = get_or prev2 (j - 2) 0 + 1 in if ltb t m then t else m)
      else m

  -- the inner loop, with the rounds that are left
  unfoldable pub fill : ℕ → ℕ → ℕ → List ℕ → List ℕ → List ℕ → List ℕ
  fill zero i j prev2 prev cur = cur
  fill (suc n) i j prev2 prev cur =
      fill n i (j + 1) prev2 prev (set cur j (cell i j prev2 prev cur))

  -- the outer loop; it ends with the row `prev`
  unfoldable pub rows : ℕ → ℕ → List ℕ → List ℕ → List ℕ → List ℕ
  rows zero i prev2 prev cur = prev
  rows (suc n) i prev2 prev cur =
      rows n (i + 1) prev (fill (length b) i 1 prev2 prev (set cur 0 i)) prev2

  unfoldable pub damerau_levenshtein : ℕ
  damerau_levenshtein =
      let la = length a in
      let lb = length b in
      let zeros = replicate {A = ℕ} (lb + 1) 0 in
      if la == 0
      then lb
      else if lb == 0
      then la
      else get_or (rows la 1 zeros (first_row (lb + 1) 0 zeros) zeros) lb 0

-- A similarity is a fraction: 1 - d / longest.
pub record Fraction : Type 0 where
  pub num : ℕ
  pub den : ℕ

unfoldable pub damerau_similarity : List ℕ → List ℕ → Fraction
damerau_similarity a b =
    let longest = max (length a) (length b) in
    if longest == 0
    then record { num = 1; den = 1 }
    else record { num = longest - damerau_levenshtein a b; den = longest }
