-- ===== src/Fuzzy/Runs.antt =====
-- `unexplainedRuns` and the indices of the unexplained words.
use address_quality.Prelude.{
  nat_eq, string_eq, inl, inr, [], ◌∷◌, List, String, ℕ, ◌+◌, ◌++◌, ◌≡◌, if◌then◌else◌, All,
  contains, ◌≤◌, ◌||◌, length, arith, Bool-cases, ◌∙◌, append_assoc, refl, ltb, suc, ap, true,
}
use address_quality.Fuzzy.{is_structural, runs_from, unexplained_runs}

-- The indices, counted from i, of the words that no candidate explains and that are not structural.
unfoldable pub unexplained_from : List String → List String → ℕ → List String → List ℕ
unexplained_from explained road_tokens i [] = []
unexplained_from explained road_tokens i (w ∷ ws) =
    let rest = unexplained_from explained road_tokens (i + 1) ws in
    if contains explained w || is_structural road_tokens w then rest else i ∷ rest

abbrev pub flatten : List (List ℕ) → List ℕ
flatten [] = []
flatten (r ∷ rs) = r ++ flatten rs

positive : (n : ℕ) → ltb 0 (suc n) ≡ true
positive n = ground arith

-- The open run is closed before the rest, unless it is empty.
close-run :
    (cur : List ℕ) (rest : List (List ℕ)) (xs : List ℕ)
    → flatten rest ≡ xs
    → All (λ r. 1 ≤ length r) rest
    → (flatten (if ltb 0 (length cur) then cur ∷ rest else rest) ≡ cur ++ xs)
      × All (λ r. 1 ≤ length r) (if ltb 0 (length cur) then cur ∷ rest else rest)
close-run [] rest xs same long = (same, long)
close-run (c ∷ cur) rest xs same long =
    rw (positive (length cur)) (ap (λ l. c ∷ cur ++ l) same, (omega arith, long))

runs_from-lem :
    (explained road_tokens : List String) (i : ℕ) (cur : List ℕ) (words : List String)
    → (flatten (runs_from explained road_tokens i cur words)
        ≡ cur ++ unexplained_from explained road_tokens i words)
      × All (λ r. 1 ≤ length r) (runs_from explained road_tokens i cur words)
unfolding runs_from unexplained_from
runs_from-lem explained road_tokens i cur [] = close-run cur [] [] refl tt
runs_from-lem explained road_tokens i cur (w ∷ ws) =
    elim (Bool-cases (contains explained w || is_structural road_tokens w)) [
      | inl skipped ↦
          let (same, long) = runs_from-lem explained road_tokens (i + 1) [] ws in
          rw (skipped, runs_from, unexplained_from) (close-run cur _ _ same long)
      | inr open_run ↦
          let (same, long) = runs_from-lem explained road_tokens (i + 1) (cur ++ i ∷ []) ws in
          rw (open_run, runs_from, unexplained_from)
            (
              same ∙ append_assoc cur (i ∷ []) (unexplained_from explained road_tokens (i + 1) ws),
              long,
            )
    ]

-- The runs, one after the other, are the indices of the words that no candidate of the frontier
-- explains and that are not structural, in order, and no run is empty.
pub unexplained_runs-flatten :
    (words explained road_tokens : List String)
    → (flatten (unexplained_runs words explained road_tokens)
        ≡ unexplained_from explained road_tokens 0 words)
      × All (λ r. 1 ≤ length r) (unexplained_runs words explained road_tokens)
unfolding unexplained_runs
unexplained_runs-flatten words explained road_tokens =
    runs_from-lem explained road_tokens 0 [] words
