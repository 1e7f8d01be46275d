-- ===== src/Fuzzy.antt =====
-- internal/service/fuzzy_context.go: contextual fuzzy recovery. A `float64` ratio is the fraction
-- it rounds; two fractions with the same value round to the same number.
pub mod Distance
pub mod Recover
pub mod Runs
use Prim.Native.Char.{code}
use Prim.Native.String
use address_quality.Prelude.{
  nat_eq, string_eq, inl, inr, none, some, [], ◌∷◌, ℕ, String, List, Bool, Option, true, not,
  contains, map, length, max, ltb, if◌then◌else◌, leb, ◌&&◌, ◌==◌, ◌||◌, select, ◌+◌, ◌*◌, ◌++◌,
}
use address_quality.Text.{chars, is_digit}
use address_quality.Model.{Evidence, AdminCandidate}

abbrev pub min_frontier_support : ℕ
min_frontier_support = 2

abbrev pub min_target_key_len : ℕ
min_target_key_len = 4

abbrev pub max_span_tokens : ℕ
max_span_tokens = 4

-- isDigitOnly
unfoldable pub all_digits : String → Bool
unfolding is_digit
all_digits String.[] = true
all_digits (String.◌∷◌ c s) = is_digit c && all_digits s

unfoldable pub is_digit_only : String → Bool
unfolding all_digits
is_digit_only s = not (s == "") && all_digits s

-- A token that is neither counted against coverage nor recovered.
unfoldable pub is_structural : List String → String → Bool
unfolding is_digit_only
is_structural road_tokens w =
    contains road_tokens w || contains ("no" ∷ "rt" ∷ "rw" ∷ "km" ∷ []) w || is_digit_only w

-- `Coverage` is the number of used pieces over the number of both, 0 if there are none.
pub record CandidateCoverage : Type 0 where
  pub candidate : AdminCandidate
  pub used_evidence : List Evidence
  pub unused_evidence : List Evidence

unfoldable pub evaluate_candidate_coverage :
    AdminCandidate → List Evidence → List String → CandidateCoverage
evaluate_candidate_coverage c all_evidence road_tokens =
    let used_values = map (λ me. me.evidence.value) c.evidence in
    let relevant = select (λ ev. not (is_structural road_tokens ev.value)) all_evidence in
    record {
      candidate = c;
      used_evidence = select (λ ev. contains used_values ev.value) relevant;
      unused_evidence = select (λ ev. not (contains used_values ev.value)) relevant;
    }

abbrev pub used : CandidateCoverage → ℕ
used cov = length cov.used_evidence

-- The denominator: the pieces of evidence, or 1 where there are none.
abbrev pub total : CandidateCoverage → ℕ
total cov = max 1 (length cov.used_evidence + length cov.unused_evidence)

-- a.Coverage < b.Coverage
abbrev pub covers_less : CandidateCoverage → CandidateCoverage → Bool
covers_less a b = ltb (used a * total b) (used b * total a)

-- The loop for `best`; `none` is the 0.0 that it starts with.
unfoldable pub best_coverage :
    Option CandidateCoverage → List CandidateCoverage → Option CandidateCoverage
best_coverage best [] = best
best_coverage none (cov ∷ rest) =
    let keep = best_coverage none rest in
    let take_it = best_coverage (some cov) rest in if ltb 0 (used cov) then take_it else keep
best_coverage (some best) (cov ∷ rest) =
    let keep = best_coverage (some best) rest in
    let take_it = best_coverage (some cov) rest in if covers_less best cov then take_it else keep

-- `cov.Coverage >= best - 0.05`, with both sides times twenty and the denominators
abbrev pub near : CandidateCoverage → CandidateCoverage → Bool
near best cov =
    leb (20 * used best * total cov) (20 * used cov * total best + total best * total cov)

unfoldable pub select_expansion_frontier : List CandidateCoverage → List CandidateCoverage
select_expansion_frontier coverages = elim (best_coverage none coverages) [
  | none ↦ []
  | some best ↦
      if ltb (2 * used best) (total best)
      then []
      else select (λ cov. leb min_frontier_support (used cov) && near best cov) coverages
]

-- The loop of `unexplainedRuns` at word i, with the run that is open.
unfoldable pub runs_from : List String → List String → ℕ → List ℕ → List String → List (List ℕ)
runs_from explained road_tokens i cur [] = if ltb 0 (length cur) then cur ∷ [] else []
runs_from explained road_tokens i cur (w ∷ ws) =
    let closed = runs_from explained road_tokens (i + 1) [] ws in
    let longer = runs_from explained road_tokens (i + 1) (cur ++ i ∷ []) ws in
    if contains explained w || is_structural road_tokens w
    then if ltb 0 (length cur) then cur ∷ closed else closed
    else longer

unfoldable pub unexplained_runs : List String → List String → List String → List (List ℕ)
unexplained_runs words explained road_tokens = runs_from explained road_tokens 0 [] words
