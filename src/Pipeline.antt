-- ===== src/Pipeline.antt =====
-- internal/service/validate_v1.go: from resolved evidence to ranked candidates.
mod Locations
pub mod Sound
pub mod Ranked
use address_quality.Prelude.{
  ℕ, ◌+◌, String, Bool, not, ◌||◌, Option, none, some, List, [], ◌∷◌, map, ℤ, pos_part, neg_part,
  ltb, length, ◌==◌, nat_eq, if◌then◌else◌,
}
use address_quality.GoMap.{RangeOrder}
use address_quality.Sort.{SliceSort}
use address_quality.Model.{
  Evidence, ResolvedEvidence, AdminCandidate, CandidateEvaluation, top_down, any_level,
}
use address_quality.Evaluate.{evaluate_candidate}
use address_quality.Evaluate.Conflicts.{count_non_nil}
use address_quality.Dedup.{deduplicate_candidates}
use address_quality.Builder.{discover_candidates, build_conclusions}
use address_quality.Enrich.{enrich_candidates}
use address_quality.Cache.{Caches}

abbrev or_empty : Option (List ResolvedEvidence) → List ResolvedEvidence
or_empty none = []
or_empty (some l) = l

-- A nil slice of resolved evidence is `none`; a range over it visits nothing.
unfoldable pub build_candidates :
    RangeOrder
    → SliceSort
    → (ℕ → String)
    → Caches
    → Option (List ResolvedEvidence)
    → List AdminCandidate
build_candidates order sorter new_uuid s res =
    build_conclusions sorter
      (enrich_candidates s (
        deduplicate_candidates order
          (discover_candidates new_uuid (or_empty res) (top_down ∷ any_level ∷ []))))
      s.hierarchy_cache res

pub record ScoredCandidate : Type 0 where
  pub candidate : AdminCandidate
  pub eval : CandidateEvaluation

abbrev ltb_ℤ : ℤ → ℤ → Bool
ltb_ℤ a b = ltb (pos_part a + neg_part b) (pos_part b + neg_part a)

-- `less` of `evaluateCandidates`: a higher confidence, more levels, fewer conflicts.
unfoldable pub ranks_before : ScoredCandidate → ScoredCandidate → Bool
ranks_before a b =
    let a_count = count_non_nil a.candidate.location in
    let b_count = count_non_nil b.candidate.location in
    if ltb_ℤ a.eval.confidence b.eval.confidence || ltb_ℤ b.eval.confidence a.eval.confidence
    then ltb_ℤ b.eval.confidence a.eval.confidence
    else if not (a_count == b_count)
    then ltb b_count a_count
    else ltb (length a.eval.conflicts) (length b.eval.conflicts)

-- The loop evaluates a copy of each candidate, which carries the conflicts that were found.
unfoldable pub score : RangeOrder → Caches → List Evidence → AdminCandidate → ScoredCandidate
score order s eval_evidence c =
    let eval = evaluate_candidate order c s.hierarchy_cache eval_evidence in
    record { candidate = eval.candidate; eval = eval }

unfoldable pub evaluate_candidates :
    RangeOrder → SliceSort → Caches → List AdminCandidate → List Evidence → List ScoredCandidate
evaluate_candidates order sorter s candidates eval_evidence =
    sorter.sort ScoredCandidate ranks_before (map (score order s eval_evidence) candidates)
