-- ===== src/Evaluate/Bounds.antt =====
-- The value of the confidence, and the order of a map.
use mathlib.Core.List.{Perm, Permᴰ}
use mathlib.Core.List.Perm
use mathlib.Core.Logic.{∥∥₁_elim}
use native.Mathlib.Nat.{ℕ_set}
use address_quality.Prelude.{
  ℕ, ◌+◌, ◌*◌, ◌≤◌, ◌≡◌, refl, ◌∙◌, ap, Option, List, [], arith, pos_part, neg_part, min, length,
  ltb, if◌then◌else◌, length-select-le, Bool,
}
use address_quality.GoMap.{RangeOrder}
use address_quality.Model.{Evidence, AdminCandidate, HierarchyMap}
use address_quality.Evaluate.{evaluate_evidence_coverage, evaluate_candidate}
use address_quality.Evaluate.Conflicts.{evaluate_hierarchy}
use address_quality.Evaluate.Score.{
  one, Tally, tally, entry_bonus, sum_bonus, multi_evidence_bonus, raw_score, score_confidence,
  weight_used_evidence_bonus,
}

score_confidence_exact :
    (order : RangeOrder) (c : AdminCandidate) (unused all : List Evidence)
    → length unused ≤ length all
    → let k = score_confidence order c unused (ltb 0 (length all)) in
      (pos_part k + length unused * 300 ≡ min one (raw_score order c) + neg_part k)
      × (pos_part k ≤ one)
      × (neg_part k ≤ length unused * 300)
unfolding score_confidence
score_confidence_exact order c unused all h = ground arith

coverage-le :
    (c : AdminCandidate) (all : List Evidence)
    → length (evaluate_evidence_coverage c all) ≤ length all
unfolding evaluate_evidence_coverage
coverage-le c all = length-select-le _ all

-- The confidence is the score of the evaluated candidate, capped at 1.0, less 0.03 for each unused
-- piece of evidence. So it is at most 1.0, and not below -0.03 times the number of unused pieces.
pub evaluate_candidate-confidence :
    (order : RangeOrder) (c : AdminCandidate) (h : Option HierarchyMap) (all : List Evidence)
    → (pos_part (evaluate_candidate order c h all).confidence
          + length (evaluate_candidate order c h all).unused_evidence * weight_used_evidence_bonus
        ≡ min one (raw_score order (evaluate_candidate order c h all).candidate)
          + neg_part (evaluate_candidate order c h all).confidence)
      × (pos_part (evaluate_candidate order c h all).confidence ≤ one)
      × (neg_part (evaluate_candidate order c h all).confidence
          ≤ length (evaluate_candidate order c h all).unused_evidence * weight_used_evidence_bonus)
unfolding evaluate_candidate
evaluate_candidate-confidence order c h all =
    score_confidence_exact order _ _ all (coverage-le (evaluate_hierarchy h c) all)

pub unused-le :
    (order : RangeOrder) (c : AdminCandidate) (h : Option HierarchyMap) (all : List Evidence)
    → length (evaluate_candidate order c h all).unused_evidence ≤ length all
unfolding evaluate_candidate
unused-le order c h all = coverage-le (evaluate_hierarchy h c) all

sum_bonus-Permᴰ : {l m : List (ℕ × Tally)} → Permᴰ l m → sum_bonus l ≡ sum_bonus m
unfolding sum_bonus
sum_bonus-Permᴰ Permᴰ.nil = refl
sum_bonus-Permᴰ (Permᴰ.cons e d) = omega (arith, ap entry_bonus e, sum_bonus-Permᴰ d)
sum_bonus-Permᴰ (Permᴰ.swap e f) = omega (arith, ap entry_bonus e, ap entry_bonus f)
sum_bonus-Permᴰ (Permᴰ.trans d d') = sum_bonus-Permᴰ d ∙ sum_bonus-Permᴰ d'

sum_bonus-Perm : {l m : List (ℕ × Tally)} → Perm l m → sum_bonus l ≡ sum_bonus m
sum_bonus-Perm p = ∥∥₁_elim p (ℕ_set _ _) sum_bonus-Permᴰ

module _ (o o' : RangeOrder) where
  multi_evidence_bonus-order :
      (c : AdminCandidate) → multi_evidence_bonus o c ≡ multi_evidence_bonus o' c
  unfolding multi_evidence_bonus
  multi_evidence_bonus-order c =
      let m = tally c.evidence [] in
      let same = sum_bonus-Perm (Perm.trans (o.visit_perm _ m) (Perm.symm (o'.visit_perm _ m))) in
      ap (λ bonus. if ltb 4000 bonus then 4000 else bonus) same

  raw_score-order : (c : AdminCandidate) → raw_score o c ≡ raw_score o' c
  unfolding raw_score
  raw_score-order c = cc (multi_evidence_bonus-order c)

  score_confidence-order :
      (c : AdminCandidate) (unused : List Evidence) (has : Bool)
      → score_confidence o c unused has ≡ score_confidence o' c unused has
  unfolding score_confidence
  score_confidence-order c unused has = rw (raw_score-order c)

  -- The evaluation of a candidate does not depend on the order in which the runtime visits a map.
  pub evaluate_candidate-order :
      (c : AdminCandidate) (h : Option HierarchyMap) (all : List Evidence)
      → evaluate_candidate o c h all ≡ evaluate_candidate o' c h all
  unfolding evaluate_candidate
  evaluate_candidate-order c h all = rw (score_confidence-order _ _ _)
