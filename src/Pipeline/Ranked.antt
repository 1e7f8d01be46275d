-- ===== src/Pipeline/Ranked.antt =====
-- `evaluateCandidates`: the order of the result.
use mathlib.Core.List.{Perm, Pairwise}
use address_quality.Prelude.{
  nat_eq, true, false, ℕ, List, Bool, ◌≡◌, map, if◌then◌else◌, arith, ltb, ◌+◌, ◌||◌, not, ◌==◌,
  pos_part, neg_part, length, ◌<◌, ◌⊎◌, ◌≤◌, Bool-cases, inl, inr,
}
use address_quality.GoMap.{RangeOrder}
use address_quality.Sort.{SliceSort, IsWeakOrder}
use address_quality.Model.{Evidence, AdminCandidate}
use address_quality.Cache.{Caches}
use address_quality.Evaluate.Conflicts.{count_non_nil}
use address_quality.Pipeline.{ScoredCandidate, ranks_before, score, evaluate_candidates}

-- What `ranks_before` compares, as numbers.
module _ (p n c k p' n' c' k' : ℕ) where
  abbrev before : Bool
  before =
      if ltb (p + n') (p' + n) || ltb (p' + n) (p + n')
      then ltb (p' + n) (p + n')
      else if not (c == c')
      then ltb c' c
      else ltb k k'

before-asym :
    (p n c k p' n' c' k' : ℕ)
    → before p n c k p' n' c' k' ≡ true
    → before p' n' c' k' p n c k ≡ false
before-asym p n c k p' n' c' k' h = ground arith

before-incomparable :
    (p n c k p' n' c' k' p'' n'' c'' k'' : ℕ)
    → before p' n' c' k' p n c k ≡ false
    → before p'' n'' c'' k'' p' n' c' k' ≡ false
    → before p'' n'' c'' k'' p n c k ≡ false
before-incomparable p n c k p' n' c' k' p'' n'' c'' k'' h h' = ground arith

ranks_before-IsWeakOrder : IsWeakOrder ranks_before
unfolding ranks_before
ranks_before-IsWeakOrder = record {
  asym = λ x y.
      before-asym (pos_part x.eval.confidence) (neg_part x.eval.confidence)
        (count_non_nil x.candidate.location) (length x.eval.conflicts) (pos_part y.eval.confidence)
        (neg_part y.eval.confidence) (count_non_nil y.candidate.location) (length y.eval.conflicts);
  incomparable_trans = λ x y z.
      before-incomparable (pos_part x.eval.confidence) (neg_part x.eval.confidence)
        (count_non_nil x.candidate.location) (length x.eval.conflicts) (pos_part y.eval.confidence)
        (neg_part y.eval.confidence) (count_non_nil y.candidate.location) (length y.eval.conflicts)
        (pos_part z.eval.confidence) (neg_part z.eval.confidence)
        (count_non_nil z.candidate.location) (length z.eval.conflicts);
}

-- One candidate may stand before another: it has the higher confidence, or the same and more levels,
-- or the same and as many, and no more conflicts. A confidence is its positive part less its negative
-- part.
abbrev pub StandsBefore : ScoredCandidate → ScoredCandidate → Type 0
StandsBefore x y =
    (pos_part y.eval.confidence + neg_part x.eval.confidence
      < pos_part x.eval.confidence + neg_part y.eval.confidence)
    ⊎ ((pos_part x.eval.confidence + neg_part y.eval.confidence
          ≡ pos_part y.eval.confidence + neg_part x.eval.confidence)
        × ((count_non_nil y.candidate.location < count_non_nil x.candidate.location)
            ⊎ ((count_non_nil x.candidate.location ≡ count_non_nil y.candidate.location)
                × (length x.eval.conflicts ≤ length y.eval.conflicts))))

not_before :
    (p n c k p' n' c' k' : ℕ)
    → before p' n' c' k' p n c k ≡ false
    → (p' + n < p + n') ⊎ ((p + n' ≡ p' + n) × ((c' < c) ⊎ ((c ≡ c') × (k ≤ k'))))
not_before p n c k p' n' c' k' h = elim (Bool-cases (ltb (p' + n) (p + n'))) [
  | inl more ↦ inl (ground arith)
  | inr no_more ↦ inr (
    ground arith,
    elim (Bool-cases (ltb c' c)) [
      | inl larger ↦ inl (ground arith)
      | inr no_larger ↦ inr (ground arith, ground arith)
    ],
  )
]

stands_before : (x y : ScoredCandidate) → ranks_before y x ≡ false → StandsBefore x y
unfolding ranks_before
stands_before x y =
    not_before (pos_part x.eval.confidence) (neg_part x.eval.confidence)
      (count_non_nil x.candidate.location) (length x.eval.conflicts) (pos_part y.eval.confidence)
      (neg_part y.eval.confidence) (count_non_nil y.candidate.location) (length y.eval.conflicts)

Pairwise-imp :
    {A : Type 0} {R S : A → A → Type 0} {l : List A}
    → ((x y : A) → R x y → S x y)
    → Pairwise R l
    → Pairwise S l
Pairwise-imp f Pairwise.nil = Pairwise.nil
Pairwise-imp f (Pairwise.cons h p) = Pairwise.cons (λ y m. f _ y (h y m)) (Pairwise-imp f p)

-- The ranked candidates are those of the list, each evaluated, and of any two of them the earlier has
-- the higher confidence, or the same and more levels, or the same and as many, and no more conflicts.
pub evaluate_candidates-Pairwise :
    (order : RangeOrder) (sorter : SliceSort) (s : Caches) (candidates : List AdminCandidate)
    (eval_evidence : List Evidence)
    → Perm
        (evaluate_candidates order sorter s candidates eval_evidence)
        (map (score order s eval_evidence) candidates)
      × Pairwise StandsBefore (evaluate_candidates order sorter s candidates eval_evidence)
unfolding evaluate_candidates
evaluate_candidates-Pairwise order sorter s candidates eval_evidence = (
  sorter.sort_perm ScoredCandidate ranks_before (map (score order s eval_evidence) candidates),
  Pairwise-imp stands_before (
      sorter.sort_sorted ScoredCandidate ranks_before (map (score order s eval_evidence) candidates)
        ranks_before-IsWeakOrder),
)
