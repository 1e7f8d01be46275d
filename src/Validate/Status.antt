-- ===== src/Validate/Status.antt =====
-- The status of a response, against the ranked candidates.
use mathlib.Core.List.{Pairwise, Mem, Memᴰ, mem-cons_of_mem}
use address_quality.Prelude.{
  nat_eq, string_eq, inl, inr, [], ◌∷◌, true, false, ◌≡◌, refl, pos_part, neg_part, Bool, List, ℕ,
  ◌+◌, ◌&&◌, any, ◌≤◌, map, ltb, arith, ◌-◌, if◌then◌else◌, length, Bool-cases, not, is_some, ◌||◌,
  ◌*◌, leb,
}
use address_quality.GoMap.{RangeOrder}
use address_quality.Sort.{SliceSort}
use address_quality.Model.{QualityStatus, AdminCandidate, Evidence}
use address_quality.Cache.{Caches}
use address_quality.Evaluate.{assess_quality, evaluate_candidate}
use address_quality.Pipeline.{ScoredCandidate, score, evaluate_candidates}
use address_quality.Pipeline.Ranked.{evaluate_candidates-Pairwise}
use mathlib.Core.List.{Perm}
use address_quality.Evaluate.Bounds.{evaluate_candidate-confidence, unused-le}
use address_quality.Pipeline.Ranked.{StandsBefore}
use address_quality.Validate.Float.{is_close}
use address_quality.Validate.Float.Near.{distance, is_moderate, is_close-distance}
use address_quality.Validate.Response.{final_status, is_valid_status}
use address_quality.Database.Visited.{any-Perm}

unfoldable pub is_ambiguous : QualityStatus → Bool
is_ambiguous status = elim status [ QualityStatus.ambiguous ↦ true | _ ↦ false ]

-- The first candidate is VALID, and the confidence of some other one is less than n ten-thousandths
-- away.
unfoldable pub is_contested : ℕ → List ScoredCandidate → Bool
is_contested n [] = false
is_contested n (x ∷ xs) =
    is_valid_status x.eval.status
    && any (λ y. ltb (distance x.eval.confidence y.eval.confidence) n) xs

by_tests :
    (a b c : Bool)
    → is_ambiguous (
        if a
        then QualityStatus.conflict
        else if b
        then QualityStatus.unknown
        else if c
        then QualityStatus.incomplete
        else QualityStatus.valid)
      ≡ false
unfolding is_ambiguous
by_tests true b c = refl
by_tests false true c = refl
by_tests false false true = refl
by_tests false false false = refl

assess_quality-is_ambiguous : (c : AdminCandidate) → is_ambiguous (assess_quality c) ≡ false
unfolding assess_quality is_ambiguous
assess_quality-is_ambiguous c =
    let l = c.location in
    by_tests (ltb 0 (length l.conflicts))
      (not (is_some l.province || is_some l.city || is_some l.district || is_some l.sub_district))
      (not (is_some l.province) || not (is_some l.city) || not (is_some l.district))

never :
    (order : RangeOrder) (s : Caches) (e : List Evidence) (cs : List AdminCandidate)
    → any (λ x. is_ambiguous x.eval.status) (map (score order s e) cs) ≡ false
unfolding score evaluate_candidate
never order s e [] = refl
never order s e (c ∷ cs) = rw (assess_quality-is_ambiguous _, never order s e cs) refl

any-none :
    {A : Type 0} (p : A → Bool) (l l' : List A) → Perm l l' → any p l' ≡ false → any p l ≡ false
any-none p l l' perm h = elim (Bool-cases (any p l)) [
  | inr missing ↦ missing
  | inl found ↦ cc (any-Perm p l l' perm found, h)
]

abbrev is_moderate_score : ScoredCandidate → Bool
is_moderate_score x = is_moderate x.eval.confidence

bounded_number :
    (p n e u : ℕ)
    → p ≤ 10000
    → n ≤ u * 300
    → u ≤ e
    → e ≤ 1000000000000
    → (leb p 1000000000000000 && leb n 1000000000000000) ≡ true
bounded_number p n e u h1 h2 h3 h4 = ground arith

score-moderate :
    (order : RangeOrder) (s : Caches) (e : List Evidence) (c : AdminCandidate)
    → length e ≤ 1000000000000
    → is_moderate_score (score order s e c) ≡ true
unfolding score
score-moderate order s e c h =
    let eval = evaluate_candidate order c s.hierarchy_cache e in
    let (exact, most, least) = evaluate_candidate-confidence order c s.hierarchy_cache e in
    bounded_number (pos_part eval.confidence) (neg_part eval.confidence) (length e)
      (length eval.unused_evidence) most least (unused-le order c s.hierarchy_cache e) h

all_moderate :
    (order : RangeOrder) (s : Caches) (e : List Evidence) (cs : List AdminCandidate)
    → length e ≤ 1000000000000
    → any (λ x. not (is_moderate_score x)) (map (score order s e) cs) ≡ false
all_moderate order s e [] h = refl
all_moderate order s e (c ∷ cs) h =
    rw (score-moderate order s e c h, all_moderate order s e cs h) refl

closer_numbers :
    (p n p' n' p'' n'' : ℕ)
    → p' + n ≤ p + n'
    → p'' + n' ≤ p' + n''
    → ltb (p + n'' - (p'' + n) + (p'' + n - (p + n''))) 1000 ≡ true
    → ltb (p + n' - (p' + n) + (p' + n - (p + n'))) 1000 ≡ true
closer_numbers p n p' n' p'' n'' h h' close = ground arith

ranked :
    (x y : ScoredCandidate)
    → StandsBefore x y
    → pos_part y.eval.confidence + neg_part x.eval.confidence
      ≤ pos_part x.eval.confidence + neg_part y.eval.confidence
ranked x y (inl higher) = omega (arith, higher)
ranked x y (inr (same, rest)) = omega (arith, same)

abbrev is_near : ScoredCandidate → ScoredCandidate → Bool
is_near x y = ltb (distance x.eval.confidence y.eval.confidence) 1000

-- A candidate that is as near as a later one.
near-first :
    (x y z : ScoredCandidate)
    → StandsBefore x y
    → StandsBefore y z
    → is_near x z ≡ true
    → is_near x y ≡ true
near-first x y z first second near =
    closer_numbers (pos_part x.eval.confidence) (neg_part x.eval.confidence)
      (pos_part y.eval.confidence) (neg_part y.eval.confidence) (pos_part z.eval.confidence)
      (neg_part z.eval.confidence) (ranked x y first) (ranked y z second) near

any-first :
    (x y : ScoredCandidate) (zs : List ScoredCandidate)
    → StandsBefore x y
    → ((z : ScoredCandidate) → Mem z zs → StandsBefore y z)
    → any (is_near x) (y ∷ zs) ≡ true
    → is_near x y ≡ true
any-first x y [] first rest h = ground (arith, h)
any-first x y (z ∷ zs) first rest h = elim (Bool-cases (is_near x z)) [
  | inl near ↦ near-first x y z first (rest z ∣ Memᴰ.head refl ∣₁) near
  | inr far ↦ any-first x y zs first (λ w m. rest w (mem-cons_of_mem z m)) (rw far at h)
]

-- Of a ranked list of moderate confidences in which no candidate is AMBIGUOUS by itself.
ranked-is_ambiguous :
    (l : List ScoredCandidate)
    → any (λ x. not (is_moderate_score x)) l ≡ false
    → Pairwise StandsBefore l
    → is_contested 1000 l ≡ true
    → is_ambiguous (final_status l) ≡ true
unfolding final_status is_contested is_ambiguous
ranked-is_ambiguous [] m p h = cc
ranked-is_ambiguous (x ∷ []) m p h = ground (arith, h)
ranked-is_ambiguous (x ∷ y ∷ l) m (Pairwise.cons first (Pairwise.cons second p)) h =
    let fit : is_valid_status x.eval.status ≡ true = ground (arith, h) in
    let some_near : any (is_near x) (y ∷ l) ≡ true = ground (arith, h) in
    let near = any-first x y l (first y ∣ Memᴰ.head refl ∣₁) second some_near in
    let (close, apart) =
      is_close-distance x.eval.confidence y.eval.confidence (ground (arith, m))
        (ground (arith, m)) in
    rw (final_status, fit, close near) refl

ambiguous-is_contested :
    (l : List ScoredCandidate)
    → any (λ x. is_ambiguous x.eval.status) l ≡ false
    → any (λ x. not (is_moderate_score x)) l ≡ false
    → is_ambiguous (final_status l) ≡ true
    → is_contested 1001 l ≡ true
unfolding final_status is_contested is_ambiguous
ambiguous-is_contested [] n m h = cc
ambiguous-is_contested (x ∷ []) n m h = cc (rw h at n)
ambiguous-is_contested (x ∷ y ∷ l) n m h =
    let (close, apart) =
      is_close-distance x.eval.confidence y.eval.confidence (ground (arith, m))
        (ground (arith, m)) in
    elim (Bool-cases
      (is_valid_status x.eval.status && is_close x.eval.confidence y.eval.confidence)) [
        | inr not_both ↦
            let own : is_ambiguous x.eval.status ≡ true = rw not_both at h in cc (rw own at n)
        | inl both ↦
            let fit : is_valid_status x.eval.status ≡ true = ground (arith, both) in
            let near : leb (distance x.eval.confidence y.eval.confidence) 1000 ≡ true =
              apart (ground (arith, both)) in
            rw (is_contested, fit) (ground (arith, near))
      ]

-- With at most 10^12 pieces of evidence: the status of a response is AMBIGUOUS when the first of the
-- ranked candidates is VALID and the confidence of any other of them, not only of the second, is less
-- than 0.1 away from its own; and only when it is VALID and some other confidence is at most 0.1
-- away. At a distance of exactly 0.1 the float64 numbers decide.
pub final_status-is_ambiguous :
    (order : RangeOrder) (sorter : SliceSort) (s : Caches) (candidates : List AdminCandidate)
    (eval_evidence : List Evidence)
    → length eval_evidence ≤ 1000000000000
    → (is_contested 1000 (evaluate_candidates order sorter s candidates eval_evidence) ≡ true
        → is_ambiguous (final_status (evaluate_candidates order sorter s candidates eval_evidence))
          ≡ true)
      × (is_ambiguous (final_status (evaluate_candidates order sorter s candidates eval_evidence))
            ≡ true
          → is_contested 1001 (evaluate_candidates order sorter s candidates eval_evidence) ≡ true)
final_status-is_ambiguous order sorter s candidates eval_evidence h =
    let scored = evaluate_candidates order sorter s candidates eval_evidence in
    let (perm, ranked_list) =
      evaluate_candidates-Pairwise order sorter s candidates eval_evidence in
    let clean = any-none _ scored _ perm (never order s eval_evidence candidates) in
    let moderate = any-none _ scored _ perm (all_moderate order s eval_evidence candidates h) in
    (ranked-is_ambiguous scored moderate ranked_list, ambiguous-is_contested scored clean moderate)
