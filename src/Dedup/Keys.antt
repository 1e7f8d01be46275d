-- ===== src/Dedup/Keys.antt =====
-- `DeduplicateCandidates`: the keys of the result.
use address_quality.Prelude.{
  nat_eq, string_eq, true, false, inl, inr, [], ◌∷◌, List, String, ◌++◌, ℕ, map, Bool, contains,
  ◌≡◌, set, is_some, not, ◌||◌, ap, Bool-cases, get_or, ◌&&◌, arith, ◌==◌, suc, refl, zero, subst,
  Option-cases, sym, beq→eq, beq_self, ◌∙◌, length, leb,
}
use address_quality.GoMap.{RangeOrder, lookup, insert}
use address_quality.GoMap.Laws.{lookup-insert_self, lookup-insert_ne}
use address_quality.Model.{AdminCandidate}
use address_quality.Dedup.{
  candidate_key, merge_candidates, merge_at, dedup_from, deduplicate_candidates,
}

abbrev pub keys : List AdminCandidate → List String
keys = map (λ c. candidate_key c.location)

-- No key comes twice.
abbrev pub all_distinct : List String → Bool
all_distinct [] = true
all_distinct (x ∷ xs) = not (contains xs x) && all_distinct xs

contains-append :
    (xs ys : List String) (a : String) → contains (xs ++ ys) a ≡ (contains xs a || contains ys a)
contains-append [] ys a = refl
contains-append (x ∷ xs) ys a = ground (arith, contains-append xs ys a)

keys-append : (cs ds : List AdminCandidate) → keys (cs ++ ds) ≡ keys cs ++ keys ds
keys-append [] ds = refl
keys-append (c ∷ cs) ds = ap (λ l. candidate_key c.location ∷ l) (keys-append cs ds)

all_distinct-snoc :
    (xs : List String) (a : String)
    → all_distinct xs ≡ true
    → contains xs a ≡ false
    → all_distinct (xs ++ a ∷ []) ≡ true
all_distinct-snoc [] a d new = refl
all_distinct-snoc (x ∷ xs) a d new = elim (Bool-cases (x == a)) [
  | inl same ↦
      let self : (a == x) ≡ true =
        subst (λ y. (a == y) ≡ true) (sym (beq→eq x a same)) (beq_self a) in
      ground (arith, self)
  | inr other ↦ ground (arith, all_distinct-snoc xs a, contains-append xs (a ∷ []) x)
]

set-keys :
    (order : RangeOrder) (cs : List AdminCandidate) (i : ℕ) (c d : AdminCandidate)
    → keys (set cs i (merge_candidates order (get_or cs i c) d)) ≡ keys cs
unfolding merge_candidates
set-keys order [] i c d = refl
set-keys order (x ∷ cs) zero c d = refl
set-keys order (x ∷ cs) (suc i) c d =
    ap (λ l. candidate_key x.location ∷ l) (set-keys order cs i c d)

-- The map `seen` has these keys.
abbrev IsIndexed : List (String × ℕ) → List String → Type 0
IsIndexed seen ks = (k : String) → is_some (lookup k seen) ≡ contains ks k

or-false : (b : Bool) → b ≡ (b || false)
or-false true = refl
or-false false = refl

ne_comm : (a b : String) → (a == b) ≡ false → (b == a) ≡ false
ne_comm a b ne = elim (Bool-cases (b == a)) [
  | inl same ↦ cc (subst (λ x. (a == x) ≡ true) (sym (beq→eq b a same)) (beq_self a), ne)
  | inr other ↦ other
]

contains-snoc_self : (ks : List String) (a : String) → contains (ks ++ a ∷ []) a ≡ true
contains-snoc_self ks a = ground (arith, contains-append ks (a ∷ []) a, beq_self a)

contains-snoc_ne :
    (ks : List String) (a k : String) → (a == k) ≡ false → contains ks k ≡ contains (ks ++ a ∷ []) k
contains-snoc_ne ks a k ne = ground (arith, contains-append ks (a ∷ []) k, ne_comm a k ne)

IsIndexed-snoc :
    (seen : List (String × ℕ)) (n : ℕ) (ks : List String) (a : String)
    → IsIndexed seen ks
    → IsIndexed (insert a n seen) (ks ++ a ∷ [])
IsIndexed-snoc seen n ks a h k = elim (Bool-cases (a == k)) [
  | inl same ↦
      subst (λ x. is_some (lookup x (insert a n seen)) ≡ contains (ks ++ a ∷ []) x)
        (beq→eq a k same) (ap is_some (lookup-insert_self a n seen) ∙ sym (contains-snoc_self ks a))
  | inr other ↦ ap is_some (lookup-insert_ne a k n seen other) ∙ h k ∙ contains-snoc_ne ks a k other
]

old-member :
    (xs ys : List String) (a b : String)
    → contains xs b ≡ true
    → (contains xs a || contains ys a) ≡ (contains xs a || (a == b || contains ys a))
old-member xs ys a b old = elim (Bool-cases (a == b)) [
  | inl same ↦
      let inside = subst (λ x. contains xs x ≡ true) (sym (beq→eq a b same)) old in
      ground (arith, inside)
  | inr other ↦ ground arith
]

dedup_from-keys :
    (order : RangeOrder) (seen : List (String × ℕ)) (deduped cs : List AdminCandidate)
    (ks : List String)
    → keys deduped ≡ ks
    → IsIndexed seen ks
    → all_distinct ks ≡ true
    → (all_distinct (keys (dedup_from order seen deduped cs)) ≡ true)
      × ((k : String)
          → contains (keys (dedup_from order seen deduped cs)) k
            ≡ (contains ks k || contains (keys cs) k))
unfolding dedup_from merge_at
dedup_from-keys order seen deduped [] ks e h d = rw e (d, λ k. or-false (contains ks k))
dedup_from-keys order seen deduped (c ∷ cs) ks e h d =
    elim (Option-cases (lookup (candidate_key c.location) seen)) [
      | inl new ↦
          let a = candidate_key c.location in
          let absent = sym (h a) ∙ ap is_some new in
          let (d', m) =
            dedup_from-keys order (insert a (length deduped) seen) (deduped ++ c ∷ []) cs
              (ks ++ a ∷ []) (keys-append deduped (c ∷ []) ∙ ap (λ l. l ++ a ∷ []) e)
              (IsIndexed-snoc seen (length deduped) ks a h) (all_distinct-snoc ks a d absent) in
          rw (new, dedup_from) (d', λ k. ground (arith, m k, contains-append ks (a ∷ []) k))
      | inr (i, old) ↦
          let a = candidate_key c.location in
          let present = sym (h a) ∙ ap is_some old in
          let (d', m) =
            dedup_from-keys order seen (merge_at order i c deduped) cs ks
              (set-keys order deduped i c c ∙ e) h d in
          rw (old, dedup_from) (d', λ k. m k ∙ old-member ks (keys cs) k a present)
    ]

IsIndexed-nil : IsIndexed [] []
unfolding lookup
IsIndexed-nil k = refl

-- The candidates that `DeduplicateCandidates` returns have different keys, and their keys are those
-- of the candidates that it is given.
pub deduplicate_candidates-keys :
    (order : RangeOrder) (cs : List AdminCandidate)
    → (all_distinct (keys (deduplicate_candidates order cs)) ≡ true)
      × ((k : String) → contains (keys (deduplicate_candidates order cs)) k ≡ contains (keys cs) k)
unfolding deduplicate_candidates
deduplicate_candidates-keys order [] = (refl, λ k. refl)
deduplicate_candidates-keys order (c ∷ []) = (refl, λ k. refl)
deduplicate_candidates-keys order (c ∷ d ∷ cs) =
    let long : leb (length (c ∷ d ∷ cs)) 1 ≡ false = ground arith in
    rw (long, deduplicate_candidates)
      (dedup_from-keys order [] [] (c ∷ d ∷ cs) [] refl IsIndexed-nil refl)
