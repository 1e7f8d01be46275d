-- ===== src/Pipeline/Locations.antt =====
-- A property of locations, through the stages that drop, merge, stamp or reorder candidates.

use address_quality.Prelude.{
  zero, suc, nat_eq, string_eq, List, [], ◌∷◌, ◌++◌, All, map, set, get_or, ℕ, String, Bool-cases,
  Option-cases, leb, contains, ◌+◌, suc, length, inl, All-append, inr,
}
use address_quality.GoMap.{RangeOrder, lookup, insert}
use address_quality.Model.{AdminLocation, AdminCandidate}
use address_quality.Dedup.{
  merge_candidates, merge_at, dedup_from, deduplicate_candidates, candidate_key,
}
use address_quality.Builder.{stamp, unique_from}

module _ (P : AdminLocation → Type 0) where
  -- Every candidate's location has the property.
  abbrev pub Locations : List AdminCandidate → Type 0
  Locations = All (λ c. P c.location)

  get_or-Located :
      (cs : List AdminCandidate) (i : ℕ) (d : AdminCandidate)
      → Locations cs
      → P d.location
      → P (get_or cs i d).location
  get_or-Located [] i d h k = k
  get_or-Located (c ∷ cs) zero d (p, h) k = p
  get_or-Located (c ∷ cs) (suc i) d (p, h) k = get_or-Located cs i d h k

  set-Locations :
      (cs : List AdminCandidate) (i : ℕ) (d : AdminCandidate)
      → Locations cs
      → P d.location
      → Locations (set cs i d)
  set-Locations [] i d h k = h
  set-Locations (c ∷ cs) zero d (p, h) k = (k, h)
  set-Locations (c ∷ cs) (suc i) d (p, h) k = (p, set-Locations cs i d h k)

  merge_at-Locations :
      (order : RangeOrder) (i : ℕ) (c : AdminCandidate) (cs : List AdminCandidate)
      → Locations cs
      → P c.location
      → Locations (merge_at order i c cs)
  unfolding merge_at merge_candidates
  merge_at-Locations order i c cs h k = set-Locations cs i _ h (get_or-Located cs i c h k)

  dedup_from-Locations :
      (order : RangeOrder) (seen : List (String × ℕ)) (deduped cs : List AdminCandidate)
      → Locations deduped
      → Locations cs
      → Locations (dedup_from order seen deduped cs)
  unfolding dedup_from
  dedup_from-Locations order seen deduped [] h k = h
  dedup_from-Locations order seen deduped (c ∷ cs) h (p, k) =
      elim (Option-cases (lookup (candidate_key c.location) seen)) [
        | inl new ↦
            rw (new, dedup_from)
              (dedup_from-Locations order (insert (candidate_key c.location) (length deduped) seen)
                (deduped ++ c ∷ []) cs (All-append (λ x. P x.location) deduped (c ∷ []) h (p, tt))
                k)
        | inr (i, old) ↦
            rw (old, dedup_from)
              (dedup_from-Locations order seen (merge_at order i c deduped) cs
                (merge_at-Locations order i c deduped h p) k)
      ]

  pub deduplicate-Locations :
      (order : RangeOrder) (cs : List AdminCandidate)
      → Locations cs
      → Locations (deduplicate_candidates order cs)
  unfolding deduplicate_candidates
  deduplicate-Locations order cs h = elim (Bool-cases (leb (length cs) 1)) [
    | inl short ↦ rw short h
    | inr long ↦ rw long (dedup_from-Locations order [] [] cs tt h)
  ]

  pub unique_from-Locations :
      (seen : List String) (cs : List AdminCandidate)
      → Locations cs
      → Locations (unique_from seen cs)
  unfolding unique_from
  unique_from-Locations seen [] h = tt
  unique_from-Locations seen (c ∷ cs) (p, h) =
      elim (Bool-cases (contains seen (candidate_key c.location))) [
        | inl old ↦ rw old (unique_from-Locations seen cs h)
        | inr new ↦ rw new (p, unique_from-Locations (candidate_key c.location ∷ seen) cs h)
      ]

  pub stamp-Locations :
      (new_uuid : ℕ → String) (strategies : _) (i : ℕ) (cs : List AdminCandidate)
      → Locations cs
      → Locations (stamp new_uuid strategies i cs)
  unfolding stamp
  stamp-Locations new_uuid strategies i [] h = tt
  stamp-Locations new_uuid strategies i (c ∷ cs) (p, h) =
      (p, stamp-Locations new_uuid strategies (i + 1) cs h)

pub map-All :
    {A B : Type 0} (P : B → Type 0) (f : A → B)
    → ((a : A) → P (f a))
    → (xs : List A) → All P (map f xs)
map-All P f h [] = tt
map-All P f h (x ∷ xs) = (h x, map-All P f h xs)

pub map-All_of :
    {A B : Type 0} (P : A → Type 0) (Q : B → Type 0) (f : A → B)
    → ((a : A) → P a → Q (f a))
    → (xs : List A) → All P xs
    → All Q (map f xs)
map-All_of P Q f h [] k = tt
map-All_of P Q f h (x ∷ xs) (p, k) = (h x p, map-All_of P Q f h xs k)
