-- ===== src/Resolve/Unique.antt =====
-- `appendUniqueEntities` and the ids of its result.
use address_quality.Prelude.{inl, inr, subst, sym, ◌∙◌, ◌==◌, beq→eq}
use address_quality.Resolve.{append_unseen, append_unique_entities, Entity}
use address_quality.Prelude.{
  List, ℕ, map, Bool, contains, ◌≡◌, ◌++◌, ◌∷◌, true, ◌||◌, [], nat_eq, not, arith, false, ap, ◌&&◌,
  Bool-cases, refl, inl,
}

abbrev pub ids : List Entity → List ℕ
ids = map (λ e. e.id)

-- No id comes twice.
abbrev pub distinct : List ℕ → Bool
distinct [] = true
distinct (x ∷ xs) = not (contains xs x) && distinct xs

contains-append :
    (xs ys : List ℕ) (a : ℕ) → contains (xs ++ ys) a ≡ (contains xs a || contains ys a)
contains-append [] ys a = refl
contains-append (x ∷ xs) ys a = ground (arith, contains-append xs ys a)

distinct-snoc :
    (xs : List ℕ) (a : ℕ)
    → distinct xs ≡ true
    → contains xs a ≡ false
    → distinct (xs ++ a ∷ []) ≡ true
distinct-snoc [] a d new = refl
distinct-snoc (x ∷ xs) a d new = ground (arith, distinct-snoc xs a, contains-append xs (a ∷ []) x)

ids-snoc : (es : List Entity) (e : Entity) → ids (es ++ e ∷ []) ≡ ids es ++ e.id ∷ []
ids-snoc [] e = refl
ids-snoc (x ∷ es) e = ap (λ l. x.id ∷ l) (ids-snoc es e)

-- The set of the loop has the same members as the list of ids.
abbrev SameMembers : List ℕ → List ℕ → Type 0
SameMembers seen xs = (a : ℕ) → contains seen a ≡ contains xs a

SameMembers-snoc :
    (seen xs : List ℕ) (x : ℕ) → SameMembers seen xs → SameMembers (x ∷ seen) (xs ++ x ∷ [])
SameMembers-snoc seen xs x h a = ground (arith, h a, contains-append xs (x ∷ []) a)

old-member :
    (xs : List ℕ) (a b : ℕ) → contains xs b ≡ true → (contains xs a || a == b) ≡ contains xs a
old-member xs a b old = elim (Bool-cases (a == b)) [
  | inl same ↦
      cc (
        same,
        subst (λ x. contains xs x ≡ true) (sym (beq→eq a b same)) old,
        or-true (contains xs a),
      )
  | inr other ↦ rw other (or-false (contains xs a))
]
  where
    or-true : (b : Bool) → (b || true) ≡ true
    or-true true = refl
    or-true false = refl

    or-false : (b : Bool) → (b || false) ≡ b
    or-false true = refl
    or-false false = refl

append_unseen-ids :
    (seen : List ℕ) (dst es : List Entity)
    → SameMembers seen (ids dst)
    → distinct (ids dst) ≡ true
    → (distinct (ids (append_unseen seen dst es)) ≡ true)
      × ((a : ℕ)
          → contains (ids (append_unseen seen dst es)) a
            ≡ (contains (ids dst) a || contains (ids es) a))
unfolding append_unseen
append_unseen-ids seen dst [] h d = (d, λ a. ground arith)
append_unseen-ids seen dst (e ∷ es) h d = elim (Bool-cases (contains seen e.id)) [
  | inl old ↦
      let (d', m) = append_unseen-ids seen dst es h d in
      rw (old, append_unseen)
        (d', λ a. ground (arith, m a, old-member (ids dst) a e.id (sym (h e.id) ∙ old)))
  | inr new ↦
      let step =
        subst (λ l. SameMembers (e.id ∷ seen) l) (sym (ids-snoc dst e))
          (SameMembers-snoc seen (ids dst) e.id h) in
      let d1 =
        subst (λ l. distinct l ≡ true) (sym (ids-snoc dst e))
          (distinct-snoc (ids dst) e.id d (sym (h e.id) ∙ new)) in
      let (d', m) = append_unseen-ids (e.id ∷ seen) (dst ++ e ∷ []) es step d1 in
      rw (new, append_unseen)
        (
          d',
          λ a. ground (
            arith,
            m a,
            ap (λ l. contains l a) (ids-snoc dst e),
            contains-append (ids dst) (e.id ∷ []) a,
          ),
        )
]

same_members : (xs : List ℕ) → SameMembers xs xs
same_members xs a = refl

-- When no id comes twice in `dst`, none comes twice in the result, and the ids of the result are
-- those of `dst` and of the entities that are appended.
pub append_unique_entities-ids :
    (dst entities : List Entity)
    → distinct (ids dst) ≡ true
    → (distinct (ids (append_unique_entities dst entities)) ≡ true)
      × ((a : ℕ)
          → contains (ids (append_unique_entities dst entities)) a
            ≡ (contains (ids dst) a || contains (ids entities) a))
unfolding append_unique_entities
append_unique_entities-ids dst entities d =
    append_unseen-ids (ids dst) dst entities (same_members (ids dst)) d
