-- ===== src/Sort/Insertion.antt =====
-- Insertion sort as an instance of `sort.Slice`.
use mathlib.Core.List.{Perm, Pairwise, not-mem-nil}
use mathlib.Core.List.Perm
use mathlib.Core.Logic.Or
use mathlib.Core.List.{eq-or-mem_of_mem-cons}
use address_quality.Prelude.{List, [], ◌∷◌, ◌≡◌, false}
use address_quality.Sort.{IsWeakOrder, SliceSort, insert_stable, sort_stable}
use address_quality.Prelude.{Bool, List, ◌∷◌, Bool-cases, inl, inr}

module _ {A : Type 0} (less : A → A → Bool) where
  insert_stable-Perm : (x : A) (ys : List A) → Perm (insert_stable less x ys) (x ∷ ys)
  insert_stable-Perm x [] = Perm.rfl
  insert_stable-Perm x (y ∷ ys) = elim (Bool-cases (less y x)) [
    | inl before ↦ rw before (Perm.trans (Perm.cons y (insert_stable-Perm x ys)) (Perm.swap x y ys))
    | inr after ↦ rw after Perm.rfl
  ]

  pub sort_stable-Perm : (xs : List A) → Perm (sort_stable less xs) xs
  sort_stable-Perm [] = Perm.rfl
  sort_stable-Perm (x ∷ xs) =
      Perm.trans (insert_stable-Perm x (sort_stable less xs)) (Perm.cons x (sort_stable-Perm xs))

  module _ (w : IsWeakOrder less) where
    insert_stable-Pairwise :
        (x : A) (ys : List A)
        → Pairwise (λ x y. less y x ≡ false) ys
        → Pairwise (λ x y. less y x ≡ false) (insert_stable less x ys)
    insert_stable-Pairwise x [] p = Pairwise.cons (λ z m. absurd (not-mem-nil m)) Pairwise.nil
    insert_stable-Pairwise x (y ∷ ys) (Pairwise.cons h p) = elim (Bool-cases (less y x)) [
      | inl before ↦ rw before (
          Pairwise.cons
            (λ z m.
              Or.elim (hlevel)
                (eq-or-mem_of_mem-cons ((Perm.mem_iff (insert_stable-Perm x ys)).0 m))
                (λ e. rw e (w.asym y x before)) (λ there. h z there))
            (insert_stable-Pairwise x ys p))
      | inr after ↦ rw after (
          Pairwise.cons
            (λ z m.
              Or.elim (hlevel) (eq-or-mem_of_mem-cons m) (λ e. rw e after)
                (λ there. w.incomparable_trans x y z after (h z there)))
            (Pairwise.cons h p))
    ]

    pub sort_stable-Pairwise :
        (xs : List A) → Pairwise (λ x y. less y x ≡ false) (sort_stable less xs)
    sort_stable-Pairwise [] = Pairwise.nil
    sort_stable-Pairwise (x ∷ xs) =
        insert_stable-Pairwise x (sort_stable less xs) (sort_stable-Pairwise xs)

-- A choice that `sort.Slice` may make.
abbrev pub insertion : SliceSort
insertion = record {
  sort = λ A less. sort_stable less;
  sort_perm = λ A less. sort_stable-Perm less;
  sort_sorted = λ A less l w. sort_stable-Pairwise less w l;
}
