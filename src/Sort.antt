-- ===== src/Sort.antt =====
-- Go's `sort.Slice`, which is not stable: some permutation that the order allows.
pub mod Insertion
use mathlib.Core.List.{Perm, Pairwise}
use address_quality.Prelude.{◌≡◌, Bool, true, false, List, [], ◌∷◌, if◌then◌else◌}

-- What `sort.Slice` asks of `less`.
pub record IsWeakOrder {A : Type 0} (less : A → A → Bool) : Type 0 where
  pub asym : (x y : A) → less x y ≡ true → less y x ≡ false
  pub incomparable_trans : (x y z : A) → less y x ≡ false → less z y ≡ false → less z x ≡ false

-- One function stands for the choices of a run.
pub record SliceSort : Type 1 where
  pub sort : (A : Type 0) (less : A → A → Bool) → List A → List A
  pub sort_perm : (A : Type 0) (less : A → A → Bool) (l : List A) → Perm (sort A less l) l
  pub sort_sorted :
      (A : Type 0) (less : A → A → Bool) (l : List A)
      → IsWeakOrder less
      → Pairwise (λ x y. less y x ≡ false) (sort A less l)

-- sort.SliceStable: the result is determined by `less`; it is computed by insertion here.
abbrev pub insert_stable {ℓ} : {A : Type ℓ} → (A → A → Bool) → A → List A → List A
insert_stable less x [] = x ∷ []
insert_stable less x (y ∷ ys) =
    let later = insert_stable less x ys in if less y x then y ∷ later else x ∷ y ∷ ys

abbrev pub sort_stable {ℓ} : {A : Type ℓ} → (A → A → Bool) → List A → List A
sort_stable less [] = []
sort_stable less (x ∷ xs) = insert_stable less x (sort_stable less xs)
