-- ===== src/GoMap.antt =====
-- Go's built-in maps, as association lists in the order of first insertion, and the order in which
-- a `range` visits a map, which the language leaves open.
pub mod Laws
use mathlib.Core.List.{Perm}
use mathlib.Core.Option
use address_quality.Prelude.{
  ℕ, ◌≡◌, refl, Bool, true, false, Option, none, some, List, [], ◌∷◌, arith, Eq, ◌==◌, nat_eq,
  if◌then◌else◌, Bool-cases, beq→eq, beq_self,
}

module _ {ℓ κ} {K : Type ℓ} {V : Type κ} ⦃e : Eq K⦄ where
  -- `v, ok := m[k]`
  unfoldable pub lookup : K → List (K × V) → Option V
  lookup k [] = none
  lookup k ((j, v) ∷ m) = if j == k then some v else lookup k m

  -- `m[k] = v`
  unfoldable pub insert : K → V → List (K × V) → List (K × V)
  insert k v [] = (k, v) ∷ []
  insert k v ((j, w) ∷ m) = let rest = insert k v m in if j == k then (j, v) ∷ m else (j, w) ∷ rest

-- `m[k]` at a map of ids, 0 on a missing key
abbrev pub index : List (ℕ × ℕ) → ℕ → ℕ
index m k = Option.get_or (lookup k m) 0

-- `for k, v := range m`: each entry once, in an order that the runtime chooses. One function
-- stands for all the choices of a run; a law that holds of every such function holds of each.
pub record RangeOrder : Type 1 where
  pub visit : (A : Type 0) → List A → List A
  pub visit_perm : (A : Type 0) (m : List A) → Perm (visit A m) m
