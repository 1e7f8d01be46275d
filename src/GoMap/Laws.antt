-- ===== src/GoMap/Laws.antt =====
-- The laws of a Go map.
use address_quality.Prelude.{
  ◌≡◌, false, some, List, [], ◌∷◌, Eq, ◌==◌, Bool-cases, beq→eq, beq_self, inl, inr,
}
use address_quality.GoMap.{lookup, insert}

module _ {ℓ κ} {K : Type ℓ} {V : Type κ} ⦃e : Eq K⦄ where
  pub lookup-insert_self : (k : K) (v : V) (m : List (K × V)) → lookup k (insert k v m) ≡ some v
  unfolding lookup insert
  lookup-insert_self k v [] = rw (beq_self k)
  lookup-insert_self k v ((j, w) ∷ m) = elim (Bool-cases (j == k)) [
    | inl same ↦ rw (same, same)
    | inr other ↦ rw (other, other) (lookup-insert_self k v m)
  ]

  pub lookup-insert_ne :
      (k j : K) (v : V) (m : List (K × V)) → (k == j) ≡ false → lookup j (insert k v m) ≡ lookup j m
  unfolding lookup insert
  lookup-insert_ne k j v [] ne = rw ne
  lookup-insert_ne k j v ((i, w) ∷ m) ne = elim (Bool-cases (i == k)) [
    | inl same ↦ rw (same, beq→eq i k same, ne)
    | inr other ↦ rw other (elim (Bool-cases (i == j)) [
      | inl here ↦ rw here
      | inr there ↦ rw there (lookup-insert_ne k j v m ne)
    ])
  ]
