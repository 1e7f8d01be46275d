-- ===== src/Database/Hierarchy/Parents.antt =====
-- The rows that a sub-district's code names as its parents.
use mathlib.Core.List.{foldl}
use address_quality.GoMap.{RangeOrder, lookup, insert}
use address_quality.GoMap.Laws.{lookup-insert_self, lookup-insert_ne}
use address_quality.Text.{join}
use address_quality.Text.Split.{split}
use address_quality.Database.{LocationDb, CodeRow}
use address_quality.Database.Sources.{is_active}
use address_quality.Database.Codes.{of_source, at_level, prefix_kode}
use address_quality.Database.Visited.{any-visit}
use address_quality.Database.Hierarchy.{
  HierarchyInsert, parents_of, hierarchy_of, kode_map, parent_rows, is_parent_row,
}
use address_quality.Prelude.{
  ℕ, List, String, Bool, any, ◌≡◌, length, ◌==◌, some, true, ◌&&◌, ◌∷◌, arith, map, not, Bool-cases,
  select, string_eq, is_some, inl, refl, leb, subst, inr, [], beq→eq, nat_eq, ◌∙◌, take,
}

-- An active row of the source, of the levels from province to district, with this code.
abbrev pub is_region : ℕ → String → CodeRow → Bool
is_region source_id kode r =
    r.location_source_id == source_id
    && not (is_some r.deleted_at)
    && leb 2 r.level_id
    && leb r.level_id 4
    && r.kode == kode

-- The first n parts of the code are the code of such a row.
abbrev pub HasRegion : ℕ → ℕ → String → List CodeRow → Type 0
HasRegion source_id n kode codes =
    any (is_region source_id (join "." (take n (split 46 kode)))) codes ≡ true

lookup-keeps :
    (l m : List (String × ℕ)) (k : String) (v : ℕ)
    → lookup k m ≡ some v
    → (w : ℕ) × (lookup k (foldl (λ n p. insert p.0 p.1 n) m l) ≡ some w)
lookup-keeps [] m k v h = (v, h)
lookup-keeps (p ∷ l) m k v h = elim (Bool-cases (p.0 == k)) [
  | inl same ↦ lookup-keeps l (insert p.0 p.1 m) k p.1 (
      subst (λ j. lookup j (insert p.0 p.1 m) ≡ some p.1) (beq→eq p.0 k same)
        (lookup-insert_self p.0 p.1 m))
  | inr other ↦ lookup-keeps l (insert p.0 p.1 m) k v (lookup-insert_ne p.0 k p.1 m other ∙ h)
]

lookup-any :
    (l m : List (String × ℕ)) (k : String)
    → any (λ (p : String × ℕ). p.0 == k) l ≡ true
    → (w : ℕ) × (lookup k (foldl (λ n p. insert p.0 p.1 n) m l) ≡ some w)
lookup-any [] m k h = cc
lookup-any (p ∷ l) m k h = elim (Bool-cases (p.0 == k)) [
  | inl same ↦ lookup-keeps l (insert p.0 p.1 m) k p.1 (
      subst (λ j. lookup j (insert p.0 p.1 m) ≡ some p.1) (beq→eq p.0 k same)
        (lookup-insert_self p.0 p.1 m))
  | inr other ↦ lookup-any l (insert p.0 p.1 m) k (rw other at h)
]

region-is_parent_row :
    (source_id : ℕ) (kode : String) (r : CodeRow)
    → is_region source_id kode r ≡ true
    → (is_parent_row source_id r ≡ true) × ((r.kode == kode) ≡ true)
unfolding is_parent_row of_source at_level is_active
region-is_parent_row source_id kode r h = (ground (arith, h), ground (arith, h))

any-parents :
    (source_id : ℕ) (kode : String) (codes : List CodeRow)
    → any (is_region source_id kode) codes ≡ true
    → any
        (λ (p : String × ℕ). p.0 == kode)
        (map (λ (r : CodeRow). (r.kode, r.id)) (select (is_parent_row source_id) codes))
      ≡ true
any-parents source_id kode [] h = cc
any-parents source_id kode (r ∷ codes) h = elim (Bool-cases (is_region source_id kode r)) [
  | inl here ↦
      let (kept, same) = region-is_parent_row source_id kode r here in rw kept (rw same refl)
  | inr other ↦
      let later = any-parents source_id kode codes (rw other at h) in
      elim (Bool-cases (is_parent_row source_id r)) [
        | inl kept ↦ rw kept (rw later (ground arith))
        | inr dropped ↦ rw dropped later
      ]
]

region-lookup :
    (order : RangeOrder) (source_id n : ℕ) (kode : String) (d : LocationDb)
    → HasRegion source_id n kode d.location_codes
    → (w : ℕ) × (lookup
          (prefix_kode n (split 46 kode))
          (kode_map (order.visit _ (parent_rows source_id d)))
        ≡ some w)
unfolding kode_map parent_rows prefix_kode
region-lookup order source_id n kode d h =
    let k = join "." (take n (split 46 kode)) in
    lookup-any (order.visit _ (parent_rows source_id d)) [] k (
      any-visit order (λ p. p.0 == k) (parent_rows source_id d)
      ∙ any-parents source_id k d.location_codes h)

-- A code of four parts whose three prefixes are such codes has its parents in the map.
pub hierarchy_of-regions :
    (order : RangeOrder) (source_id id : ℕ) (kode : String) (d : LocationDb)
    → length (split 46 kode) ≡ 4
    → HasRegion source_id 1 kode d.location_codes
    → HasRegion source_id 2 kode d.location_codes
    → HasRegion source_id 3 kode d.location_codes
    → (h : HierarchyInsert) × (hierarchy_of
          (kode_map (order.visit _ (parent_rows source_id d)))
          (id, kode)
        ≡ some h)
unfolding hierarchy_of parents_of
hierarchy_of-regions order source_id id kode d four h1 h2 h3 =
    let (p, p_at) = region-lookup order source_id 1 kode d h1 in
    let (c, c_at) = region-lookup order source_id 2 kode d h2 in
    let (t, t_at) = region-lookup order source_id 3 kode d h3 in
    (
      record { province_id = p; city_id = c; district_id = t; subdistrict_id = id },
      rw (hierarchy_of, parents_of, four, p_at, c_at, t_at) refl,
    )
