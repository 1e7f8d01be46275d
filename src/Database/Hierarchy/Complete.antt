-- ===== src/Database/Hierarchy/Complete.antt =====
-- The sub-districts that have an entry after a rebuild.
use mathlib.Core.List.{foldl}
use address_quality.Prelude.{
  nat_eq, string_eq, some, inl, inr, [], ◌∷◌, true, ◌≡◌, refl, ℕ, List, String, Bool-cases, any,
  Bool, length, any-append, ◌==◌, ◌&&◌, arith, not, false, is_some,
}
use address_quality.GoMap.{RangeOrder}
use address_quality.Text.Split.{split}
use address_quality.Database.{LocationDb, Conn, HierarchyEntry}
use address_quality.Database.{HierarchyEntry}
use address_quality.Database.Hierarchy.Parents.{HasRegion, hierarchy_of-regions}
use address_quality.Database.Hierarchy.{
  HierarchyInsert, has_entry, insert_entry, new_entry, kode_map, parent_rows, sub_rows,
  rebuild_location_hierarchy,
}
use address_quality.Database.Hierarchy.Loop.{inserts, rebuilt, rebuild_location_hierarchy-Does}
use address_quality.Database.Hierarchy.Entries.{is_sub_district, rebuilt-has_entry}

-- The entry of the source and the sub-district, soft-deleted or active.
abbrev pub is_deleted_entry : ℕ → ℕ → HierarchyEntry → Bool
is_deleted_entry source_id id e =
    (e.location_source_id == source_id && e.subdistrict_id == id) && is_some e.deleted_at

abbrev pub is_active_entry : ℕ → ℕ → HierarchyEntry → Bool
is_active_entry source_id id e =
    (e.location_source_id == source_id && e.subdistrict_id == id) && not (is_some e.deleted_at)

insert_entry-deleted :
    (source_id id : ℕ) (d : LocationDb) (h : HierarchyInsert)
    → any (is_deleted_entry source_id id) d.location_hierarchy ≡ false
    → any (is_deleted_entry source_id id) (insert_entry source_id d h).location_hierarchy ≡ false
unfolding insert_entry
insert_entry-deleted source_id id d h none_there =
    elim (Bool-cases (has_entry source_id h.subdistrict_id d.location_hierarchy)) [
      | inl there ↦ rw (insert_entry, there) none_there
      | inr new ↦
          rw (insert_entry, new)
            (rw
              (
                any-append (is_deleted_entry source_id id) d.location_hierarchy
                    (new_entry source_id h ∷ []),
                none_there,
              )
              (ground arith))
    ]

foldl-deleted :
    (source_id id : ℕ) (hs : List HierarchyInsert) (d : LocationDb)
    → any (is_deleted_entry source_id id) d.location_hierarchy ≡ false
    → any (is_deleted_entry source_id id) (foldl (insert_entry source_id) d hs).location_hierarchy
      ≡ false
foldl-deleted source_id id [] d h = h
foldl-deleted source_id id (x ∷ hs) d h =
    foldl-deleted source_id id hs (insert_entry source_id d x)
      (insert_entry-deleted source_id id d x h)

entry-is_active :
    (source_id id : ℕ) (l : List HierarchyEntry)
    → has_entry source_id id l ≡ true
    → any (is_deleted_entry source_id id) l ≡ false
    → any (is_active_entry source_id id) l ≡ true
unfolding has_entry
entry-is_active source_id id [] there h = cc
entry-is_active source_id id (e ∷ l) there h = elim (Bool-cases (is_active_entry source_id id e)) [
  | inl here ↦ rw here refl
  | inr other ↦
      rw other
        (entry-is_active source_id id l (ground (arith, there, h, other)) (ground (arith, h)))
]

rebuilt-deleted :
    (order : RangeOrder) (source_id id : ℕ) (d : LocationDb)
    → any (is_deleted_entry source_id id) d.location_hierarchy ≡ false
    → any (is_deleted_entry source_id id) (rebuilt order source_id d).location_hierarchy ≡ false
unfolding rebuilt
rebuilt-deleted order source_id id d clear =
    foldl-deleted source_id id
      (inserts (kode_map (order.visit _ (parent_rows source_id d)))
        (order.visit _ (sub_rows source_id d)))
      d clear

-- After a rebuild of the hierarchy that returns no error, an active sub-district row of the source
-- has an active entry if its code has four parts, the first one, two and three of them are codes of
-- active rows of the source of the levels from province to district, and no soft-deleted entry of
-- the sub-district was there before.
pub rebuild_location_hierarchy_complete :
    (order : RangeOrder) (source_id id : ℕ) (kode : String) (c : Conn)
    → (rebuild_location_hierarchy order source_id c).0 ≡ some tt
    → any (is_sub_district source_id id kode) c.db.location_codes ≡ true
    → length (split 46 kode) ≡ 4
    → HasRegion source_id 1 kode c.db.location_codes
    → HasRegion source_id 2 kode c.db.location_codes
    → HasRegion source_id 3 kode c.db.location_codes
    → any (is_deleted_entry source_id id) c.db.location_hierarchy ≡ false
    → any
        (is_active_entry source_id id)
        (rebuild_location_hierarchy order source_id c).1.db.location_hierarchy
      ≡ true
rebuild_location_hierarchy_complete order source_id id kode c succeeded found four h1 h2 h3 clear =
    let (h, parents) = hierarchy_of-regions order source_id id kode c.db four h1 h2 h3 in
    let there = rebuilt-has_entry order source_id id kode h c succeeded found parents in
    elim (rebuild_location_hierarchy-Does order source_id c) [
      | inl (failed, fault) ↦ cc
      | inr (returned, left, clean) ↦ rw left (
          entry-is_active source_id id (rebuilt order source_id c.db).location_hierarchy
            (rw left at there) (rebuilt-deleted order source_id id c.db clear))
    ]
