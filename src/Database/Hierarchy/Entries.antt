-- ===== src/Database/Hierarchy/Entries.antt =====
-- The entries that a rebuild adds for the rows of sub-districts.
use mathlib.Core.List.{foldl}
use address_quality.Prelude.{
  nat_eq, string_eq, some, inl, inr, [], ◌∷◌, true, ◌≡◌, refl, ℕ, List, String, Bool-cases, any,
  Bool, length, any-append, ◌==◌, ◌&&◌, Option-cases, subst, beq_self, beq→eq, map, ◌∙◌, arith,
  select, ap, sym, some-eq, not, is_some,
}
use address_quality.GoMap.{RangeOrder, lookup}
use address_quality.Text.Split.{split}
use address_quality.Database.{LocationDb, CodeRow, Conn}
use address_quality.Database.Codes.{of_source, at_level, prefix_kode}
use address_quality.Database.Visited.{any-visit}
use address_quality.Database.Sources.{is_active}
use address_quality.Database.Hierarchy.{
  HierarchyInsert, parents_of, hierarchy_of, has_entry, insert_entry, new_entry, kode_map,
  parent_rows, sub_rows, rebuild_location_hierarchy, is_active,
}
use address_quality.Database.Hierarchy.Loop.{inserts, rebuilt, rebuild_location_hierarchy-Does}

-- The row of an active sub-district.
abbrev pub is_sub_district : ℕ → ℕ → String → CodeRow → Bool
is_sub_district source_id id kode r =
    (r.location_source_id == source_id && (r.level_id == 5 && not (is_some r.deleted_at)))
    && (r.id == id && r.kode == kode)

parents_of-subdistrict_id :
    (kode_to_id : List (String × ℕ)) (parts : List String) (id : ℕ) (h : HierarchyInsert)
    → parents_of kode_to_id parts id ≡ some h
    → h.subdistrict_id ≡ id
unfolding parents_of
parents_of-subdistrict_id kode_to_id parts id h found = elim (Bool-cases (length parts == 4)) [
  | inr other ↦ cc (rw (parents_of, other) at found)
  | inl four ↦ elim (Option-cases (lookup (prefix_kode 1 parts) kode_to_id)) [
    | inl missing ↦ cc (rw (parents_of, four, missing) at found)
    | inr (p, p_at) ↦ elim (Option-cases (lookup (prefix_kode 2 parts) kode_to_id)) [
      | inl missing ↦ cc (rw (parents_of, four, p_at, missing) at found)
      | inr (c, c_at) ↦ elim (Option-cases (lookup (prefix_kode 3 parts) kode_to_id)) [
        | inl missing ↦ cc (rw (parents_of, four, p_at, c_at, missing) at found)
        | inr (d, d_at) ↦
            ap (λ (x : HierarchyInsert). x.subdistrict_id)
              (sym (some-eq _ h (rw (parents_of, four, p_at, c_at, d_at) at found)))
      ]
    ]
  ]
]

has_entry-insert_self :
    (source_id : ℕ) (d : LocationDb) (h : HierarchyInsert)
    → has_entry source_id h.subdistrict_id (insert_entry source_id d h).location_hierarchy ≡ true
unfolding insert_entry has_entry
has_entry-insert_self source_id d h =
    elim (Bool-cases (has_entry source_id h.subdistrict_id d.location_hierarchy)) [
      | inl there ↦ rw (insert_entry, there) there
      | inr new ↦
          rw (insert_entry, new)
            (rw
              (
                any-append
                    (λ e. e.location_source_id == source_id && e.subdistrict_id == h.subdistrict_id)
                    d.location_hierarchy (new_entry source_id h ∷ []),
                beq_self source_id,
                beq_self h.subdistrict_id,
              )
              (ground arith))
    ]

has_entry-insert :
    (source_id id : ℕ) (d : LocationDb) (h : HierarchyInsert)
    → has_entry source_id id d.location_hierarchy ≡ true
    → has_entry source_id id (insert_entry source_id d h).location_hierarchy ≡ true
unfolding insert_entry has_entry
has_entry-insert source_id id d h at =
    elim (Bool-cases (has_entry source_id h.subdistrict_id d.location_hierarchy)) [
      | inl there ↦ rw (insert_entry, there) at
      | inr new ↦
          rw (insert_entry, new)
            (rw
              (
                any-append (λ e. e.location_source_id == source_id && e.subdistrict_id == id)
                    d.location_hierarchy (new_entry source_id h ∷ []),
                at,
              )
              refl)
    ]

foldl-keeps :
    (source_id id : ℕ) (hs : List HierarchyInsert) (d : LocationDb)
    → has_entry source_id id d.location_hierarchy ≡ true
    → has_entry source_id id (foldl (insert_entry source_id) d hs).location_hierarchy ≡ true
foldl-keeps source_id id [] d at = at
foldl-keeps source_id id (h ∷ hs) d at =
    foldl-keeps source_id id hs (insert_entry source_id d h) (has_entry-insert source_id id d h at)

foldl-has_entry :
    (source_id id : ℕ) (hs : List HierarchyInsert) (d : LocationDb)
    → any (λ (h : HierarchyInsert). h.subdistrict_id == id) hs ≡ true
    → has_entry source_id id (foldl (insert_entry source_id) d hs).location_hierarchy ≡ true
foldl-has_entry source_id id [] d found = cc
foldl-has_entry source_id id (h ∷ hs) d found = elim (Bool-cases (h.subdistrict_id == id)) [
  | inl here ↦ foldl-keeps source_id id hs (insert_entry source_id d h) (
      subst (λ i. has_entry source_id i (insert_entry source_id d h).location_hierarchy ≡ true)
        (beq→eq h.subdistrict_id id here) (has_entry-insert_self source_id d h))
  | inr other ↦ foldl-has_entry source_id id hs (insert_entry source_id d h) (rw other at found)
]

inserts-any :
    (kode_to_id : List (String × ℕ)) (subs : List (ℕ × String)) (id : ℕ) (kode : String)
    (h : HierarchyInsert)
    → any (λ (s : ℕ × String). s.0 == id && s.1 == kode) subs ≡ true
    → hierarchy_of kode_to_id (id, kode) ≡ some h
    → any (λ (x : HierarchyInsert). x.subdistrict_id == id) (inserts kode_to_id subs) ≡ true
unfolding inserts hierarchy_of
inserts-any kode_to_id [] id kode h found parents = cc
inserts-any kode_to_id ((i, k) ∷ subs) id kode h found parents =
    elim (Bool-cases (i == id && k == kode)) [
      | inl here ↦
          let same_id : i ≡ id = beq→eq i id (ground arith) in
          let same_kode : k ≡ kode = beq→eq k kode (ground arith) in
          let e : hierarchy_of kode_to_id (i, k) ≡ some h = rw (same_id, same_kode) parents in
          rw (inserts, e)
            (rw (parents_of-subdistrict_id kode_to_id (split 46 kode) id h parents, beq_self id)
              refl)
      | inr other ↦
          let later = inserts-any kode_to_id subs id kode h (rw other at found) parents in
          elim (Option-cases (hierarchy_of kode_to_id (i, k))) [
            | inl skipped ↦ rw (inserts, skipped) later
            | inr (x, added) ↦ rw (inserts, added, later) (ground arith)
          ]
    ]

any-map-select :
    (source_id id : ℕ) (kode : String) (codes : List CodeRow)
    → any (is_sub_district source_id id kode) codes ≡ true
    → any
        (λ (s : ℕ × String). s.0 == id && s.1 == kode)
        (map
          (λ (r : CodeRow). (r.id, r.kode))
          (select (λ r. of_source source_id r && at_level 5 r) codes))
      ≡ true
unfolding of_source at_level is_active
any-map-select source_id id kode [] found = cc
any-map-select source_id id kode (r ∷ codes) found =
    elim (Bool-cases (of_source source_id r && at_level 5 r)) [
      | inl kept ↦ rw kept (elim (Bool-cases (r.id == id && r.kode == kode)) [
        | inl here ↦ rw here refl
        | inr other ↦ rw other (any-map-select source_id id kode codes (rw (kept, other) at found))
      ])
      | inr dropped ↦ rw dropped (any-map-select source_id id kode codes (rw dropped at found))
    ]

-- With its parents in the map.
pub rebuilt-has_entry :
    (order : RangeOrder) (source_id id : ℕ) (kode : String) (h : HierarchyInsert) (c : Conn)
    → (rebuild_location_hierarchy order source_id c).0 ≡ some tt
    → any (is_sub_district source_id id kode) c.db.location_codes ≡ true
    → hierarchy_of (kode_map (order.visit _ (parent_rows source_id c.db))) (id, kode) ≡ some h
    → has_entry source_id id (rebuild_location_hierarchy order source_id c).1.db.location_hierarchy
      ≡ true
unfolding rebuilt sub_rows
rebuilt-has_entry order source_id id kode h c succeeded found parents =
    elim (rebuild_location_hierarchy-Does order source_id c) [
      | inl (failed, fault) ↦ cc
      | inr (returned, left, clean) ↦ rw left (
          foldl-has_entry source_id id _ c.db (
            inserts-any _ (order.visit _ (sub_rows source_id c.db)) id kode h
              (any-visit order (λ s. s.0 == id && s.1 == kode) (sub_rows source_id c.db)
                ∙ any-map-select source_id id kode c.db.location_codes found)
              parents))
    ]
