-- ===== src/Database/Hierarchy.antt =====
-- location_hierarchy: how it is rebuilt from the codes of the rows, and how it is loaded.
pub mod Loop
pub mod Load
pub mod Entries
pub mod Parents
pub mod Complete
use mathlib.Core.List.{foldl}
use Prim.Native.String
use address_quality.Prelude.{
  nat_eq, string_eq, none, some, [], ◌∷◌, true, false, ℕ, List, Bool, String, if◌then◌else◌, select,
  ◌&&◌, map, Option, any, ◌++◌, leb, ◌==◌, ◌||◌, not, length,
}
use address_quality.GoMap.{RangeOrder, lookup, insert}
use address_quality.Text.Split.{split}
use address_quality.Model.{HierarchyMap}
use address_quality.Database.{
  LocationDb, CodeRow, HierarchyEntry, Query, ◌>>=◌, ◌>>◌, pure, query, exec, transaction,
}
use address_quality.Database.Sources.{is_active}
use address_quality.Database.Codes.{at_level, of_source, prefix_kode}

pub record HierarchyInsert : Type 0 where
  pub province_id : ℕ
  pub city_id : ℕ
  pub district_id : ℕ
  pub subdistrict_id : ℕ

-- `level_id IN (2, 3, 4)`
unfoldable pub is_parent_row : ℕ → CodeRow → Bool
is_parent_row source_id r = of_source source_id r && (at_level 2 r || at_level 3 r || at_level 4 r)

unfoldable pub parent_rows : ℕ → LocationDb → List (String × ℕ)
parent_rows source_id d =
    map (λ (r : CodeRow). (r.kode, r.id)) (select (is_parent_row source_id) d.location_codes)

-- kodeToID[kode] = id
unfoldable pub kode_map : List (String × ℕ) → List (String × ℕ)
kode_map = foldl (λ m p. insert p.0 p.1 m) []

unfoldable pub sub_rows : ℕ → LocationDb → List (ℕ × String)
sub_rows source_id d =
    map (λ (r : CodeRow). (r.id, r.kode))
      (select (λ r. of_source source_id r && at_level 5 r) d.location_codes)

-- The row of one sub-district: none where the loop continues with the next.
unfoldable pub parents_of : List (String × ℕ) → List String → ℕ → Option HierarchyInsert
parents_of kode_to_id parts id =
    if not (length parts == 4) then none else elim (lookup (prefix_kode 1 parts) kode_to_id) [
      | none ↦ none
      | some province ↦ elim (lookup (prefix_kode 2 parts) kode_to_id) [
        | none ↦ none
        | some city ↦ elim (lookup (prefix_kode 3 parts) kode_to_id) [
          | none ↦ none
          | some district ↦ some (record {
            province_id = province;
            city_id = city;
            district_id = district;
            subdistrict_id = id;
          })
        ]
      ]
    ]

unfoldable pub hierarchy_of : List (String × ℕ) → ℕ × String → Option HierarchyInsert
hierarchy_of kode_to_id (id, kode) = parents_of kode_to_id (split 46 kode) id

-- UNIQUE(location_source_id, subdistrict_id)
unfoldable pub has_entry : ℕ → ℕ → List HierarchyEntry → Bool
has_entry source_id id =
    any (λ (e : HierarchyEntry). e.location_source_id == source_id && e.subdistrict_id == id)

abbrev pub new_entry : ℕ → HierarchyInsert → HierarchyEntry
new_entry source_id h = record {
  location_source_id = source_id;
  province_id = h.province_id;
  city_id = h.city_id;
  district_id = h.district_id;
  subdistrict_id = h.subdistrict_id;
  deleted_at = none;
}

unfoldable pub insert_entry : ℕ → LocationDb → HierarchyInsert → LocationDb
insert_entry source_id d h =
    if has_entry source_id h.subdistrict_id d.location_hierarchy
    then d
    else record d { location_hierarchy = d.location_hierarchy ++ new_entry source_id h ∷ [] }

-- `flush`, which empties `pending`
unfoldable pub flush : ℕ → List HierarchyInsert → Query (Unit {0})
flush source_id [] = pure tt
flush source_id (h ∷ pending) = exec (λ d. foldl (insert_entry source_id) d (h ∷ pending))

unfoldable pub hchunk : ℕ
hchunk = 4000

unfoldable pub insert_loop :
    ℕ → ℕ → List (String × ℕ) → List HierarchyInsert → List (ℕ × String) → Query (Unit {0})
insert_loop size source_id kode_to_id pending [] = flush source_id pending
insert_loop size source_id kode_to_id pending (s ∷ subs) = elim (hierarchy_of kode_to_id s) [
  | none ↦ insert_loop size source_id kode_to_id pending subs
  | some h ↦ elim (leb size (length (pending ++ h ∷ []))) [
    | true ↦ flush source_id (pending ++ h ∷ []) >> insert_loop size source_id kode_to_id [] subs
    | false ↦ insert_loop size source_id kode_to_id (pending ++ h ∷ []) subs
  ]
]

-- `h.CityToProvince[cID] = pID`, and so on
unfoldable pub add_entry : HierarchyMap → HierarchyEntry → HierarchyMap
add_entry h e = record {
  city_to_province = insert e.city_id e.province_id h.city_to_province;
  district_to_city = insert e.district_id e.city_id h.district_to_city;
  sub_district_to_dist = insert e.subdistrict_id e.district_id h.sub_district_to_dist;
}

abbrev pub no_hierarchy : HierarchyMap
no_hierarchy = record { city_to_province = []; district_to_city = []; sub_district_to_dist = [] }

unfoldable pub add_city_province : List (ℕ × ℕ) → HierarchyEntry → List (ℕ × ℕ)
add_city_province mapping e = elim (lookup e.city_id mapping) [
  | some p ↦ mapping
  | none ↦ insert e.city_id e.province_id mapping
]

unfoldable pub entries_of : ℕ → LocationDb → List HierarchyEntry
entries_of source_id d =
    select (λ e. e.location_source_id == source_id && is_active e.deleted_at) d.location_hierarchy

module _ (order : RangeOrder) (source_id : ℕ) where
  unfoldable pub rebuild_location_hierarchy : Query (Unit {0})
  rebuild_location_hierarchy = do
    parents ← query order (parent_rows source_id)
    subs ← query order (sub_rows source_id)
    transaction (insert_loop hchunk source_id (kode_map parents) [] subs)

  unfoldable pub load_full_hierarchy : Query HierarchyMap
  load_full_hierarchy = do
    entries ← query order (entries_of source_id)
    pure (foldl add_entry no_hierarchy entries)

  unfoldable pub load_city_province_mapping : Query (List (ℕ × ℕ))
  load_city_province_mapping = do
    entries ← query order (entries_of source_id)
    pure (foldl add_city_province [] entries)
