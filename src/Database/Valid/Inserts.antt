-- ===== src/Database/Valid/Inserts.antt =====
-- Each statement that writes keeps a database well-formed.
use mathlib.Core.List.{foldl}
use address_quality.Prelude.{
  nat_eq, string_eq, [], ◌∷◌, false, ◌≡◌, refl, List, ℕ, String, All, Bool-cases, ◌<◌, inl, any,
  inr, ◌==◌, All-append, arith, any-append, subst, Bool, sym, select,
}
use address_quality.GoMap.{RangeOrder}
use address_quality.Seeder.{LocationCodeRow}
use address_quality.Database.{LocationDb, CodeRow, HierarchyEntry}
use address_quality.Database.Codes.{insert_code, has_kode, of_source}
use address_quality.Database.Sources.{insert_source, has_source}
use address_quality.Database.Hierarchy.{HierarchyInsert, insert_entry, has_entry, new_entry}
use address_quality.Database.Hierarchy.Loop.{rebuilt}
use address_quality.Database.Priority.{insert_priority, has_priority, delete_priority}
use address_quality.Database.Visited.{All-map_le}
use address_quality.Database.Valid.{
  NoRepeat, NoRepeat-snoc, HasRow, is_row, IsSound, IsValid, same_id,
}
use address_quality.Database.Valid.Sound.{inserts-IsSound, kode_map-HasRow, sub_rows-HasRow}

-- An entry stays sound when rows are added.
pub IsSound-grows :
    (codes more : List CodeRow) (e : HierarchyEntry)
    → ((i id : ℕ) (k : String) → HasRow codes i id k → HasRow more i id k)
    → IsSound codes e
    → IsSound more e
IsSound-grows codes more e grow h = record {
  province_kode = h.province_kode;
  city_kode = h.city_kode;
  district_kode = h.district_kode;
  subdistrict_kode = h.subdistrict_kode;
  province = grow _ _ _ h.province;
  city = grow _ _ _ h.city;
  district = grow _ _ _ h.district;
  subdistrict = grow _ _ _ h.subdistrict;
  city_below = h.city_below;
  district_below = h.district_below;
  subdistrict_below = h.subdistrict_below;
}

-- A new id is none of the ids so far.
fresh :
    (next : ℕ) (codes : List CodeRow)
    → All (λ r. r.id < next) codes
    → any (λ r. r.id == next) codes ≡ false
fresh next [] h = refl
fresh next (r ∷ codes) (here, h) = ground (arith, fresh next codes h)

insert_code-IsValid :
    (source_id : ℕ) (d : LocationDb) (row : LocationCodeRow)
    → IsValid d
    → IsValid (insert_code source_id d row)
unfolding insert_code has_kode of_source
insert_code-IsValid source_id d row v =
    elim (Bool-cases (has_kode source_id row.kode d.location_codes)) [
      | inl there ↦ rw (insert_code, there) v
      | inr new ↦
          rw (insert_code, new)
            (record {
              versions = v.versions;
              ids =
                  NoRepeat-snoc same_id _ d.location_codes
                    (fresh d.next_code_id d.location_codes v.next) v.ids;
              next =
                  All-append _ d.location_codes _
                    (All-map_le _ _ (λ r h. omega arith) d.location_codes v.next) (omega arith, tt);
              kodes = NoRepeat-snoc _ _ d.location_codes new v.kodes;
              subdistricts = v.subdistricts;
              hierarchy =
                  All-map_le _ _
                    (λ e h.
                      IsSound-grows d.location_codes _ e
                        (λ i id k found.
                          rw (any-append (is_row i id k) d.location_codes _, found) refl)
                        h)
                    d.location_hierarchy v.hierarchy;
              priorities = v.priorities;
            })
    ]

pub insert_codes-IsValid :
    (source_id : ℕ) (rows : List LocationCodeRow) (d : LocationDb)
    → IsValid d
    → IsValid (foldl (insert_code source_id) d rows)
insert_codes-IsValid source_id [] d v = v
insert_codes-IsValid source_id (row ∷ rows) d v =
    insert_codes-IsValid source_id rows (insert_code source_id d row)
      (insert_code-IsValid source_id d row v)

pub insert_source-IsValid :
    (code version name code_date desc : String) (d : LocationDb)
    → IsValid d
    → IsValid (insert_source code version name code_date desc d)
unfolding insert_source has_source
insert_source-IsValid code version name code_date desc d v =
    elim (Bool-cases (has_source code version d.location_sources)) [
      | inl there ↦ rw (insert_source, there) v
      | inr new ↦
          rw (insert_source, new)
            (record {
              versions = NoRepeat-snoc _ _ d.location_sources new v.versions;
              ids = v.ids;
              next = v.next;
              kodes = v.kodes;
              subdistricts = v.subdistricts;
              hierarchy = v.hierarchy;
              priorities = v.priorities;
            })
    ]

insert_entry-IsValid :
    (source_id : ℕ) (d : LocationDb) (h : HierarchyInsert)
    → IsSound d.location_codes (new_entry source_id h)
    → IsValid d
    → IsValid (insert_entry source_id d h)
unfolding insert_entry has_entry
insert_entry-IsValid source_id d h sound v =
    elim (Bool-cases (has_entry source_id h.subdistrict_id d.location_hierarchy)) [
      | inl there ↦ rw (insert_entry, there) v
      | inr new ↦
          rw (insert_entry, new)
            (record {
              versions = v.versions;
              ids = v.ids;
              next = v.next;
              kodes = v.kodes;
              subdistricts = NoRepeat-snoc _ _ d.location_hierarchy new v.subdistricts;
              hierarchy = All-append _ d.location_hierarchy _ v.hierarchy (sound, tt);
              priorities = v.priorities;
            })
    ]

-- No entry changes the rows of the codes.
insert_entry-codes :
    (source_id : ℕ) (d : LocationDb) (h : HierarchyInsert)
    → (insert_entry source_id d h).location_codes ≡ d.location_codes
unfolding insert_entry
insert_entry-codes source_id d h =
    elim (Bool-cases (has_entry source_id h.subdistrict_id d.location_hierarchy)) [
      | inl there ↦ rw (insert_entry, there) refl
      | inr new ↦ rw (insert_entry, new) refl
    ]

insert_entries-IsValid :
    (source_id : ℕ) (hs : List HierarchyInsert) (d : LocationDb)
    → All (λ h. IsSound d.location_codes (new_entry source_id h)) hs
    → IsValid d
    → IsValid (foldl (insert_entry source_id) d hs)
insert_entries-IsValid source_id [] d sound v = v
insert_entries-IsValid source_id (h ∷ hs) d (here, sound) v =
    insert_entries-IsValid source_id hs (insert_entry source_id d h)
      (subst (λ codes. All (λ x. IsSound codes (new_entry source_id x)) hs)
        (sym (insert_entry-codes source_id d h)) sound)
      (insert_entry-IsValid source_id d h here v)

pub rebuilt-IsValid :
    (order : RangeOrder) (source_id : ℕ) (d : LocationDb)
    → IsValid d
    → IsValid (rebuilt order source_id d)
unfolding rebuilt
rebuilt-IsValid order source_id d v =
    insert_entries-IsValid source_id _ d
      (inserts-IsSound d.location_codes source_id _ _ (kode_map-HasRow order source_id d)
        (sub_rows-HasRow order source_id d))
      v

pub insert_priority-IsValid :
    (source_id : ℕ) (d : LocationDb) (p : String × String)
    → IsValid d
    → IsValid (insert_priority source_id d p)
unfolding insert_priority has_priority
insert_priority-IsValid source_id d (text, kind) v =
    elim (Bool-cases (has_priority source_id text d.location_city_priority)) [
      | inl there ↦ rw (insert_priority, there) v
      | inr new ↦
          rw (insert_priority, new)
            (record {
              versions = v.versions;
              ids = v.ids;
              next = v.next;
              kodes = v.kodes;
              subdistricts = v.subdistricts;
              hierarchy = v.hierarchy;
              priorities = NoRepeat-snoc _ _ d.location_city_priority new v.priorities;
            })
    ]

any-select :
    {A : Type 0} (p t : A → Bool) (xs : List A) → any p xs ≡ false → any p (select t xs) ≡ false
any-select p t [] h = refl
any-select p t (x ∷ xs) h = ground (arith, any-select p t xs)

NoRepeat-select :
    {A : Type 0} (same : A → A → Bool) (t : A → Bool) (xs : List A)
    → NoRepeat same xs
    → NoRepeat same (select t xs)
NoRepeat-select same t [] h = tt
NoRepeat-select same t (x ∷ xs) (first, h) = elim (Bool-cases (t x)) [
  | inl kept ↦ rw kept (any-select (same x) t xs first, NoRepeat-select same t xs h)
  | inr dropped ↦ rw dropped (NoRepeat-select same t xs h)
]

pub delete_priority-IsValid :
    (source_id : ℕ) (d : LocationDb) → IsValid d → IsValid (delete_priority source_id d)
unfolding delete_priority
delete_priority-IsValid source_id d v = record {
  versions = v.versions;
  ids = v.ids;
  next = v.next;
  kodes = v.kodes;
  subdistricts = v.subdistricts;
  hierarchy = v.hierarchy;
  priorities = NoRepeat-select _ _ d.location_city_priority v.priorities;
}
