-- ===== src/Database/Hierarchy/Load.antt =====
-- What `LoadFullHierarchy` makes of a well-formed database.
use mathlib.Core.List.{foldl, Memᴰ}
use address_quality.Prelude.{
  nat_eq, string_eq, some, inl, inr, [], ◌∷◌, true, ◌≡◌, refl, List, ℕ, Bool, String, All, ◌==◌,
  beq→eq, Bool-cases, subst, ◌&&◌, arith, sym, any, beq_self,
}
use address_quality.GoMap.{RangeOrder, insert}
use address_quality.Model.{HierarchyMap}
use address_quality.Database.{LocationDb, CodeRow, HierarchyEntry, Conn, pure, query}
use address_quality.Database.Does.{Does, bind-Does, query-Does, pure-Does}
use address_quality.Database.Visited.{All-any, AllPass-visit, Mem-any, All-map_le, AllPass-kept}
use address_quality.Database.Hierarchy.{add_entry, no_hierarchy, entries_of, load_full_hierarchy}
use address_quality.Database.Valid.{HasRow, IsBelow, IsSound, IsValid}

-- A link of a map from ids to the ids above them: the code of the first row is that of the second, a
-- point and more.
abbrev pub IsLink : List CodeRow → ℕ → ℕ × ℕ → Type 0
IsLink codes source_id (id, parent) =
    (kode : String) × (parent_kode : String) × HasRow codes source_id id kode
    × HasRow codes source_id parent parent_kode
    × IsBelow parent_kode kode

-- Every entry of the three maps is a link.
pub record IsTree (codes : List CodeRow) (source_id : ℕ) (h : HierarchyMap) : Type 0 where
  pub cities : All (IsLink codes source_id) h.city_to_province
  pub districts : All (IsLink codes source_id) h.district_to_city
  pub sub_districts : All (IsLink codes source_id) h.sub_district_to_dist

All-insert :
    (P : ℕ × ℕ → Type 0) (k v : ℕ) (m : List (ℕ × ℕ)) → P (k, v) → All P m → All P (insert k v m)
unfolding insert
All-insert P k v [] here h = (here, tt)
All-insert P k v ((j, w) ∷ m) here (first, h) = elim (Bool-cases (j == k)) [
  | inl same ↦ rw (insert, same) (subst (λ i. P (i, v)) (sym (beq→eq j k same)) here, h)
  | inr other ↦ rw (insert, other) (first, All-insert P k v m here h)
]

abbrev IsOwn : ℕ → HierarchyEntry → Type 0
IsOwn source_id e = e.location_source_id ≡ source_id

add_entry-IsTree :
    (codes : List CodeRow) (source_id : ℕ) (h : HierarchyMap) (e : HierarchyEntry)
    → IsSound codes e
    → IsOwn source_id e
    → IsTree codes source_id h
    → IsTree codes source_id (add_entry h e)
unfolding add_entry
add_entry-IsTree codes source_id h e s own t =
    let own_row : (id : ℕ) (k : String)
        → HasRow codes e.location_source_id id k
        → HasRow codes source_id id k =
      λ id k row. subst (λ i. HasRow codes i id k) own row in
    record {
      cities =
          All-insert _ e.city_id e.province_id h.city_to_province
            (s.city_kode, s.province_kode, own_row _ _ s.city, own_row _ _ s.province, s.city_below)
            t.cities;
      districts =
          All-insert _ e.district_id e.city_id h.district_to_city
            (
              s.district_kode,
              s.city_kode,
              own_row _ _ s.district,
              own_row _ _ s.city,
              s.district_below,
            )
            t.districts;
      sub_districts =
          All-insert _ e.subdistrict_id e.district_id h.sub_district_to_dist
            (
              s.subdistrict_kode,
              s.district_kode,
              own_row _ _ s.subdistrict,
              own_row _ _ s.district,
              s.subdistrict_below,
            )
            t.sub_districts;
    }

add_entries-IsTree :
    (codes : List CodeRow) (source_id : ℕ) (entries : List HierarchyEntry) (h : HierarchyMap)
    → All (λ e. IsSound codes e × IsOwn source_id e) entries
    → IsTree codes source_id h
    → IsTree codes source_id (foldl add_entry h entries)
add_entries-IsTree codes source_id [] h all t = t
add_entries-IsTree codes source_id (e ∷ entries) h ((sound, own), all) t =
    add_entries-IsTree codes source_id entries (add_entry h e) all
      (add_entry-IsTree codes source_id h e sound own t)

-- The columns that the query reads, and the source.
abbrev same_links : HierarchyEntry → HierarchyEntry → Bool
same_links e f =
    e.location_source_id == f.location_source_id
    && e.province_id == f.province_id
    && e.city_id == f.city_id
    && e.district_id == f.district_id
    && e.subdistrict_id == f.subdistrict_id

same_links-IsSound :
    (codes : List CodeRow) (e f : HierarchyEntry)
    → same_links e f ≡ true
    → IsSound codes f
    → IsSound codes e
same_links-IsSound codes e f same s =
    let i : e.location_source_id ≡ f.location_source_id = beq→eq _ _ (ground arith) in
    let p : e.province_id ≡ f.province_id = beq→eq _ _ (ground arith) in
    let c : e.city_id ≡ f.city_id = beq→eq _ _ (ground arith) in
    let d : e.district_id ≡ f.district_id = beq→eq _ _ (ground arith) in
    let u : e.subdistrict_id ≡ f.subdistrict_id = beq→eq _ _ (ground arith) in
    record {
      province_kode = s.province_kode;
      city_kode = s.city_kode;
      district_kode = s.district_kode;
      subdistrict_kode = s.subdistrict_kode;
      province = rw (i, p) s.province;
      city = rw (i, c) s.city;
      district = rw (i, d) s.district;
      subdistrict = rw (i, u) s.subdistrict;
      city_below = s.city_below;
      district_below = s.district_below;
      subdistrict_below = s.subdistrict_below;
    }

All-Mem : {A : Type 0} (P : A → Type 0) (l : List A) (a : A) → All P l → Memᴰ a l → P a
All-Mem P [] a h m = elim m [ ]
All-Mem P (x ∷ l) a (p, h) (Memᴰ.head e) = subst P (sym e) p
All-Mem P (x ∷ l) a (p, h) (Memᴰ.tail m) = All-Mem P l a h m

-- A row of the table, of this source.
abbrev is_entry : ℕ → List HierarchyEntry → HierarchyEntry → Bool
is_entry source_id table e = any (same_links e) table && e.location_source_id == source_id

is_entry-IsSound :
    (source_id : ℕ) (d : LocationDb) (e : HierarchyEntry)
    → All (IsSound d.location_codes) d.location_hierarchy
    → is_entry source_id d.location_hierarchy e ≡ true
    → IsSound d.location_codes e × IsOwn source_id e
is_entry-IsSound source_id d e sound found =
    let there : any (same_links e) d.location_hierarchy ≡ true = ground arith in
    let (f, mem, same) = Mem-any (same_links e) d.location_hierarchy there in
    (
      same_links-IsSound d.location_codes e f same (All-Mem _ d.location_hierarchy f sound mem),
      beq→eq e.location_source_id source_id (ground arith),
    )

same_links_self : (e : HierarchyEntry) → same_links e e ≡ true
same_links_self e =
    rw
      (
        beq_self e.location_source_id,
        beq_self e.province_id,
        beq_self e.city_id,
        beq_self e.district_id,
        beq_self e.subdistrict_id,
      )
      refl

-- The entries as they are returned are entries of the table.
entries_of-IsSound :
    (order : RangeOrder) (source_id : ℕ) (d : LocationDb)
    → All (IsSound d.location_codes) d.location_hierarchy
    → All
        (λ e. IsSound d.location_codes e × IsOwn source_id e)
        (order.visit _ (entries_of source_id d))
unfolding entries_of
entries_of-IsSound order source_id d sound =
    All-map_le _ _ (λ e found. is_entry-IsSound source_id d e sound found)
      (order.visit _ (entries_of source_id d))
      (AllPass-visit order (is_entry source_id d.location_hierarchy) (entries_of source_id d) (
        AllPass-kept (is_entry source_id d.location_hierarchy) _ d.location_hierarchy (
          All-map_le _ _ (λ e there kept. ground arith) d.location_hierarchy
            (All-any same_links same_links_self d.location_hierarchy))))

-- What `LoadFullHierarchy` returns.
pub load_full_hierarchy-Does :
    (order : RangeOrder) (source_id : ℕ)
    → Does
        (load_full_hierarchy order source_id)
        (λ d. foldl add_entry no_hierarchy (order.visit _ (entries_of source_id d)))
        (λ d. d)
unfolding load_full_hierarchy
load_full_hierarchy-Does order source_id =
    bind-Does (query order (entries_of source_id))
      (λ entries. pure (foldl add_entry no_hierarchy entries))
      (λ d. order.visit _ (entries_of source_id d)) (λ d. d)
      (λ entries d. foldl add_entry no_hierarchy entries) (λ entries d. d)
      (query-Does order (entries_of source_id))
      (λ entries. pure-Does (foldl add_entry no_hierarchy entries))

-- The hierarchy map that is loaded from a well-formed database is a tree of codes: in each of its
-- three maps every entry goes from the id of a row of the source to the id of a row of the source
-- whose code, with a point and more behind it, is the code of the first.
pub load_full_hierarchy-IsTree :
    (order : RangeOrder) (source_id : ℕ) (c : Conn) (h : HierarchyMap)
    → IsValid c.db
    → (load_full_hierarchy order source_id c).0 ≡ some h
    → IsTree c.db.location_codes source_id h
load_full_hierarchy-IsTree order source_id c h v loaded =
    elim (load_full_hierarchy-Does order source_id c) [
      | inl (failed, fault) ↦ cc
      | inr (returned, left, clean) ↦
          let same : foldl add_entry no_hierarchy (order.visit _ (entries_of source_id c.db)) ≡ h =
            cc in
          subst (IsTree c.db.location_codes source_id) same (
            add_entries-IsTree c.db.location_codes source_id
              (order.visit _ (entries_of source_id c.db)) no_hierarchy
              (entries_of-IsSound order source_id c.db v.hierarchy)
              (record { cities = tt; districts = tt; sub_districts = tt }))
    ]
