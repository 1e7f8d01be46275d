-- ===== src/Cache/Keyed.antt =====
-- The maps by id and the ids of their entries.
use mathlib.Core.List.{foldl}
use address_quality.Prelude.{
  ℕ, ◌≡◌, Option, none, some, List, [], ◌∷◌, ◌==◌, nat_eq, Bool-cases, inl, inr, beq→eq,
}
use address_quality.GoMap.{lookup, insert}
use address_quality.GoMap.Laws.{lookup-insert_self, lookup-insert_ne}
use address_quality.Cache.{
  ProvinceRow, CityRow, DistrictRow, SubDistrictRow, ProvinceEntry, CityEntry, DistrictEntry,
  SubDistrictEntry, Caches, no_caches, load_province, load_city, load_district, load_sub_district,
  load_provinces, load_cities, load_districts, load_sub_districts, load_hierarchy, load_all,
  HierarchyMap,
}

module _ {E : Type 0} (id : E → ℕ) where
  -- Each entry is under its own id.
  abbrev pub IsKeyed : List (ℕ × E) → Type 0
  IsKeyed m = (k : ℕ) (e : E) → lookup k m ≡ some e → id e ≡ k

  IsKeyed-nil : IsKeyed []
  unfolding lookup
  IsKeyed-nil k e found = cc

  IsKeyed-insert : (e : E) (m : List (ℕ × E)) → IsKeyed m → IsKeyed (insert (id e) e m)
  IsKeyed-insert e m h k e' found = elim (Bool-cases (id e == k)) [
    | inl same ↦ cc (beq→eq (id e) k same, lookup-insert_self (id e) e m)
    | inr other ↦ h k e' (rw (lookup-insert_ne (id e) k e m other) at found)
  ]

pub record IsWellKeyed (s : Caches) : Type 0 where
  pub provinces : IsKeyed (λ (e : ProvinceEntry). e.id) s.province_by_id
  pub cities : IsKeyed (λ (e : CityEntry). e.id) s.city_by_id
  pub districts : IsKeyed (λ (e : DistrictEntry). e.id) s.district_by_id
  pub sub_districts : IsKeyed (λ (e : SubDistrictEntry). e.id) s.sub_district_by_id

pub IsWellKeyed-no_caches : IsWellKeyed no_caches
IsWellKeyed-no_caches = record {
  provinces = IsKeyed-nil _;
  cities = IsKeyed-nil _;
  districts = IsKeyed-nil _;
  sub_districts = IsKeyed-nil _;
}

foldl-keeps :
    {R : Type 0} (P : Caches → Type 0) (step : Caches → R → Caches)
    → ((s : Caches) (r : R) → P s → P (step s r))
    → (rows : List R) (s : Caches) → P s
    → P (foldl step s rows)
foldl-keeps P step keep [] s h = h
foldl-keeps P step keep (r ∷ rows) s h = foldl-keeps P step keep rows (step s r) (keep s r h)

load_provinces-IsWellKeyed :
    (rows : Option (List ProvinceRow)) (s : Caches)
    → IsWellKeyed s
    → IsWellKeyed (load_provinces rows s)
unfolding load_provinces load_province
load_provinces-IsWellKeyed none s h = h
load_provinces-IsWellKeyed (some rows) s h =
    foldl-keeps IsWellKeyed load_province
      (λ s r k. record {
        provinces = IsKeyed-insert _ _ _ k.provinces;
        cities = k.cities;
        districts = k.districts;
        sub_districts = k.sub_districts;
      })
      rows _
      (record {
        provinces = IsKeyed-nil _;
        cities = h.cities;
        districts = h.districts;
        sub_districts = h.sub_districts;
      })

load_cities-IsWellKeyed :
    (rows : Option (List CityRow)) (s : Caches) → IsWellKeyed s → IsWellKeyed (load_cities rows s)
unfolding load_cities load_city
load_cities-IsWellKeyed none s h = h
load_cities-IsWellKeyed (some rows) s h =
    foldl-keeps IsWellKeyed load_city
      (λ s r k. record {
        provinces = k.provinces;
        cities = IsKeyed-insert _ _ _ k.cities;
        districts = k.districts;
        sub_districts = k.sub_districts;
      })
      rows _
      (record {
        provinces = h.provinces;
        cities = IsKeyed-nil _;
        districts = h.districts;
        sub_districts = h.sub_districts;
      })

load_districts-IsWellKeyed :
    (rows : Option (List DistrictRow)) (s : Caches)
    → IsWellKeyed s
    → IsWellKeyed (load_districts rows s)
unfolding load_districts load_district
load_districts-IsWellKeyed none s h = h
load_districts-IsWellKeyed (some rows) s h =
    foldl-keeps IsWellKeyed load_district
      (λ s r k. record {
        provinces = k.provinces;
        cities = k.cities;
        districts = IsKeyed-insert _ _ _ k.districts;
        sub_districts = k.sub_districts;
      })
      rows _
      (record {
        provinces = h.provinces;
        cities = h.cities;
        districts = IsKeyed-nil _;
        sub_districts = h.sub_districts;
      })

load_sub_districts-IsWellKeyed :
    (rows : Option (List SubDistrictRow)) (s : Caches)
    → IsWellKeyed s
    → IsWellKeyed (load_sub_districts rows s)
unfolding load_sub_districts load_sub_district
load_sub_districts-IsWellKeyed none s h = h
load_sub_districts-IsWellKeyed (some rows) s h =
    foldl-keeps IsWellKeyed load_sub_district
      (λ s r k. record {
        provinces = k.provinces;
        cities = k.cities;
        districts = k.districts;
        sub_districts = IsKeyed-insert _ _ _ k.sub_districts;
      })
      rows _
      (record {
        provinces = h.provinces;
        cities = h.cities;
        districts = h.districts;
        sub_districts = IsKeyed-nil _;
      })

load_hierarchy-IsWellKeyed :
    (h : Option HierarchyMap) (s : Caches) → IsWellKeyed s → IsWellKeyed (load_hierarchy h s)
unfolding load_hierarchy
load_hierarchy-IsWellKeyed none s k = k
load_hierarchy-IsWellKeyed (some h) s k = record {
  provinces = k.provinces;
  cities = k.cities;
  districts = k.districts;
  sub_districts = k.sub_districts;
}

-- Whatever the queries return, and at whichever loader the loading stops with an error, each map by id holds every entry under
-- the entry's own id.
pub load_all-IsWellKeyed :
    (provinces : Option (List ProvinceRow)) (cities : Option (List CityRow))
    (districts : Option (List DistrictRow)) (sub_districts : Option (List SubDistrictRow))
    (h : Option HierarchyMap)
    → IsWellKeyed (load_all provinces cities districts sub_districts h no_caches)
unfolding load_all
load_all-IsWellKeyed none c d t h = IsWellKeyed-no_caches
load_all-IsWellKeyed (some p) none d t h =
    load_provinces-IsWellKeyed (some p) _ IsWellKeyed-no_caches
load_all-IsWellKeyed (some p) (some c) none t h =
    load_cities-IsWellKeyed (some c) _ (load_provinces-IsWellKeyed (some p) _ IsWellKeyed-no_caches)
load_all-IsWellKeyed (some p) (some c) (some d) none h = load_districts-IsWellKeyed (some d) _ (
    load_cities-IsWellKeyed (some c) _
      (load_provinces-IsWellKeyed (some p) _ IsWellKeyed-no_caches))
load_all-IsWellKeyed (some p) (some c) (some d) (some t) h = load_hierarchy-IsWellKeyed h _ (
    load_sub_districts-IsWellKeyed (some t) _ (
      load_districts-IsWellKeyed (some d) _ (
        load_cities-IsWellKeyed (some c) _
          (load_provinces-IsWellKeyed (some p) _ IsWellKeyed-no_caches))))
