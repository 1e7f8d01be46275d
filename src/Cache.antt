-- ===== src/Cache.antt =====
-- The in-memory caches of internal/service/service.go and how internal/service/validate_helper.go
-- loads them from the rows of internal/database/location.go. The rows are what the SQL queries
-- return; the queries are not modelled.
pub mod Keyed
use Prim.Native.String
use mathlib.Core.Option
use mathlib.Core.List.{foldl}
use address_quality.Prelude.{
  ℕ, String, Option, none, some, List, [], ◌∷◌, ◌++◌, ℤ, pos, nat_eq, string_eq,
}
use address_quality.GoMap.{lookup, insert}
use address_quality.Itoa.{itoa}
use address_quality.Model.{HierarchyMap}
use address_quality.Normalizer.{normalize}

pub record ProvinceRow : Type 0 where
  pub id : ℕ
  pub source_id : ℕ
  pub kode : String
  pub name : String
  pub lowercase_normalized : String

pub record CityRow : Type 0 where
  pub id : ℕ
  pub source_id : ℕ
  pub kode : String
  pub name : String
  pub lowercase_normalized : String
  pub postal_code : String

pub record DistrictRow : Type 0 where
  pub id : ℕ
  pub source_id : ℕ
  pub kode : String
  pub name : String
  pub lowercase_normalized : String

pub record SubDistrictRow : Type 0 where
  pub id : ℕ
  pub source_id : ℕ
  pub kode : String
  pub name : String
  pub lowercase_normalized : String
  pub postal_code : String

pub record ProvinceEntry : Type 0 where
  pub id : ℕ
  pub name : String
  pub kode : String

pub record CityEntry : Type 0 where
  pub id : ℕ
  pub name : String
  pub kode : String
  pub postal_code : String

pub record DistrictEntry : Type 0 where
  pub id : ℕ
  pub name : String
  pub kode : String

pub record SubDistrictEntry : Type 0 where
  pub id : ℕ
  pub name : String
  pub kode : String
  pub postal_code : String

-- The part of `Service` that candidates are built from.
pub record Caches : Type 0 where
  pub hierarchy_cache : Option HierarchyMap
  pub province_cache : List (String × List ProvinceEntry)
  pub province_by_id : List (ℕ × ProvinceEntry)
  pub province_kode_to_entry : List (String × ProvinceEntry)
  pub city_cache : List (String × List CityEntry)
  pub city_by_id : List (ℕ × CityEntry)
  pub district_cache : List (String × List DistrictEntry)
  pub district_by_id : List (ℕ × DistrictEntry)
  pub sub_district_cache : List (String × List SubDistrictEntry)
  pub sub_district_by_id : List (ℕ × SubDistrictEntry)

abbrev pub no_caches : Caches
no_caches = record {
  hierarchy_cache = none;
  province_cache = [];
  province_by_id = [];
  province_kode_to_entry = [];
  city_cache = [];
  city_by_id = [];
  district_cache = [];
  district_by_id = [];
  sub_district_cache = [];
  sub_district_by_id = [];
}

-- fmt.Sprintf("%d:%s", sourceID, text)
unfoldable pub source_key : ℕ → String → String
unfolding itoa
source_key source_id text = String.◌++◌ (itoa (pos source_id)) (String.◌++◌ ":" text)

-- cache[key] = append(cache[key], entry)
abbrev pub append_at {ℓ} :
    {V : Type ℓ} → String → V → List (String × List V) → List (String × List V)
append_at key v cache = insert key (Option.get_or (lookup key cache) [] ++ v ∷ []) cache

-- One row of the loop of each loader; the loader runs it over the rows on empty maps.
unfoldable pub load_province : Caches → ProvinceRow → Caches
load_province s r =
    let entry : ProvinceEntry = record { id = r.id; name = r.name; kode = r.kode } in
    record s {
      province_cache = append_at (source_key r.source_id (normalize r.name)) entry s.province_cache;
      province_kode_to_entry =
          insert (source_key r.source_id r.kode) entry s.province_kode_to_entry;
      province_by_id = insert r.id entry s.province_by_id;
    }

unfoldable pub load_city : Caches → CityRow → Caches
load_city s r =
    let entry : CityEntry = record {
      id = r.id;
      name = r.name;
      kode = r.kode;
      postal_code = r.postal_code;
    } in
    record s {
      city_cache = append_at (source_key r.source_id (normalize r.name)) entry s.city_cache;
      city_by_id = insert r.id entry s.city_by_id;
    }

unfoldable pub load_district : Caches → DistrictRow → Caches
load_district s r =
    let entry : DistrictEntry = record { id = r.id; name = r.name; kode = r.kode } in
    record s {
      district_cache = append_at (source_key r.source_id (normalize r.name)) entry s.district_cache;
      district_by_id = insert r.id entry s.district_by_id;
    }

unfoldable pub load_sub_district : Caches → SubDistrictRow → Caches
load_sub_district s r =
    let entry : SubDistrictEntry = record {
      id = r.id;
      name = r.name;
      kode = r.kode;
      postal_code = r.postal_code;
    } in
    record s {
      sub_district_cache =
          append_at (source_key r.source_id (normalize r.name)) entry s.sub_district_cache;
      sub_district_by_id = insert r.id entry s.sub_district_by_id;
    }

-- The loaders. A failed query leaves the caches as they were.
unfoldable pub load_provinces : Option (List ProvinceRow) → Caches → Caches
load_provinces none s = s
load_provinces (some rows) s =
    foldl load_province
      (record s { province_cache = []; province_kode_to_entry = []; province_by_id = [] }) rows

unfoldable pub load_cities : Option (List CityRow) → Caches → Caches
load_cities none s = s
load_cities (some rows) s = foldl load_city (record s { city_cache = []; city_by_id = [] }) rows

unfoldable pub load_districts : Option (List DistrictRow) → Caches → Caches
load_districts none s = s
load_districts (some rows) s =
    foldl load_district (record s { district_cache = []; district_by_id = [] }) rows

unfoldable pub load_sub_districts : Option (List SubDistrictRow) → Caches → Caches
load_sub_districts none s = s
load_sub_districts (some rows) s =
    foldl load_sub_district (record s { sub_district_cache = []; sub_district_by_id = [] }) rows

unfoldable pub load_hierarchy : Option HierarchyMap → Caches → Caches
load_hierarchy none s = s
load_hierarchy (some h) s = record s { hierarchy_cache = some h }

-- The first run of `ensureEntitiesCachesLoaded` of internal/service/resolve.go, which stops at the
-- first error; the loads after it are not made. The city priority, which is loaded last, is no part
-- of these caches; Validate/Ensure has it, and the once-guards.
unfoldable pub load_all :
    Option (List ProvinceRow)
    → Option (List CityRow)
    → Option (List DistrictRow)
    → Option (List SubDistrictRow)
    → Option HierarchyMap
    → Caches
    → Caches
load_all none cities districts sub_districts h s = s
load_all (some p) none districts sub_districts h s = load_provinces (some p) s
load_all (some p) (some c) none sub_districts h s = load_cities (some c) (load_provinces (some p) s)
load_all (some p) (some c) (some d) none h s =
    load_districts (some d) (load_cities (some c) (load_provinces (some p) s))
load_all (some p) (some c) (some d) (some t) h s = load_hierarchy h (
    load_sub_districts (some t)
      (load_districts (some d) (load_cities (some c) (load_provinces (some p) s))))
