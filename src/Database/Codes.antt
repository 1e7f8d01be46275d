-- ===== src/Database/Codes.antt =====
-- The rows of location_codes: how they are read by level and by postal code, and how a batch of
-- them is inserted.
pub mod Batch
use mathlib.Core.List.{foldl}
use mathlib.Core.Option
use Prim.Native.String
use address_quality.Prelude.{
  nat_eq, string_eq, none, some, [], ◌∷◌, true, false, Option, ℕ, String, List, Bool, if◌then◌else◌,
  take, map, select, ◌==◌, length, any, ◌++◌, ◌&&◌, ◌+◌,
}
use address_quality.GoMap.{RangeOrder}
use address_quality.Model.{Location}
use address_quality.Normalizer.{normalize}
use address_quality.Chunks.{chunks}
use address_quality.Text.Split.{split}
use address_quality.Text.{join}
use address_quality.Seeder.{LocationCodeRow}
use address_quality.Cache.{ProvinceRow, CityRow, DistrictRow, SubDistrictRow}
use address_quality.Database.{
  LocationDb, CodeRow, Query, ◌>>=◌, ◌>>◌, pure, query, select_row, exec, transaction, Conn,
}
use address_quality.Database.Sources.{is_active}

-- COALESCE(postal_code, '')
unfoldable pub coalesce : Option String → String
coalesce o = Option.get_or o ""

-- `level_id = ? AND deleted_at IS NULL`
unfoldable pub at_level : ℕ → CodeRow → Bool
at_level level r = r.level_id == level && is_active r.deleted_at

unfoldable pub of_source : ℕ → CodeRow → Bool
of_source source_id r = r.location_source_id == source_id

unfoldable pub scan_province : CodeRow → ProvinceRow
scan_province r = record {
  id = r.id;
  source_id = r.location_source_id;
  kode = r.kode;
  name = r.name;
  lowercase_normalized = r.lowercase_normalized;
}

unfoldable pub scan_city : CodeRow → CityRow
scan_city r = record {
  id = r.id;
  source_id = r.location_source_id;
  kode = r.kode;
  name = r.name;
  lowercase_normalized = r.lowercase_normalized;
  postal_code = coalesce r.postal_code;
}

unfoldable pub scan_district : CodeRow → DistrictRow
scan_district r = record {
  id = r.id;
  source_id = r.location_source_id;
  kode = r.kode;
  name = r.name;
  lowercase_normalized = r.lowercase_normalized;
}

unfoldable pub scan_sub_district : CodeRow → SubDistrictRow
scan_sub_district r = record {
  id = r.id;
  source_id = r.location_source_id;
  kode = r.kode;
  name = r.name;
  lowercase_normalized = r.lowercase_normalized;
  postal_code = coalesce r.postal_code;
}

-- `kode = ? AND location_source_id = ? AND deleted_at IS NULL`
unfoldable pub name_of : String → ℕ → List CodeRow → Option String
name_of kode source_id [] = none
name_of kode source_id (r ∷ rows) =
    let later = name_of kode source_id rows in
    if r.kode == kode && of_source source_id r && is_active r.deleted_at then some r.name else later

-- A lookup whose error is only logged: the field stays empty.
unfoldable pub or_empty : Query String → Query String
or_empty m c = let (r, c') = m c in (some (Option.get_or r ""), c')

-- The first n parts of a code, with the points between them.
unfoldable pub prefix_kode : ℕ → List String → String
prefix_kode n parts = join "." (take n parts)

-- The cases of the switch; 4 falls through to 3, 3 to 2.
unfoldable pub add_province : ℕ → List String → Location → Query Location
add_province source_id parts loc = do
  n ← or_empty (select_row (λ d. name_of (prefix_kode 1 parts) source_id d.location_codes))
  pure (record loc { province = n })

unfoldable pub add_city : ℕ → List String → Location → Query Location
add_city source_id parts loc = do
  n ← or_empty (select_row (λ d. name_of (prefix_kode 2 parts) source_id d.location_codes))
  add_province source_id parts (record loc { city = n })

unfoldable pub add_district : ℕ → List String → Location → Query Location
add_district source_id parts loc = do
  n ← or_empty (select_row (λ d. name_of (prefix_kode 3 parts) source_id d.location_codes))
  add_city source_id parts (record loc { district = n })

unfoldable pub add_parents : ℕ → List String → Location → Query Location
add_parents source_id parts loc =
    if length parts == 4
    then add_district source_id parts loc
    else if length parts == 3
    then add_city source_id parts loc
    else if length parts == 2
    then add_province source_id parts loc
    else pure loc

unfoldable pub has_postal_code : String → CodeRow → Bool
has_postal_code postal_code r = elim r.postal_code [ none ↦ false | some p ↦ p == postal_code ]

abbrev pub row_location : CodeRow → Location
row_location r = record {
  sub_district = r.name;
  district = "";
  city = "";
  province = "";
  postal_code = coalesce r.postal_code;
}

unfoldable pub scan_postal : ℕ → List CodeRow → Query (List Location)
scan_postal source_id [] = pure []
scan_postal source_id (r ∷ rows) = do
  loc ← add_parents source_id (split 46 r.kode) (row_location r)
  rest ← scan_postal source_id rows
  pure (loc ∷ rest)

unfoldable pub is_postal_row : String → ℕ → CodeRow → Bool
is_postal_row postal_code source_id r =
    has_postal_code postal_code r && of_source source_id r && is_active r.deleted_at

-- INSERT INTO location_codes: a row whose source and code are there is left out.
unfoldable pub has_kode : ℕ → String → List CodeRow → Bool
has_kode source_id kode = any (λ r. of_source source_id r && r.kode == kode)

unfoldable pub insert_code : ℕ → LocationDb → LocationCodeRow → LocationDb
insert_code source_id d row = if has_kode source_id row.kode d.location_codes then d else record d {
  location_codes =
      d.location_codes
      ++ (record {
        id = d.next_code_id;
        location_source_id = source_id;
        kode = row.kode;
        name = row.name;
        lowercase_normalized = normalize row.name;
        level_id = row.level_id;
        postal_code = some row.postal_code;
        updated_at = none;
        deleted_at = none;
      })
        ∷ [];
  next_code_id = d.next_code_id + 1;
}

unfoldable pub insert_chunks : ℕ → List (List LocationCodeRow) → Query (Unit {0})
insert_chunks source_id [] = pure tt
insert_chunks source_id (chunk ∷ rest) =
    exec (λ d. foldl (insert_code source_id) d chunk) >> insert_chunks source_id rest

unfoldable pub chunk_size : ℕ
chunk_size = 4000

unfoldable pub insert_location_code_batch : ℕ → List LocationCodeRow → Query (Unit {0})
insert_location_code_batch source_id [] = pure tt
insert_location_code_batch source_id (r ∷ rows) =
    transaction (insert_chunks source_id (chunks chunk_size (r ∷ rows)))

module _ (order : RangeOrder) where
  unfoldable pub find_all_provinces : Query (List ProvinceRow)
  find_all_provinces = query order (λ d. map scan_province (select (at_level 2) d.location_codes))

  unfoldable pub find_all_cities : Query (List CityRow)
  find_all_cities = query order (λ d. map scan_city (select (at_level 3) d.location_codes))

  unfoldable pub find_all_districts : ℕ → Query (List DistrictRow)
  find_all_districts source_id = query order (λ d.
      map scan_district (select (λ r. at_level 4 r && of_source source_id r) d.location_codes))

  unfoldable pub find_all_sub_districts : ℕ → Query (List SubDistrictRow)
  find_all_sub_districts source_id = query order (λ d.
      map scan_sub_district (select (λ r. at_level 5 r && of_source source_id r) d.location_codes))

  unfoldable pub find_by_postal_code : String → ℕ → Query (List Location)
  find_by_postal_code postal_code source_id =
      query order (λ d. select (is_postal_row postal_code source_id) d.location_codes)
      >>= scan_postal source_id
