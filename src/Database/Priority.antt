-- ===== src/Database/Priority.antt =====
-- location_city_priority: the names of cities that districts or sub-districts have too.

use address_quality.Prelude.{
  nat_eq, string_eq, none, [], ◌∷◌, List, ℕ, String, select, if◌then◌else◌, Bool, map, not,
  contains, ◌&&◌, any, ◌==◌, ◌++◌, ◌||◌,
}
use address_quality.GoMap.{RangeOrder}
use address_quality.Cache.{CityRow}
use address_quality.Text.{has_prefix, chars}
use address_quality.Database.{
  LocationDb, CodeRow, PriorityEntry, Query, ◌>>=◌, ◌>>◌, pure, query, exec, transaction, call,
}
use address_quality.Database.Sources.{is_active}
use address_quality.Database.Codes.{scan_city, at_level, of_source}

-- SELECT DISTINCT
unfoldable pub distinct : List String → List String
distinct [] = []
distinct (n ∷ names) = let rest = distinct names in if contains names n then rest else n ∷ rest

-- The rows of districts and sub-districts with this name.
unfoldable pub is_lower : ℕ → String → CodeRow → Bool
is_lower source_id text low =
    of_source source_id low
    && low.lowercase_normalized == text
    && (at_level 4 low || at_level 5 low)

unfoldable pub overlapping_names : ℕ → LocationDb → List String
overlapping_names source_id d = distinct (
    map (λ (r : CodeRow). r.lowercase_normalized)
      (select
        (λ c3.
          of_source source_id c3
          && at_level 3 c3
          && any (is_lower source_id c3.lowercase_normalized) d.location_codes)
        d.location_codes))

unfoldable pub is_city_named : ℕ → String → CodeRow → Bool
is_city_named source_id text r =
    of_source source_id r && at_level 3 r && r.lowercase_normalized == text

-- prefer the "Kota X" row; fall back to "Kabupaten X"
unfoldable pub city_type : List CityRow → String
city_type rows =
    if any (λ r. has_prefix (chars "Kota ") (chars r.name)) rows then "KOTA" else "KABUPATEN"

unfoldable pub delete_priority : ℕ → LocationDb → LocationDb
delete_priority source_id d = record d {
  location_city_priority =
      select (λ p. not (p.location_source_id == source_id)) d.location_city_priority;
}

-- UNIQUE(location_source_id, lowercase_normalized)
unfoldable pub has_priority : ℕ → String → List PriorityEntry → Bool
has_priority source_id text =
    any (λ p. p.location_source_id == source_id && p.lowercase_normalized == text)

unfoldable pub insert_priority : ℕ → LocationDb → String × String → LocationDb
insert_priority source_id d (text, kind) =
    if has_priority source_id text d.location_city_priority then d else record d {
      location_city_priority =
          d.location_city_priority
          ++ (record {
            location_source_id = source_id;
            lowercase_normalized = text;
            city_type = kind;
            deleted_at = none;
          })
            ∷ [];
    }

unfoldable pub insert_priorities : ℕ → List (String × String) → Query (Unit {0})
insert_priorities source_id [] = pure tt
insert_priorities source_id (p ∷ priorities) =
    exec (λ d. insert_priority source_id d p) >> insert_priorities source_id priorities

-- The statements of the transaction; the call between the deletion and the insertions prepares the
-- insertion.
unfoldable pub write_priorities : ℕ → List (String × String) → Query (Unit {0})
write_priorities source_id priorities =
    exec (delete_priority source_id) >> call >> insert_priorities source_id priorities

module _ (order : RangeOrder) (source_id : ℕ) where
  unfoldable pub city_names_overlapping_lower_levels : Query (List String)
  city_names_overlapping_lower_levels = query order (overlapping_names source_id)

  unfoldable pub city_rows_by_name : String → Query (List CityRow)
  city_rows_by_name text =
      query order (λ d. map scan_city (select (is_city_named source_id text) d.location_codes))

  -- Resolve city types before the write transaction
  unfoldable pub city_types : List String → Query (List (String × String))
  city_types [] = pure []
  city_types (text ∷ names) = do
    rows ← city_rows_by_name text
    rest ← city_types names
    pure ((text, city_type rows) ∷ rest)

  unfoldable pub rebuild_city_priority : Query (Unit {0})
  rebuild_city_priority = do
    names ← city_names_overlapping_lower_levels
    priorities ← city_types names
    transaction (write_priorities source_id priorities)

  unfoldable pub find_all_city_priority : Query (List (String × String))
  find_all_city_priority = query order (λ d.
      map (λ p. (p.lowercase_normalized, p.city_type))
        (select (λ p. p.location_source_id == source_id && is_active p.deleted_at)
          d.location_city_priority))
