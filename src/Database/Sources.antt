-- ===== src/Database/Sources.antt =====
-- The registry of sources, and emptying the tables.
use address_quality.Prelude.{
  nat_eq, string_eq, none, some, [], ◌∷◌, Option, String, Bool, List, ℕ, if◌then◌else◌, not, ◌==◌,
  any, ◌++◌, is_some, ◌&&◌, ◌+◌,
}
use address_quality.Database.{LocationDb, SourceRow, Query, ◌>>◌, select_row, exec}

unfoldable pub is_active : Option String → Bool
is_active deleted_at = not (is_some deleted_at)

-- `code = ? AND deleted_at IS NULL`, of rows in the order of their ids: the last of them
unfoldable pub latest : String → List SourceRow → Option (ℕ × String)
latest code [] = none
latest code (r ∷ rows) = elim (latest code rows) [
  | some found ↦ some found
  | none ↦ if r.code == code && is_active r.deleted_at then some (r.id, r.version) else none
]

unfoldable pub find_source_by_code : String → Query (ℕ × String)
find_source_by_code code = select_row (λ d. latest code d.location_sources)

-- UNIQUE(code, version)
unfoldable pub has_source : String → String → List SourceRow → Bool
has_source code version = any (λ r. r.code == code && r.version == version)

-- INSERT INTO location_sources ... ON CONFLICT DO NOTHING
unfoldable pub insert_source : String → String → String → String → String → LocationDb → LocationDb
insert_source code version name code_date desc d =
    if has_source code version d.location_sources then d else record d {
      location_sources =
          d.location_sources
          ++ (record {
            id = d.next_source_id;
            code = code;
            version = version;
            name = name;
            code_date = code_date;
            desc = desc;
            deleted_at = none;
          })
            ∷ [];
      next_source_id = d.next_source_id + 1;
    }

unfoldable pub source_id : String → String → List SourceRow → Option ℕ
source_id code version [] = none
source_id code version (r ∷ rows) =
    let later = source_id code version rows in
    if r.code == code && r.version == version && is_active r.deleted_at then some r.id else later

unfoldable pub insert_location_source : String → String → String → String → String → Query ℕ
insert_location_source code version name code_date desc =
    exec (insert_source code version name code_date desc)
    >> select_row (λ d. source_id code version d.location_sources)

-- The statements of `TruncateAll` on SQLite, each by itself. location_city_priority is not one of
-- the tables.
unfoldable pub delete_hierarchy : LocationDb → LocationDb
delete_hierarchy d = record d { location_hierarchy = [] }

unfoldable pub delete_alias : LocationDb → LocationDb
delete_alias d = record d { location_alias = [] }

unfoldable pub delete_codes : LocationDb → LocationDb
delete_codes d = record d { location_codes = [] }

unfoldable pub delete_sources : LocationDb → LocationDb
delete_sources d = record d { location_sources = [] }

unfoldable pub delete_sequences : LocationDb → LocationDb
delete_sequences d = record d { next_source_id = 1; next_code_id = 1 }

unfoldable pub truncate_all : Query (Unit {0})
truncate_all =
    exec delete_hierarchy
    >> exec delete_alias
    >> exec delete_codes
    >> exec delete_sources
    >> exec delete_sequences
