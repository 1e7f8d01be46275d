-- ===== src/Database/Normalized.antt =====
-- The column lowercase_normalized, computed anew for every active row.
pub mod Rows
pub mod Current
use address_quality.Prelude.{
  nat_eq, string_eq, none, some, [], ◌∷◌, List, String, ℕ, Option, map, if◌then◌else◌, select, ◌==◌,
}
use address_quality.GoMap.{RangeOrder}
use address_quality.Normalizer.{normalize}
use address_quality.Chunks.{chunks}
use address_quality.Database.{
  LocationDb, CodeRow, Query, ◌>>=◌, ◌>>◌, pure, query, exec, transaction,
}
use address_quality.Database.Sources.{is_active}
use address_quality.Database.Codes.{chunk_size}

-- The name of the first code of the chunk with this id: `CASE id WHEN ? THEN ? ... END`.
unfoldable pub case_id : List (ℕ × String) → ℕ → Option String
case_id [] id = none
case_id ((i, name) ∷ codes) id =
    let later = case_id codes id in if i == id then some (normalize name) else later

-- UPDATE location_codes of the rows `WHERE id IN (...)`
unfoldable pub update_row : String → List (ℕ × String) → CodeRow → CodeRow
update_row now codes r = elim (case_id codes r.id) [
  | none ↦ r
  | some text ↦ record r { lowercase_normalized = text; updated_at = some now }
]

unfoldable pub update_chunk : String → List (ℕ × String) → LocationDb → LocationDb
update_chunk now codes d = record d { location_codes = map (update_row now codes) d.location_codes }

unfoldable pub update_chunks : String → List (List (ℕ × String)) → Query (Unit {0})
update_chunks now [] = pure tt
update_chunks now (chunk ∷ rest) = exec (update_chunk now chunk) >> update_chunks now rest

unfoldable pub active_names : LocationDb → List (ℕ × String)
active_names d = map (λ r. (r.id, r.name)) (select (λ r. is_active r.deleted_at) d.location_codes)

-- `now` is the formatted time of the call.
unfoldable pub rebuild_normalized : RangeOrder → String → Query (Unit {0})
rebuild_normalized order now = do
  codes ← query order active_names
  transaction (update_chunks now (chunks chunk_size codes))
