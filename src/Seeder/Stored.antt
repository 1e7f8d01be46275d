-- ===== src/Seeder/Stored.antt =====
-- The calls of main that store the parsed rows, in batches, and the rebuilds after them.
pub mod Prefix
pub mod Returns
use address_quality.Prelude.{nat_eq, string_eq, none, some, [], ◌∷◌, true, false, String, List, ℕ}
use address_quality.GoMap.{RangeOrder}
use address_quality.Chunks.{chunks}
use address_quality.Seeder.{LocationCodeRow, batch_size}
use address_quality.Database.{Query, ◌>>=◌, ◌>>◌, pure}
use address_quality.Database.Sources.{insert_location_source}
use address_quality.Database.Codes.{insert_location_code_batch}
use address_quality.Database.Hierarchy.{rebuild_location_hierarchy}
use address_quality.Database.Priority.{rebuild_city_priority}

-- The loop over `rows[i:end]`.
unfoldable pub insert_batches : ℕ → List (List LocationCodeRow) → Query (Unit {0})
insert_batches source_id [] = pure tt
insert_batches source_id (batch ∷ batches) =
    insert_location_code_batch source_id batch >> insert_batches source_id batches

-- What follows the insertion of the source.
unfoldable pub store_rows : RangeOrder → List LocationCodeRow → ℕ → Query (Unit {0})
store_rows order rows source_id =
    insert_batches source_id (chunks batch_size rows)
    >> rebuild_location_hierarchy order source_id
    >> rebuild_city_priority order source_id

-- An error at any of the calls ends the program.
unfoldable pub seed :
    RangeOrder
    → String
    → String
    → String
    → String
    → String
    → List LocationCodeRow
    → Query (Unit {0})
seed order code version name code_date desc rows =
    insert_location_source code version name code_date desc >>= store_rows order rows
