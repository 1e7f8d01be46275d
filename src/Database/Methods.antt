-- ===== src/Database/Methods.antt =====
-- The methods of the repository that write, as values, and sequences of their calls.
use address_quality.Prelude.{[], ◌∷◌, String, List, ℕ}
use address_quality.GoMap.{RangeOrder}
use address_quality.Seeder.{LocationCodeRow}
use address_quality.Database.{Query, Conn, ◌>>◌, pure}
use address_quality.Database.Sources.{insert_location_source, truncate_all}
use address_quality.Database.Codes.{insert_location_code_batch}
use address_quality.Database.Normalized.{rebuild_normalized}
use address_quality.Database.Hierarchy.{rebuild_location_hierarchy}
use address_quality.Database.Priority.{rebuild_city_priority}

-- The methods that write in a transaction of their own.
pub data Transacted : Type 0 where
  code_batch : ℕ → List LocationCodeRow → Transacted
  hierarchy : ℕ → Transacted
  normalized : String → Transacted
  city_priority : ℕ → Transacted

pub data Method : Type 0 where
  location_source : String → String → String → String → String → Method
  transacted : Transacted → Method
  truncation : Method

unfoldable pub run_transacted : RangeOrder → Transacted → Query (Unit {0})
run_transacted order (code_batch source_id rows) = insert_location_code_batch source_id rows
run_transacted order (hierarchy source_id) = rebuild_location_hierarchy order source_id
run_transacted order (normalized now) = rebuild_normalized order now
run_transacted order (city_priority source_id) = rebuild_city_priority order source_id

unfoldable pub run_method : RangeOrder → Method → Query (Unit {0})
run_method order (location_source code version name code_date desc) =
    insert_location_source code version name code_date desc >> pure tt
run_method order (transacted t) = run_transacted order t
run_method order truncation = truncate_all

-- The calls of a list, one after the other, whether they fail or not.
unfoldable pub run_methods : RangeOrder → List Method → Conn → Conn
run_methods order [] c = c
run_methods order (m ∷ ms) c = run_methods order ms (run_method order m c).1
