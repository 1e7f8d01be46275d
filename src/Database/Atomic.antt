-- ===== src/Database/Atomic.antt =====
-- The methods that write in a transaction, when a call of the driver fails.
use address_quality.Prelude.{none, [], ◌∷◌, String, List, ℕ, ◌≡◌, map, select}
use address_quality.GoMap.{RangeOrder}
use mathlib.Core.Path.{refl as path_refl}
use address_quality.Chunks.{chunks}
use address_quality.Database.{Conn, ◌>>=◌, pure, query, transaction}
use address_quality.Database.Methods.{
  Transacted, code_batch, hierarchy, normalized, city_priority, run_transacted,
}
use address_quality.Database.Does.{
  IsAtomic, IsRead, bind-IsRead, bind-IsAtomic, query-IsRead, transaction-IsAtomic,
}
use address_quality.Database.Codes.{chunk_size, scan_city}
use address_quality.Database.Codes.Batch.{insert_location_code_batch-IsAtomic}
use address_quality.Database.Normalized.{rebuild_normalized, active_names, update_chunks}
use address_quality.Database.Hierarchy.Loop.{rebuild_location_hierarchy-IsAtomic}
use address_quality.Database.Priority.{
  rebuild_city_priority, city_types, city_rows_by_name, city_names_overlapping_lower_levels,
  write_priorities, overlapping_names, is_city_named, city_type,
}

rebuild_normalized-IsAtomic :
    (order : RangeOrder) (now : String) → IsAtomic (rebuild_normalized order now)
unfolding rebuild_normalized
rebuild_normalized-IsAtomic order now =
    bind-IsAtomic (query order active_names)
      (λ codes. transaction (update_chunks now (chunks chunk_size codes)))
      (query-IsRead order active_names)
      (λ codes. transaction-IsAtomic (update_chunks now (chunks chunk_size codes)))

pure-IsRead : {A : Type 0} (a : A) → IsRead (pure a)
pure-IsRead a c = path_refl

city_types-IsRead :
    (order : RangeOrder) (source_id : ℕ) (names : List String)
    → IsRead (city_types order source_id names)
unfolding city_types city_rows_by_name
city_types-IsRead order source_id [] = pure-IsRead {A = List (String × String)} []
city_types-IsRead order source_id (n ∷ names) =
    bind-IsRead (city_rows_by_name order source_id n)
      (λ rows. city_types order source_id names >>= λ rest. pure ((n, city_type rows) ∷ rest))
      (query-IsRead order
        (λ d. map scan_city (select (is_city_named source_id n) d.location_codes)))
      (λ rows.
        bind-IsRead (city_types order source_id names) (λ rest. pure ((n, city_type rows) ∷ rest))
          (city_types-IsRead order source_id names)
          (λ rest. pure-IsRead ((n, city_type rows) ∷ rest)))

rebuild_city_priority-IsAtomic :
    (order : RangeOrder) (source_id : ℕ) → IsAtomic (rebuild_city_priority order source_id)
unfolding rebuild_city_priority city_names_overlapping_lower_levels
rebuild_city_priority-IsAtomic order source_id =
    bind-IsAtomic (city_names_overlapping_lower_levels order source_id)
      (λ names. city_types order source_id names >>= λ priorities.
        transaction (write_priorities source_id priorities))
      (query-IsRead order (overlapping_names source_id))
      (λ names.
        bind-IsAtomic (city_types order source_id names)
          (λ priorities. transaction (write_priorities source_id priorities))
          (city_types-IsRead order source_id names)
          (λ priorities. transaction-IsAtomic (write_priorities source_id priorities)))

-- When a batch of codes, or the rebuild of the hierarchy, of the normalized names or of the city
-- priorities returns an error, whichever call of the driver failed, the database is as it was
-- before.
pub run_transacted-atomic :
    (order : RangeOrder) (method : Transacted) (c : Conn)
    → (run_transacted order method c).0 ≡ none
    → (run_transacted order method c).1.db ≡ c.db
unfolding run_transacted
run_transacted-atomic order (code_batch source_id rows) c failed =
    insert_location_code_batch-IsAtomic source_id rows c failed
run_transacted-atomic order (hierarchy source_id) c failed =
    rebuild_location_hierarchy-IsAtomic order source_id c failed
run_transacted-atomic order (normalized now) c failed =
    rebuild_normalized-IsAtomic order now c failed
run_transacted-atomic order (city_priority source_id) c failed =
    rebuild_city_priority-IsAtomic order source_id c failed
