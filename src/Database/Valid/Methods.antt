-- ===== src/Database/Valid/Methods.antt =====
-- The repository's methods and the well-formed databases.
use address_quality.Prelude.{nat_eq, string_eq, [], ◌∷◌, Option, String, ℕ, List, map, select}
use address_quality.GoMap.{RangeOrder}
use address_quality.Database.{
  LocationDb, ◌>>=◌, ◌>>◌, exec, pure, transaction, query, call, select_row, gets,
}
use address_quality.Database.Does.{call-IsRead}
use address_quality.Database.Keeps.{
  Keeps, bind-Keeps, pure-Keeps, exec-Keeps, query-Keeps, transaction-Keeps, Does-Keeps,
  IsRead-Keeps,
}
use address_quality.Database.Sources.{insert_location_source, insert_source, source_id}
use address_quality.Database.Codes.{insert_location_code_batch}
use address_quality.Database.Codes.Batch.{
  insert_location_code_batch-Does, insert_location_code_batch-IsAtomic,
}
use address_quality.Database.Normalized.{
  rebuild_normalized, update_chunks, update_chunk, active_names,
}
use address_quality.Database.Hierarchy.{rebuild_location_hierarchy}
use address_quality.Database.Hierarchy.Loop.{
  rebuild_location_hierarchy-Does, rebuild_location_hierarchy-IsAtomic,
}
use address_quality.Database.Priority.{
  rebuild_city_priority, insert_priorities, insert_priority, delete_priority, city_types,
  city_rows_by_name, city_names_overlapping_lower_levels,
}
use address_quality.Database.Methods.{
  Transacted, code_batch, hierarchy, normalized, city_priority, Method, location_source, transacted,
  truncation, run_method, run_transacted, run_methods,
}
use address_quality.Database.{Conn}
use address_quality.Database.Valid.{IsValid}
use address_quality.Database.Valid.Inserts.{
  insert_codes-IsValid, insert_source-IsValid, rebuilt-IsValid, insert_priority-IsValid,
  delete_priority-IsValid,
}
use address_quality.Database.Valid.Truncate.{truncate_all-Keeps}
use address_quality.Database.Priority.{
  overlapping_names, is_city_named, city_type, write_priorities,
}
use address_quality.Chunks.{chunks}
use address_quality.Database.Codes.{chunk_size, scan_city}
use address_quality.Database.Valid.Updates.{update_chunk-IsValid}

select_row-Keeps :
    {A : Type 0} (P : LocationDb → Type 0) (row : LocationDb → Option A) → Keeps P (select_row row)
unfolding select_row
select_row-Keeps P row =
    bind-Keeps P call (λ a. gets row) (IsRead-Keeps P call call-IsRead) (λ a c p. p)

insert_location_source-Keeps :
    (code version name code_date desc : String)
    → Keeps IsValid (insert_location_source code version name code_date desc)
unfolding insert_location_source
insert_location_source-Keeps code version name code_date desc =
    bind-Keeps IsValid (exec (insert_source code version name code_date desc))
      (λ a. select_row (λ d. source_id code version d.location_sources))
      (exec-Keeps IsValid _ (insert_source-IsValid code version name code_date desc))
      (λ a. select_row-Keeps IsValid (λ d. source_id code version d.location_sources))

update_chunks-Keeps :
    (now : String) (groups : List (List (ℕ × String))) → Keeps IsValid (update_chunks now groups)
unfolding update_chunks
update_chunks-Keeps now [] = pure-Keeps IsValid tt
update_chunks-Keeps now (g ∷ groups) =
    bind-Keeps IsValid (exec (update_chunk now g)) (λ a. update_chunks now groups)
      (exec-Keeps IsValid _ (update_chunk-IsValid now g)) (λ a. update_chunks-Keeps now groups)

rebuild_normalized-Keeps :
    (order : RangeOrder) (now : String) → Keeps IsValid (rebuild_normalized order now)
unfolding rebuild_normalized
rebuild_normalized-Keeps order now =
    bind-Keeps IsValid (query order active_names)
      (λ codes. transaction (update_chunks now (chunks chunk_size codes)))
      (query-Keeps IsValid order active_names)
      (λ codes.
        transaction-Keeps IsValid (update_chunks now (chunks chunk_size codes))
          (update_chunks-Keeps now (chunks chunk_size codes)))

insert_priorities-Keeps :
    (source_id : ℕ) (priorities : List (String × String))
    → Keeps IsValid (insert_priorities source_id priorities)
unfolding insert_priorities
insert_priorities-Keeps source_id [] = pure-Keeps IsValid tt
insert_priorities-Keeps source_id (p ∷ priorities) =
    bind-Keeps IsValid (exec (λ d. insert_priority source_id d p))
      (λ a. insert_priorities source_id priorities)
      (exec-Keeps IsValid _ (λ d v. insert_priority-IsValid source_id d p v))
      (λ a. insert_priorities-Keeps source_id priorities)

city_types-Keeps :
    (P : LocationDb → Type 0) (order : RangeOrder) (source_id : ℕ) (names : List String)
    → Keeps P (city_types order source_id names)
unfolding city_types city_rows_by_name
city_types-Keeps P order source_id [] = pure-Keeps {A = List (String × String)} P []
city_types-Keeps P order source_id (n ∷ names) =
    bind-Keeps P (city_rows_by_name order source_id n)
      (λ rows. city_types order source_id names >>= λ rest. pure ((n, city_type rows) ∷ rest))
      (query-Keeps P order
        (λ d. map scan_city (select (is_city_named source_id n) d.location_codes)))
      (λ rows.
        bind-Keeps P (city_types order source_id names) (λ rest. pure ((n, city_type rows) ∷ rest))
          (city_types-Keeps P order source_id names)
          (λ rest. pure-Keeps P ((n, city_type rows) ∷ rest)))

write_priorities-Keeps :
    (source_id : ℕ) (priorities : List (String × String))
    → Keeps IsValid (write_priorities source_id priorities)
unfolding write_priorities
write_priorities-Keeps source_id priorities =
    bind-Keeps IsValid (exec (delete_priority source_id) >> call)
      (λ a. insert_priorities source_id priorities)
      (bind-Keeps IsValid (exec (delete_priority source_id)) (λ a. call)
        (exec-Keeps IsValid (delete_priority source_id) (delete_priority-IsValid source_id))
        (λ a. IsRead-Keeps IsValid call call-IsRead))
      (λ a. insert_priorities-Keeps source_id priorities)

rebuild_city_priority-Keeps :
    (order : RangeOrder) (source_id : ℕ) → Keeps IsValid (rebuild_city_priority order source_id)
unfolding rebuild_city_priority city_names_overlapping_lower_levels
rebuild_city_priority-Keeps order source_id =
    bind-Keeps IsValid (city_names_overlapping_lower_levels order source_id)
      (λ names. city_types order source_id names >>= λ priorities.
        transaction (write_priorities source_id priorities))
      (query-Keeps IsValid order (overlapping_names source_id))
      (λ names.
        bind-Keeps IsValid (city_types order source_id names)
          (λ priorities. transaction (write_priorities source_id priorities))
          (city_types-Keeps IsValid order source_id names)
          (λ priorities.
            transaction-Keeps IsValid (write_priorities source_id priorities)
              (write_priorities-Keeps source_id priorities)))

run_transacted-Keeps :
    (order : RangeOrder) (method : Transacted) → Keeps IsValid (run_transacted order method)
unfolding run_transacted
run_transacted-Keeps order (code_batch source_id rows) =
    Does-Keeps IsValid (insert_location_code_batch source_id rows) _ _
      (insert_location_code_batch-Does source_id rows)
      (insert_location_code_batch-IsAtomic source_id rows) (insert_codes-IsValid source_id rows)
run_transacted-Keeps order (hierarchy source_id) =
    Does-Keeps IsValid (rebuild_location_hierarchy order source_id) _ _
      (rebuild_location_hierarchy-Does order source_id)
      (rebuild_location_hierarchy-IsAtomic order source_id) (rebuilt-IsValid order source_id)
run_transacted-Keeps order (normalized now) = rebuild_normalized-Keeps order now
run_transacted-Keeps order (city_priority source_id) = rebuild_city_priority-Keeps order source_id

run_method-Keeps : (order : RangeOrder) (method : Method) → Keeps IsValid (run_method order method)
unfolding run_method
run_method-Keeps order (location_source code version name code_date desc) =
    bind-Keeps IsValid (insert_location_source code version name code_date desc) (λ a. pure tt)
      (insert_location_source-Keeps code version name code_date desc) (λ a. pure-Keeps IsValid tt)
run_method-Keeps order (transacted method) = run_transacted-Keeps order method
run_method-Keeps order truncation = truncate_all-Keeps

-- From a well-formed database every sequence of calls of the methods that write leads to a
-- well-formed one, whichever calls of the driver fail and in whatever order rows are returned: each
-- UNIQUE constraint holds, the ids of codes are below the next one, and each hierarchy entry links
-- four rows of its source, the code of each being that of the row above it, a point and more.
pub run_methods-IsValid :
    (order : RangeOrder) (methods : List Method) (c : Conn)
    → IsValid c.db
    → IsValid (run_methods order methods c).db
unfolding run_methods
run_methods-IsValid order [] c v = v
run_methods-IsValid order (m ∷ methods) c v =
    run_methods-IsValid order methods (run_method order m c).1 (run_method-Keeps order m c v)
