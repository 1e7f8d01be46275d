-- ===== src/Tests/Seeds.antt =====
-- Runs of the seeder and of the location database.
use address_quality.Prelude.{
  nat_eq, string_eq, none, some, [], ◌∷◌, true, false, ◌≡◌, refl, ◌+◌, String, List, ℕ, arith, take,
  ◌*◌, ◌⊎◌, length, ◌≤◌, All, any, Option,
}
use address_quality.Tests.{in_order, swapped}
use address_quality.Seeder.{LocationCodeRow, wilayah_row}
use address_quality.Seeder.Tuple.RoundTrip.{write_tuple}
use address_quality.Seeder.Rows.{wilayah_row-write_tuple}
use address_quality.Text.Split.{count_char}
use address_quality.Database.{SourceRow, LocationDb, Conn, empty_db}
use mathlib.Core.List.{foldl}
use address_quality.Chunks.{chunks}
use address_quality.Seeder.{batch_size}
use address_quality.Seeder.Stored.{insert_batches}
use address_quality.Seeder.Stored.Prefix.{insert_batches-prefix}
use address_quality.Seeder.Stored.Returns.{is_retired}
use address_quality.Database.{CodeRow}
use address_quality.Database.Codes.{insert_code, of_source}
use address_quality.Database.Hierarchy.{has_entry, rebuild_location_hierarchy}
use address_quality.Database.Hierarchy.Load.{IsTree, load_full_hierarchy-IsTree}
use address_quality.Database.Hierarchy.Complete.{
  rebuild_location_hierarchy_complete, is_active_entry,
}
use address_quality.Database.Valid.{is_row}
use address_quality.Database.Hierarchy.{
  parent_rows, is_parent_row, kode_map, sub_rows, insert_loop, hierarchy_of, parents_of, flush,
  insert_entry, hchunk,
}
use address_quality.Database.Codes.{at_level, prefix_kode}
use address_quality.Text.Split.{split}
use address_quality.Text.{join}
use address_quality.GoMap.{lookup}
use address_quality.Database.Normalized.{
  rebuild_normalized, active_names, update_chunks, update_chunk, update_row, case_id,
}
use address_quality.Database.Normalized.Current.{is_fresh, rebuild_normalized-is_fresh}
use address_quality.Database.Methods.{
  Method, location_source, transacted, code_batch, hierarchy, normalized, city_priority,
  run_methods, run_transacted,
}
use address_quality.Database.Valid.{IsValid}
use address_quality.Database.Valid.Methods.{run_methods-IsValid}
use address_quality.Database.Atomic.{run_transacted-atomic}
use address_quality.Chunks.{chunks_from}
use address_quality.Database.{transaction, finish, call, exec, committed}
use address_quality.Database.Codes.{insert_location_code_batch, insert_chunks, chunk_size}
use address_quality.GoMap.{insert}
use address_quality.Database.Sources.{is_active}
use address_quality.Database.{query}
use address_quality.Database.Hierarchy.{load_full_hierarchy, entries_of, add_entry}

wilayah_row-write_tuple_example :
    wilayah_row (write_tuple 0 "11.01" "Ma'arang" ",")
    ≡ some (record {
      kode = "11.01";
      name = "Ma'arang";
      level_id = count_char 46 "11.01" + 2;
      postal_code = "";
    })
wilayah_row-write_tuple_example = wilayah_row-write_tuple 0 "11.01" "Ma'arang" ","

abbrev row : String → String → ℕ → LocationCodeRow
row kode name level = record { kode = kode; name = name; level_id = level; postal_code = "" }

abbrev dump_rows : List LocationCodeRow
dump_rows =
    row "11" "Aceh" 2
    ∷ row "11.01" "Kota Sabang" 3
    ∷ row "11.01.01" "Sukajaya" 4
    ∷ row "11.01.01.2001" "Paya" 5
    ∷ row "11.01.09.2001" "Keude" 5
    ∷ []

abbrev seeding : List Method
seeding =
    location_source "kemendagri" "2025" "Kepmendagri" "" ""
    ∷ transacted (code_batch 1 dump_rows)
    ∷ transacted (hierarchy 1)
    ∷ transacted (normalized "2026-01-01T00:00:00Z")
    ∷ transacted (city_priority 1)
    ∷ []

abbrev started : Conn
started = record { db = empty_db; faults = [] }

empty-IsValid : IsValid empty_db
empty-IsValid = record {
  versions = tt;
  ids = tt;
  next = tt;
  kodes = tt;
  subdistricts = tt;
  hierarchy = tt;
  priorities = tt;
}

-- The first insertion of dump_rows fails when it is committed, and is made again.
run_methods-IsValid_example :
    IsValid
      (run_methods in_order
        (transacted (code_batch 1 dump_rows) ∷ seeding)
        (record { db = empty_db; faults = false ∷ false ∷ true ∷ [] })).db
run_methods-IsValid_example =
    run_methods-IsValid in_order (transacted (code_batch 1 dump_rows) ∷ seeding)
      (record { db = empty_db; faults = false ∷ false ∷ true ∷ [] }) empty-IsValid

abbrev half : Conn
half = record { db = empty_db; faults = false ∷ false ∷ true ∷ [] }

run_transacted-atomic_example :
    (run_transacted in_order (code_batch 1 dump_rows) half).1.db ≡ empty_db
unfolding run_transacted insert_location_code_batch transaction finish call insert_chunks chunks
    chunks_from exec chunk_size committed
run_transacted-atomic_example = run_transacted-atomic in_order (code_batch 1 dump_rows) half refl

abbrev code : ℕ → String → String → ℕ → CodeRow
code id kode text level = record {
  id = id;
  location_source_id = 1;
  kode = kode;
  name = text;
  lowercase_normalized = text;
  level_id = level;
  postal_code = some "";
  updated_at = none;
  deleted_at = none;
}

abbrev linked : LocationDb
linked = record empty_db {
  location_codes =
      code 1 "11" "aceh" 2
      ∷ code 2 "11.01" "sabang" 3
      ∷ code 3 "11.01.01" "sukajaya" 4
      ∷ code 4 "11.01.01.2001" "paya" 5
      ∷ [];
  location_hierarchy =
      (record {
        location_source_id = 1;
        province_id = 1;
        city_id = 2;
        district_id = 3;
        subdistrict_id = 4;
        deleted_at = none;
      })
      ∷ [];
  next_code_id = 5;
}

linked-IsValid : IsValid linked
unfolding is_row of_source
linked-IsValid = record {
  versions = tt;
  ids = (refl, (refl, (refl, (refl, tt))));
  next = (omega arith, (omega arith, (omega arith, (omega arith, tt))));
  kodes = (refl, (refl, (refl, (refl, tt))));
  subdistricts = (refl, tt);
  hierarchy = (
    record {
      province_kode = "11";
      city_kode = "11.01";
      district_kode = "11.01.01";
      subdistrict_kode = "11.01.01.2001";
      province = refl;
      city = refl;
      district = refl;
      subdistrict = refl;
      city_below = ("01", refl);
      district_below = ("01", refl);
      subdistrict_below = ("2001", refl);
    },
    tt,
  );
  priorities = tt;
}

load_full_hierarchy-IsTree_example : IsTree linked.location_codes 1 (record {
  city_to_province = (2, 1) ∷ [];
  district_to_city = (3, 2) ∷ [];
  sub_district_to_dist = (4, 3) ∷ [];
})
unfolding load_full_hierarchy query entries_of is_active add_entry insert
load_full_hierarchy-IsTree_example =
    load_full_hierarchy-IsTree in_order 1 (record { db = linked; faults = false ∷ [] })
      (record {
        city_to_province = (2, 1) ∷ [];
        district_to_city = (3, 2) ∷ [];
        sub_district_to_dist = (4, 3) ∷ [];
      })
      linked-IsValid refl

abbrev unlinked : Conn
unlinked = record { db = record linked { location_hierarchy = [] }; faults = [] }

rebuild_location_hierarchy_complete_example :
    any
      (is_active_entry 1 4)
      (rebuild_location_hierarchy in_order 1 unlinked).1.db.location_hierarchy
    ≡ true
unfolding rebuild_location_hierarchy query call parent_rows is_parent_row of_source at_level
    is_active kode_map sub_rows transaction finish committed insert_loop hierarchy_of parents_of
    prefix_kode split join lookup insert flush exec insert_entry has_entry hchunk
rebuild_location_hierarchy_complete_example =
    rebuild_location_hierarchy_complete in_order 1 4 "11.01.01.2001" unlinked refl refl refl refl
      refl refl refl

insert_batches-prefix_example :
    (k : ℕ) × ((insert_batches 1 (chunks batch_size dump_rows) half).1.db
      ≡ foldl (insert_code 1) empty_db (take (k * 500) dump_rows))
    × (((insert_batches 1 (chunks batch_size dump_rows) half).0 ≡ none)
        ⊎ (length dump_rows ≤ k * 500))
insert_batches-prefix_example = insert_batches-prefix 1 dump_rows half

-- The second run on a database, and a run after the source was deleted.
abbrev source : Option String → SourceRow
source deleted_at = record {
  id = 1;
  code = "kemendagri";
  version = "2025";
  name = "Kepmendagri";
  code_date = "";
  desc = "";
  deleted_at = deleted_at;
}

abbrev with_source : Option String → LocationDb
with_source deleted_at = record linked { location_sources = source deleted_at ∷ [] }

is_retired_runs :
    (is_retired "kemendagri" "2025" (with_source none).location_sources ≡ false)
    × (is_retired "kemendagri" "2025" (with_source (some "2026")).location_sources ≡ true)
is_retired_runs = (refl, refl)

rebuild_normalized-is_fresh_example :
    All
      (λ r. is_fresh r ≡ true)
      (rebuild_normalized swapped "2026-01-01T00:00:00Z"
        (record { db = linked; faults = [] })).1.db.location_codes
unfolding rebuild_normalized query call transaction finish committed active_names is_active chunks
    chunks_from chunk_size update_chunks exec update_chunk update_row case_id
rebuild_normalized-is_fresh_example =
    rebuild_normalized-is_fresh swapped "2026-01-01T00:00:00Z" (record { db = linked; faults = [] })
      linked-IsValid refl
