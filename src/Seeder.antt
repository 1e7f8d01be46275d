-- ===== src/Seeder.antt =====
-- cmd/seeder/main.go: reading the dumps, joining the postal codes and the batches. A file is the
-- list of its lines; a line that is too long for the scanner, or a failed read, ends it with an error.
pub mod Tuple
pub mod Rows
pub mod Stored
use address_quality.Prelude.{
  ◌>>=◌, nat_eq, string_eq, none, some, [], ◌∷◌, true, false, String, Option, List, ℕ,
  if◌then◌else◌, length, suc, not, take, ◌==◌, drop, zero, ◌+◌,
}
use address_quality.GoMap.{lookup, insert}
use address_quality.Text.Split.{count_char}
use Tuple.{find_tuple, undouble}

-- database.LocationCodeRow
pub record LocationCodeRow : Type 0 where
  pub kode : String
  pub name : String
  pub level_id : ℕ
  pub postal_code : String

-- The body of the loop of `parseWilayah`.
unfoldable pub wilayah_row : String → Option LocationCodeRow
wilayah_row line = do
  (first, second) ← find_tuple line
  some (record {
    kode = undouble first;
    name = undouble second;
    level_id = count_char 46 (undouble first) + 2;
    postal_code = "";
  })

abbrev pub onto_some {ℓ} : {A : Type ℓ} → Option A → List A → List A
onto_some none l = l
onto_some (some a) l = a ∷ l

unfoldable pub parse_wilayah : List String → List LocationCodeRow
parse_wilayah [] = []
parse_wilayah (line ∷ lines) = onto_some (wilayah_row line) (parse_wilayah lines)

-- The body of the loop of `parseKodepos`, on the map so far; an empty postal code is left out.
unfoldable pub add_kodepos : List (String × String) → String → List (String × String)
add_kodepos results line = elim (find_tuple line) [
  | none ↦ results
  | some (first, second) ↦
      if not (undouble second == "")
      then insert (undouble first) (undouble second) results
      else results
]

unfoldable pub parse_kodepos_from : List (String × String) → List String → List (String × String)
parse_kodepos_from results [] = results
parse_kodepos_from results (line ∷ lines) = parse_kodepos_from (add_kodepos results line) lines

unfoldable pub parse_kodepos : List String → List (String × String)
parse_kodepos lines = parse_kodepos_from [] lines

-- "joining postal codes..."
unfoldable pub join_postal_code : List (String × String) → LocationCodeRow → LocationCodeRow
join_postal_code kodepos_map row = elim (lookup row.kode kodepos_map) [
  | none ↦ row
  | some pc ↦ record row { postal_code = pc }
]

unfoldable pub batch_size : ℕ
batch_size = 500
