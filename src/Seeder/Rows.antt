-- ===== src/Seeder/Rows.antt =====
-- The rows that are read from the lines of a dump.
use address_quality.Prelude.{nat_eq, string_eq, some, String, ◌≡◌, refl, ◌+◌, ℕ}
use address_quality.Text.Split.{count_char}
use address_quality.Seeder.{wilayah_row}
use address_quality.Seeder.Tuple.RoundTrip.{
  write_tuple, find_tuple-write_tuple, undouble-double_quotes,
}

-- A row that is written as a dump writes it, with each quote doubled and with any number of spaces,
-- or none, behind the comma, whatever follows it on the line, is read back: its code, its name, and
-- a level that is two more than the points in the code.
pub wilayah_row-write_tuple :
    (gap : ℕ) (kode name rest : String)
    → wilayah_row (write_tuple gap kode name rest)
      ≡ some
          (record { kode = kode; name = name; level_id = count_char 46 kode + 2; postal_code = "" })
unfolding wilayah_row
wilayah_row-write_tuple gap kode name rest =
    rw
      (
        find_tuple-write_tuple gap kode name rest,
        undouble-double_quotes kode,
        undouble-double_quotes name,
      )
      refl
