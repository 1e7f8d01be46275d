-- ===== src/Itoa.antt =====
-- `itoa` of internal/service/dedup.go: the decimal text of an int64.
use Prim.Native.Char.{Char}
use Prim.Native.String
use address_quality.Prelude.{
  ℕ, zero, suc, ◌/◌, ◌%◌, String, ltb, ℤ, pos, negsuc, get_or, ◌==◌, nat_eq, if◌then◌else◌,
}
use address_quality.Text.{chars}

abbrev pub int64_limit : ℕ
int64_limit = 9223372036854775808

-- byte('0' + n%10)
abbrev pub digit : ℕ → Char
digit d = get_or (chars "0123456789") d "0"

-- The loop that writes digits into `buf` from its end, with the room left in the 20 bytes.
unfoldable pub write_digits : ℕ → ℕ → String → String
write_digits zero n buf = buf
write_digits (suc room) n buf =
    let more = write_digits room (n / 10) (String.◌∷◌ (digit (n % 10)) buf) in
    if n == 0 then buf else more

-- `n = -n` keeps the least int64 negative, and the loop does not run.
unfoldable pub itoa : ℤ → String
unfolding write_digits
itoa (pos zero) = "0"
itoa (pos (suc n)) = write_digits 20 (suc n) ""
itoa (negsuc n) =
    String.◌++◌ "-" (if ltb (suc n) int64_limit then write_digits 19 (suc n) "" else "")
