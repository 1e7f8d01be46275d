-- ===== src/Normalizer.antt =====
-- internal/normalizer/normalizer.go: the canonical form of a name or an address.
use Prim.Native.Char.{Char, code}
use Prim.Native.String
use address_quality.Prelude.{
  String, Bool, not, ◌&&◌, ◌||◌, List, [], ◌∷◌, leb, select, contains, length, ◌==◌, nat_eq,
  string_eq, if◌then◌else◌, ltb, ◌≡◌, refl,
}
use address_quality.Text.{chars, fields, join, push, to_lower, is_digit}

abbrev admin_set : List String
admin_set =
    "kabupaten" ∷ "kab." ∷ "kab" ∷ "kota" ∷ "kecamatan" ∷ "kec." ∷ "kec" ∷ "kelurahan" ∷ "kel."
    ∷ "kel" ∷ "provinsi" ∷ "prov." ∷ "prov" ∷ "administrasi" ∷ "kepulauan" ∷ []

-- ReplaceAll(name, "\\n", " "): a backslash and an n become a space.
unfoldable pub replace_newlines : String → String
replace_newlines String.[] = ""
replace_newlines (String.◌∷◌ c String.[]) = String.◌∷◌ c String.[]
replace_newlines (String.◌∷◌ c (String.◌∷◌ d s)) =
    let replaced = String.◌∷◌ " " (replace_newlines s) in
    let kept = String.◌∷◌ c (replace_newlines (String.◌∷◌ d s)) in
    if code c == 92 && code d == 110 then replaced else kept

-- The characters of `[^a-zA-Z\s]`, which are dropped, are those that fail both tests.
abbrev is_letter : Char → Bool
is_letter c = (leb 65 (code c) && leb (code c) 90) || (leb 97 (code c) && leb (code c) 122)

abbrev is_regexp_space : Char → Bool
is_regexp_space c =
    code c == 32 || leb 9 (code c) && leb (code c) 10 || leb 12 (code c) && leb (code c) 13

unfoldable pub remove_punctuation : String → String
remove_punctuation String.[] = ""
remove_punctuation (String.◌∷◌ c s) =
    let rest = remove_punctuation s in
    if is_letter c || is_regexp_space c then String.◌∷◌ c rest else rest

-- `\w`, on whose boundary `\b` matches
abbrev is_word_char : Char → Bool
is_word_char c = is_letter c || is_digit c || code c == 95

-- `\b\d{5}\b`: a run of word characters that is five digits. `run` is the run so far.
unfoldable pub close_run : String → List String → List String
unfolding is_digit
close_run run rest =
    if Prim.Native.String.count run == 5 && length (select is_digit (chars run)) == 5
    then run ∷ rest
    else rest

unfoldable pub postal_codes_from : String → String → List String
unfolding close_run
postal_codes_from run String.[] = close_run run []
postal_codes_from run (String.◌∷◌ c s) =
    let longer = postal_codes_from (push run c) s in
    let closed = close_run run (postal_codes_from "" s) in if is_word_char c then longer else closed

unfoldable pub find_postal_codes : String → List String
unfolding postal_codes_from
find_postal_codes s = postal_codes_from "" s

-- `\s+` becomes one space and the ends are trimmed: after the punctuation is gone all white space is
-- of the kind that `\s` matches, so that this is joining the fields.
unfoldable pub normalize : String → String
unfolding replace_newlines remove_punctuation find_postal_codes fields join to_lower
normalize name =
    let lower = to_lower (replace_newlines name) in
    let joined = join " " (select (λ w. not (contains admin_set w)) (fields lower)) in
    let postal_codes = find_postal_codes joined in
    let result = join " " (fields (remove_punctuation joined)) in
    if ltb 0 (length postal_codes)
    then String.◌++◌ (if not (result == "") then String.◌++◌ result " " else result)
        (join " " postal_codes)
    else result

normalize_tests :
    (normalize "Kab. Bandung" ≡ "bandung")
    × (normalize "  Kota   Jakarta  " ≡ "jakarta")
    × (normalize "RT.005 RW.002" ≡ "rt rw")
    × (normalize "KAB. BANDUNG 40114" ≡ "bandung 40114")
    × (normalize "40114" ≡ "40114")
    × (normalize "jl_foo_123" ≡ "jlfoo")
    × (normalize "foo 1234" ≡ "foo")
unfolding normalize
normalize_tests = (refl, refl, refl, refl, refl, refl, refl)
