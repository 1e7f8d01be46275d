-- ===== src/Text.antt =====
-- The functions of Go's `strings` and `unicode` packages that the source calls, over characters.
pub mod Split
pub mod Fields
use Prim.Native.Char.{Char, code}
use Prim.Native.String
use address_quality.Prelude.{
  ◌-◌, String, Bool, true, false, ◌&&◌, ◌||◌, List, [], ◌∷◌, leb, get_or, ◌==◌, nat_eq, string_eq,
  if◌then◌else◌,
}

-- unicode.IsSpace
unfoldable pub is_space : Char → Bool
is_space c =
    let n = code c in
    (leb 9 n && leb n 13)
    || n == 32
    || n == 133
    || n == 160
    || n == 5760
    || (leb 8192 n && leb n 8202)
    || n == 8232
    || n == 8233
    || n == 8239
    || n == 8287
    || n == 12288

abbrev pub chars : String → List Char
chars String.[] = []
chars (String.◌∷◌ c s) = c ∷ chars s

abbrev pub push : String → Char → String
push s c = String.◌++◌ s (String.◌∷◌ c String.[])

abbrev pub emit : String → List String → List String
emit w rest = if w == "" then rest else w ∷ rest

unfoldable pub fields_from : String → String → List String
fields_from cur String.[] = emit cur []
fields_from cur (String.◌∷◌ c s) =
    let closed = emit cur (fields_from "" s) in
    let longer = fields_from (push cur c) s in if is_space c then closed else longer

-- strings.Fields
unfoldable pub fields : String → List String
unfolding fields_from is_space
fields s = fields_from "" s

-- strings.Join
unfoldable pub join : String → List String → String
join sep [] = ""
join sep (w ∷ []) = w
join sep (w ∷ v ∷ ws) = String.◌++◌ w (String.◌++◌ sep (join sep (v ∷ ws)))

-- unicode.ToLower on ASCII letters, and on the two other characters whose lower case is ASCII (the
-- Kelvin sign and the dotted capital I). The lower case of any other character is not ASCII; the
-- callers drop or only compare those, and they are left as they are.
unfoldable pub to_lower_char : Char → Char
to_lower_char c =
    let n = code c in
    if leb 65 n && leb n 90
    then get_or (chars "abcdefghijklmnopqrstuvwxyz") (n - 65) c
    else if n == 8490
    then "k"
    else if n == 304
    then "i"
    else c

-- strings.ToLower
unfoldable pub to_lower : String → String
unfolding to_lower_char
to_lower String.[] = ""
to_lower (String.◌∷◌ c s) = String.◌∷◌ (to_lower_char c) (to_lower s)

-- ReplaceAll(s, " ", "")
unfoldable pub remove_spaces : String → String
remove_spaces String.[] = ""
remove_spaces (String.◌∷◌ c s) =
    let rest = remove_spaces s in if code c == 32 then rest else String.◌∷◌ c rest

unfoldable pub is_digit : Char → Bool
is_digit c = leb 48 (code c) && leb (code c) 57

-- strings.HasPrefix, over characters
abbrev pub has_prefix : List Char → List Char → Bool
has_prefix [] xs = true
has_prefix (p ∷ ps) [] = false
has_prefix (p ∷ ps) (x ∷ xs) = code x == code p && has_prefix ps xs
