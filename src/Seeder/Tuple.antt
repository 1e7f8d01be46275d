-- ===== src/Seeder/Tuple.antt =====
-- cmd/seeder/main.go: the expression `tupleRe`, as a search over characters, and what is done with
-- its groups. Inside quotes a quote is doubled, so that where a quoted text ends is determined: at a
-- quote that no quote follows. No other way to end it is followed by what the expression asks for.
pub mod RoundTrip
use Prim.Native.Char.{Char, code}
use Prim.Native.String
use address_quality.Prelude.{
  ◌>>=◌, nat_eq, string_eq, none, some, [], ◌∷◌, true, false, String, ℕ, Option, if◌then◌else◌,
  ◌==◌, not, ◌||◌, ◌&&◌, leb,
}
use address_quality.Text.Split.{count_char}

-- `(?:[^']|'')*'` after an opening quote: the text, with doubled quotes, and what follows.
unfoldable pub quoted : String → Option (String × String)
quoted String.[] = none
quoted (String.◌∷◌ c String.[]) = if code c == 39 then some ("", "") else none
quoted (String.◌∷◌ c (String.◌∷◌ d s)) =
    let single = quoted (String.◌∷◌ d s) in
    let double = quoted s in
    if not (code c == 39)
    then elim single [ none ↦ none | some (t, r) ↦ some (String.◌∷◌ c t, r) ]
    else if code d == 39
    then elim double [ none ↦ none | some (t, r) ↦ some (String.◌∷◌ c (String.◌∷◌ d t), r) ]
    else some ("", String.◌∷◌ d s)

-- The rest of the text after a character with this code.
abbrev pub after_char : ℕ → String → Option String
after_char k String.[] = none
after_char k (String.◌∷◌ c s) = if code c == k then some s else none

-- `\s*`
unfoldable pub skip_spaces : String → String
skip_spaces String.[] = ""
skip_spaces (String.◌∷◌ c s) =
    let rest = skip_spaces s in
    if code c == 32 || leb 9 (code c) && leb (code c) 10 || leb 12 (code c) && leb (code c) 13
    then rest
    else String.◌∷◌ c s

-- The expression at the start of a text: its two groups.
unfoldable pub match_tuple : String → Option (String × String)
match_tuple s = do
  s1 ← after_char 40 s
  s2 ← after_char 39 s1
  (first, s3) ← quoted s2
  s4 ← after_char 44 s3
  s5 ← after_char 39 (skip_spaces s4)
  (second, s6) ← quoted s5
  s7 ← after_char 41 s6
  some (first, second)

-- FindStringSubmatch: the leftmost match
unfoldable pub find_tuple : String → Option (String × String)
find_tuple String.[] = none
find_tuple (String.◌∷◌ c s) =
    let later = find_tuple s in
    elim (match_tuple (String.◌∷◌ c s)) [ none ↦ later | some m ↦ some m ]

-- ReplaceAll(s, "''", "'")
unfoldable pub undouble : String → String
undouble String.[] = ""
undouble (String.◌∷◌ c String.[]) = String.◌∷◌ c ""
undouble (String.◌∷◌ c (String.◌∷◌ d s)) =
    let single = String.◌∷◌ c (undouble (String.◌∷◌ d s)) in
    let double = String.◌∷◌ c (undouble s) in
    if code c == 39 && code d == 39 then double else single
