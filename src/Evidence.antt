-- ===== src/Evidence.antt =====
-- internal/service/evidence.go: the postal code and the words of a normalized text. The expressions
-- are searches over characters; a word boundary is where a word character stands beside none.
pub mod Distinct
use Prim.Native.Char.{Char, code}
use Prim.Native.String
use address_quality.Prelude.{
  nat_eq, string_eq, none, some, [], ◌∷◌, true, false, String, Option, List, ℕ, Bool, zero, suc,
  ◌||◌, not, ◌&&◌, if◌then◌else◌, is_some, ◌++◌, leb, take, drop, ◌==◌, contains, length,
}
use address_quality.Text.{chars, is_digit, has_prefix, fields, to_lower}
use address_quality.Model.{Evidence, EvidenceType}

-- `\w`
unfoldable pub is_word_char : Char → Bool
is_word_char c =
    let n = code c in is_digit c || (leb 65 n && leb n 90) || (leb 97 n && leb n 122) || n == 95

-- The text does not go on with a word character.
unfoldable pub word_ends : List Char → Bool
word_ends [] = true
word_ends (c ∷ s) = not (is_word_char c)

abbrev pub text_of : List Char → String
text_of [] = ""
text_of (c ∷ s) = String.◌∷◌ c (text_of s)

-- n digits, and a boundary after them
unfoldable pub digits_end : ℕ → List Char → Bool
digits_end zero s = word_ends s
digits_end (suc n) [] = false
digits_end (suc n) (c ∷ s) = is_digit c && digits_end n s

-- postalCodePattern from here on: whether the character before is a word character is given.
unfoldable pub postal_from : Bool → List Char → Option String
postal_from after_word [] = none
postal_from after_word (c ∷ s) =
    let later = postal_from (is_word_char c) s in
    if not after_word && digits_end 5 (c ∷ s) then some (text_of (take 5 (c ∷ s))) else later

unfoldable pub find_postal_code : String → Option String
find_postal_code s = postal_from false (chars s)

unfoldable pub extract_postal_code : String → String
extract_postal_code s = elim (find_postal_code s) [ none ↦ "" | some p ↦ p ]

-- One alternative of roadPrefixPattern, with a boundary after it.
unfoldable pub prefix_at : String → List Char → Bool
prefix_at p s = has_prefix (chars p) s && word_ends (drop (length (chars p)) s)

-- The length of the match of roadPrefixPattern here, 0 for none.
unfoldable pub road_prefix_length : Bool → List Char → ℕ
road_prefix_length after_word s =
    if after_word
    then 0
    else if prefix_at "jl" s
    then 2
    else if prefix_at "jalan" s
    then 5
    else if prefix_at "gg" s
    then 2
    else if prefix_at "gang" s
    then 4
    else 0

-- ReplaceAllString with "": so many characters are yet to be left out.
unfoldable pub remove_prefixes : ℕ → Bool → List Char → String
remove_prefixes skip after_word [] = ""
remove_prefixes (suc skip) after_word (c ∷ s) = remove_prefixes skip (is_word_char c) s
remove_prefixes zero after_word (c ∷ s) = elim (road_prefix_length after_word (c ∷ s)) [
  | zero ↦ String.◌∷◌ c (remove_prefixes zero (is_word_char c) s)
  | suc n ↦ remove_prefixes n (is_word_char c) s
]

-- MatchString of roadPrefixPattern
unfoldable pub has_road_prefix : Bool → List Char → Bool
has_road_prefix after_word [] = false
has_road_prefix after_word (c ∷ s) =
    not (road_prefix_length after_word (c ∷ s) == 0) || has_road_prefix (is_word_char c) s

unfoldable pub is_skipped : String → Bool
is_skipped w = is_some (find_postal_code w) || has_road_prefix false (chars w)

-- The loop over the words, with the lower-case words seen so far.
unfoldable pub place_names : List String → List String → List Evidence
place_names seen [] = []
place_names seen (w ∷ words) = elim (is_skipped w || contains seen (to_lower w)) [
  | true ↦ place_names seen words
  | false ↦
      record { type = EvidenceType.place_name; value = w } ∷ place_names (to_lower w ∷ seen) words
]

unfoldable pub postal_evidence : String → List Evidence
postal_evidence normalized = elim (find_postal_code normalized) [
  | none ↦ []
  | some p ↦ record { type = EvidenceType.postal_code; value = p } ∷ []
]

-- `fields` does not see the spaces that TrimSpace takes away.
unfoldable pub extract_evidence : String → List Evidence
extract_evidence normalized =
    postal_evidence normalized
    ++ place_names [] (fields (remove_prefixes 0 false (chars normalized)))
