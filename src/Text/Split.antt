-- ===== src/Text/Split.antt =====
-- strings.Split at one separator character, and how it goes with strings.Join.
use Prim.Native.Char.{Char, code}
use text.Mathlib.TextEquality.{Char-path}
use text.Mathlib.TextLemmas.{cons-append, nil-append}
use address_quality.Prelude.{
  nat_eq, string_eq, inl, inr, [], ◌∷◌, List, ℕ, String, if◌then◌else◌, ◌≤◌, length, ◌≡◌, ◌==◌, ◌+◌,
  ◌∙◌, Bool-cases, refl, arith, ap, sym, beq→eq,
}
use address_quality.Text.{join}

-- `c` in front of the first piece
abbrev pub onto_first : Char → List String → List String
onto_first c [] = String.◌∷◌ c "" ∷ []
onto_first c (w ∷ ws) = String.◌∷◌ c w ∷ ws

-- The separator is given by its code.
unfoldable pub split : ℕ → String → List String
split sep String.[] = "" ∷ []
split sep (String.◌∷◌ c s) =
    let rest = split sep s in if code c == sep then "" ∷ rest else onto_first c rest

-- strings.Count of one character
unfoldable pub count_char : ℕ → String → ℕ
count_char sep String.[] = 0
count_char sep (String.◌∷◌ c s) =
    let rest = count_char sep s in if code c == sep then rest + 1 else rest

-- There is at least one piece.
abbrev first_piece :
    (ws : List String) → 1 ≤ length ws → (w : String) × (vs : List String) × (ws ≡ w ∷ vs)
first_piece [] h = elim h [ ]
first_piece (w ∷ vs) h = (w, vs, refl)

length-onto_first :
    (c : Char) (ws : List String) → 1 ≤ length ws → length (onto_first c ws) ≡ length ws
length-onto_first c [] h = elim h [ ]
length-onto_first c (w ∷ ws) h = refl

-- One piece more than separators.
pub length-split : (sep : ℕ) (s : String) → length (split sep s) ≡ count_char sep s + 1
unfolding split count_char
length-split sep String.[] = omega arith
length-split sep (String.◌∷◌ c s) = elim (Bool-cases (code c == sep)) [
  | inl here ↦ rw here (omega (arith, length-split sep s))
  | inr further ↦
      rw further
        (length-onto_first c (split sep s) (omega (arith, length-split sep s)) ∙ length-split sep s)
]

abbrev one_char : Char → String
one_char d = String.◌∷◌ d ""

join-onto_first :
    (sep : String) (c : Char) (ws : List String)
    → 1 ≤ length ws
    → join sep (onto_first c ws) ≡ String.◌∷◌ c (join sep ws)
unfolding join
join-onto_first sep c [] h = elim h [ ]
join-onto_first sep c (w ∷ []) h = refl
join-onto_first sep c (w ∷ v ∷ ws) h = cons-append c w _

join-nil_first :
    (d : Char) (ws : List String)
    → 1 ≤ length ws
    → join (one_char d) ("" ∷ ws) ≡ String.◌∷◌ d (join (one_char d) ws)
unfolding join
join-nil_first d [] h = elim h [ ]
join-nil_first d (w ∷ ws) h = nil-append _ ∙ cons-append d "" _ ∙ ap (String.◌∷◌ d) (nil-append _)

-- Splitting at a character and joining with it gives the text back.
pub join-split : (d : Char) (s : String) → join (one_char d) (split (code d) s) ≡ s
unfolding split join
join-split d String.[] = refl
join-split d (String.◌∷◌ c s) = elim (Bool-cases (code c == code d)) [
  | inl here ↦ rw here (
      join-nil_first d (split (code d) s) (omega (arith, length-split (code d) s))
      ∙ ap (λ t. String.◌∷◌ d t) (join-split d s)
      ∙ ap (λ x. String.◌∷◌ x s) (sym (Char-path c d (beq→eq (code c) (code d) here))))
  | inr further ↦ rw further (
      join-onto_first (one_char d) c (split (code d) s) (omega (arith, length-split (code d) s))
      ∙ ap (λ t. String.◌∷◌ c t) (join-split d s))
]
