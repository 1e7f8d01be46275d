-- ===== src/Database/Dialect/Comments.antt =====
-- The lines that are left of a schema without its comments.
use Prim.Native.Char.{Char, code}
use Prim.Native.String
use text.Mathlib.TextLemmas.{cons-append, nil-append}
use address_quality.Prelude.{
  String, List, [], ◌∷◌, false, ◌==◌, ◌≡◌, All, Bool-cases, ap, select, nat_eq, not, inl, refl,
  arith, ◌++◌, inr, ◌∙◌,
}
use address_quality.Text.Split.{split, onto_first, count_char}
use address_quality.Database.Dialect.{is_comment, write_lines, strip_sql_comments}

-- No line break in the line.
abbrev OneLine : String → Type 0
OneLine w = count_char 10 w ≡ 0

onto_first-OneLine :
    (c : Char) (ws : List String)
    → (code c == 10) ≡ false
    → All OneLine ws
    → All OneLine (onto_first c ws)
unfolding count_char
onto_first-OneLine c [] other h = (rw other refl, tt)
onto_first-OneLine c (w ∷ ws) other (here, h) = (rw other here, h)

split-OneLine : (s : String) → All OneLine (split 10 s)
unfolding split count_char
split-OneLine String.[] = (refl, tt)
split-OneLine (String.◌∷◌ c s) = elim (Bool-cases (code c == 10)) [
  | inl here ↦ rw here (refl, split-OneLine s)
  | inr other ↦ rw other (onto_first-OneLine c (split 10 s) other (split-OneLine s))
]

-- A line in front of a text.
split-line :
    (w rest : String)
    → count_char 10 w ≡ 0
    → split 10 (String.◌++◌ w (String.◌∷◌ "\n" rest)) ≡ w ∷ split 10 rest
unfolding split count_char
split-line String.[] rest h = ap (split 10) (nil-append (String.◌∷◌ "\n" rest))
split-line (String.◌∷◌ c w) rest h = elim (Bool-cases (code c == 10)) [
  | inl here ↦ absurd (omega (arith, rw here at h))
  | inr other ↦
      ap (split 10) (cons-append c w (String.◌∷◌ "\n" rest))
      ∙ rw (split, other) (ap (onto_first c) (split-line w rest (rw other at h)))
]

split-write_lines :
    (lines : List String)
    → All OneLine lines
    → split 10 (write_lines lines) ≡ select (λ w. not (is_comment w)) lines ++ "" ∷ []
unfolding split
split-write_lines [] h = refl
split-write_lines (line ∷ lines) (here, h) = elim (Bool-cases (is_comment line)) [
  | inl comment ↦ rw comment (split-write_lines lines h)
  | inr kept ↦
      rw kept
        (split-line line (write_lines lines) here ∙ ap (λ t. line ∷ t) (split-write_lines lines h))
]

-- The lines of a schema without its comments are the lines of the schema that are not full-line
-- comments, in order, and an empty line behind them.
pub strip_sql_comments-lines :
    (content : String)
    → split 10 (strip_sql_comments content)
      ≡ select (λ w. not (is_comment w)) (split 10 content) ++ "" ∷ []
unfolding strip_sql_comments
strip_sql_comments-lines content = split-write_lines (split 10 content) (split-OneLine content)
