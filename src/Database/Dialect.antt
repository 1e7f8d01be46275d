-- ===== src/Database/Dialect.antt =====
-- internal/database/dialect.go: the placeholders of a query and the comments of a schema.
pub mod Comments
use Prim.Native.Char.{Char, code}
use Prim.Native.String
use text.Mathlib.TextLemmas.{cons-append, nil-append}
use address_quality.Prelude.{
  ℕ, String, ℤ, pos, List, [], ◌∷◌, Bool, true, false, ◌==◌, ◌+◌, if◌then◌else◌, ◌≤◌, ◌≡◌, not,
  length, refl, nat_eq, arith, Bool-cases, inl, ap, ◌∙◌, sym, inr,
}
use address_quality.Text.{chars, is_space, has_prefix}
use address_quality.Text.Split.{split, onto_first, length-split}
use address_quality.Itoa.{itoa}

-- fmt.Fprintf(&b, "$%d", n)
abbrev pub placeholder : ℕ → String
placeholder n = String.◌++◌ "$" (itoa (pos n))

-- The loop of `rebind`, after n placeholders; the bytes of other characters have no question mark.
unfoldable pub rebind_from : ℕ → String → String
rebind_from n String.[] = ""
rebind_from n (String.◌∷◌ c query) =
    let same = String.◌∷◌ c (rebind_from n query) in
    let numbered = String.◌++◌ (placeholder (n + 1)) (rebind_from (n + 1) query) in
    if code c == 63 then numbered else same

unfoldable pub rebind : Bool → String → String
rebind pg query = if not pg then query else rebind_from 0 query

-- The left half of strings.TrimSpace.
abbrev pub trim_left : String → String
trim_left String.[] = ""
trim_left (String.◌∷◌ c s) = let rest = trim_left s in if is_space c then rest else String.◌∷◌ c s

-- A full-line comment. What TrimSpace takes from the end of the line has no dash in it.
unfoldable pub is_comment : String → Bool
unfolding is_space
is_comment line = has_prefix (chars "--") (chars (trim_left line))

abbrev pub write_lines : List String → String
write_lines [] = ""
write_lines (line ∷ lines) =
    let rest = write_lines lines in
    if is_comment line then rest else String.◌++◌ line (String.◌∷◌ "\n" rest)

unfoldable pub strip_sql_comments : String → String
strip_sql_comments content = write_lines (split 10 content)

-- The pieces with numbered placeholders between them, after n of them.
abbrev pub numbered : ℕ → List String → String
numbered n [] = ""
numbered n (w ∷ []) = w
numbered n (w ∷ v ∷ ws) =
    String.◌++◌ w (String.◌++◌ (placeholder (n + 1)) (numbered (n + 1) (v ∷ ws)))

numbered-onto_first :
    (n : ℕ) (c : Char) (ws : List String)
    → 1 ≤ length ws
    → numbered n (onto_first c ws) ≡ String.◌∷◌ c (numbered n ws)
numbered-onto_first n c [] h = elim h [ ]
numbered-onto_first n c (w ∷ []) h = refl
numbered-onto_first n c (w ∷ v ∷ ws) h = cons-append c w _

numbered-nil_first :
    (n : ℕ) (ws : List String)
    → 1 ≤ length ws
    → numbered n ("" ∷ ws) ≡ String.◌++◌ (placeholder (n + 1)) (numbered (n + 1) ws)
numbered-nil_first n [] h = elim h [ ]
numbered-nil_first n (w ∷ ws) h = nil-append _

rebind_from-numbered : (n : ℕ) (query : String) → rebind_from n query ≡ numbered n (split 63 query)
unfolding rebind_from split
rebind_from-numbered n String.[] = refl
rebind_from-numbered n (String.◌∷◌ c query) =
    let some_piece : 1 ≤ length (split 63 query) = omega (arith, length-split 63 query) in
    elim (Bool-cases (code c == 63)) [
      | inl here ↦ rw here (
          ap (String.◌++◌ (placeholder (n + 1))) (rebind_from-numbered (n + 1) query)
          ∙ sym (numbered-nil_first n (split 63 query) some_piece))
      | inr further ↦ rw further (
          ap (λ t. String.◌∷◌ c t) (rebind_from-numbered n query)
          ∙ sym (numbered-onto_first n c (split 63 query) some_piece))
    ]

-- For Postgres, the pieces of a query between its question marks are kept, and the n-th question
-- mark, from 1, becomes a dollar sign and n; for SQLite the query is left as it is.
pub rebind-numbered :
    (query : String)
    → (rebind true query ≡ numbered 0 (split 63 query)) × (rebind false query ≡ query)
unfolding rebind
rebind-numbered query = (rebind_from-numbered 0 query, refl)
