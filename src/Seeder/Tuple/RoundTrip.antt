-- ===== src/Seeder/Tuple/RoundTrip.antt =====
-- A tuple that is written as SQL writes it is read back.
use Prim.Native.Char.{Char, code}
use Prim.Native.String
use text.Mathlib.TextLemmas.{cons-append, nil-append}
use address_quality.Prelude.{
  nat_eq, string_eq, none, some, inl, inr, true, false, String, if◌then◌else◌, ◌≡◌, ◌==◌, refl,
  Option, Bool-cases, ap, ◌∙◌, ℕ, suc, zero,
}
use address_quality.Seeder.Tuple.{
  quoted, after_char, skip_spaces, match_tuple, find_tuple, undouble,
}

-- A text as it stands in a dump: each quote is doubled.
unfoldable pub double_quotes : String → String
double_quotes String.[] = ""
double_quotes (String.◌∷◌ c s) =
    let rest = double_quotes s in
    if code c == 39 then String.◌∷◌ c (String.◌∷◌ c rest) else String.◌∷◌ c rest

-- Spaces in front of a text.
abbrev pub spaced : ℕ → String → String
spaced zero s = s
spaced (suc gap) s = String.◌∷◌ " " (spaced gap s)

-- What comes after the first quoted text, and a row of the dump with what follows it. The two dumps
-- differ in the number of spaces: wilayah.sql has none, wilayah_kodepos.sql one.
unfoldable pub write_second : ℕ → String → String → String
write_second gap name rest = String.◌∷◌ "," (
    spaced gap
      (String.◌∷◌ "'" (String.◌++◌ (double_quotes name) (String.◌∷◌ "'" (String.◌∷◌ ")" rest)))))

unfoldable pub write_tuple : ℕ → String → String → String → String
write_tuple gap kode name rest = String.◌∷◌ "(" (
    String.◌∷◌ "'" (String.◌++◌ (double_quotes kode) (String.◌∷◌ "'" (write_second gap name rest))))

-- The text does not start with a quote.
abbrev pub IsClosed : String → Type 0
IsClosed s = after_char 39 s ≡ none

abbrev onto_text : (String → String) → Option (String × String) → Option (String × String)
onto_text f none = none
onto_text f (some (t, r)) = some (f t, r)

quoted-plain :
    (c : Char) (s : String)
    → (code c == 39) ≡ false
    → quoted (String.◌∷◌ c s) ≡ onto_text (String.◌∷◌ c) (quoted s)
unfolding quoted
quoted-plain c String.[] plain = rw plain refl
quoted-plain c (String.◌∷◌ d s) plain = rw plain (cases (quoted (String.◌∷◌ d s)))
  where
    cases :
        (o : Option (String × String))
        → elim o [ none ↦ none | some (t, r) ↦ some (String.◌∷◌ c t, r) ]
          ≡ onto_text (String.◌∷◌ c) o
    cases none = refl
    cases (some (t, r)) = refl

quoted-double :
    (c : Char) (s : String)
    → (code c == 39) ≡ true
    → quoted (String.◌∷◌ c (String.◌∷◌ c s))
      ≡ onto_text (λ t. String.◌∷◌ c (String.◌∷◌ c t)) (quoted s)
unfolding quoted
quoted-double c s quote = rw quote (cases (quoted s))
  where
    cases :
        (o : Option (String × String))
        → elim o [ none ↦ none | some (t, r) ↦ some (String.◌∷◌ c (String.◌∷◌ c t), r) ]
          ≡ onto_text (λ t. String.◌∷◌ c (String.◌∷◌ c t)) o
    cases none = refl
    cases (some (t, r)) = refl

quoted-close : (r : String) → IsClosed r → quoted (String.◌∷◌ "'" r) ≡ some ("", r)
unfolding quoted
quoted-close String.[] h = refl
quoted-close (String.◌∷◌ d r) h = elim (Bool-cases (code d == 39)) [
  | inl quote ↦ cc (rw quote at h)
  | inr other ↦ rw other refl
]

-- The closing quote ends the quoted text.
quoted-double_quotes :
    (t r : String)
    → IsClosed r
    → quoted (String.◌++◌ (double_quotes t) (String.◌∷◌ "'" r)) ≡ some (double_quotes t, r)
unfolding double_quotes
quoted-double_quotes String.[] r h = rw (nil-append (String.◌∷◌ "'" r)) (quoted-close r h)
quoted-double_quotes (String.◌∷◌ c t) r h = elim (Bool-cases (code c == 39)) [
  | inl quote ↦
      rw
        (
          quote,
          double_quotes,
          cons-append c (String.◌∷◌ c (double_quotes t)) (String.◌∷◌ "'" r),
          cons-append c (double_quotes t) (String.◌∷◌ "'" r),
          quoted-double c (String.◌++◌ (double_quotes t) (String.◌∷◌ "'" r)) quote,
        )
        (ap (onto_text (λ x. String.◌∷◌ c (String.◌∷◌ c x))) (quoted-double_quotes t r h))
  | inr plain ↦
      rw
        (
          plain,
          double_quotes,
          cons-append c (double_quotes t) (String.◌∷◌ "'" r),
          quoted-plain c (String.◌++◌ (double_quotes t) (String.◌∷◌ "'" r)) plain,
        )
        (ap (onto_text (String.◌∷◌ c)) (quoted-double_quotes t r h))
]

undouble-plain :
    (c : Char) (s : String)
    → (code c == 39) ≡ false
    → undouble (String.◌∷◌ c s) ≡ String.◌∷◌ c (undouble s)
unfolding undouble
undouble-plain c String.[] plain = refl
undouble-plain c (String.◌∷◌ d s) plain = rw plain refl

undouble-double :
    (c : Char) (s : String)
    → (code c == 39) ≡ true
    → undouble (String.◌∷◌ c (String.◌∷◌ c s)) ≡ String.◌∷◌ c (undouble s)
unfolding undouble
undouble-double c s quote = rw quote refl

pub undouble-double_quotes : (t : String) → undouble (double_quotes t) ≡ t
unfolding undouble double_quotes
undouble-double_quotes String.[] = refl
undouble-double_quotes (String.◌∷◌ c t) = elim (Bool-cases (code c == 39)) [
  | inl quote ↦
      rw (quote, double_quotes)
        (undouble-double c (double_quotes t) quote ∙ ap (String.◌∷◌ c) (undouble-double_quotes t))
  | inr plain ↦
      rw (plain, double_quotes)
        (undouble-plain c (double_quotes t) plain ∙ ap (String.◌∷◌ c) (undouble-double_quotes t))
]

skip_spaces-spaced :
    (gap : ℕ) (s : String) → skip_spaces (spaced gap (String.◌∷◌ "'" s)) ≡ String.◌∷◌ "'" s
unfolding skip_spaces
skip_spaces-spaced zero s = refl
skip_spaces-spaced (suc gap) s = skip_spaces-spaced gap s

match_tuple-write_tuple :
    (gap : ℕ) (kode name rest : String)
    → match_tuple (write_tuple gap kode name rest) ≡ some (double_quotes kode, double_quotes name)
unfolding match_tuple write_tuple write_second
match_tuple-write_tuple gap kode name rest =
    rw
      (
        quoted-double_quotes kode (write_second gap name rest) refl,
        skip_spaces-spaced gap
            (String.◌++◌ (double_quotes name) (String.◌∷◌ "'" (String.◌∷◌ ")" rest))),
        quoted-double_quotes name (String.◌∷◌ ")" rest) refl,
      )
      refl

find_tuple-match :
    (c : Char) (s : String) (m : String × String)
    → match_tuple (String.◌∷◌ c s) ≡ some m
    → find_tuple (String.◌∷◌ c s) ≡ some m
unfolding find_tuple
find_tuple-match c s m found = rw (find_tuple, found) refl

-- A line in which the row comes first.
pub find_tuple-write_tuple :
    (gap : ℕ) (kode name rest : String)
    → find_tuple (write_tuple gap kode name rest) ≡ some (double_quotes kode, double_quotes name)
unfolding write_tuple
find_tuple-write_tuple gap kode name rest =
    find_tuple-match "("
      (String.◌∷◌ "'"
        (String.◌++◌ (double_quotes kode) (String.◌∷◌ "'" (write_second gap name rest))))
      (double_quotes kode, double_quotes name) (match_tuple-write_tuple gap kode name rest)
