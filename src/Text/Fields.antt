-- ===== src/Text/Fields.antt =====
-- strings.Fields and strings.Join at a space.
use Prim.Native.Char.{Char}
use Prim.Native.String
use text.Mathlib.TextLemmas.{cons-append, nil-append, append_assoc, append-nil, cons-ne-nil}
use address_quality.Prelude.{
  nat_eq, string_eq, inl, inr, [], ◌∷◌, true, false, String, Bool, ◌==◌, ◌≡◌, not, All, ◌&&◌, arith,
  Bool-cases, List, refl, beq→eq, ap, ◌∙◌, sym,
}
use address_quality.Text.{join, fields, fields_from, is_space, push, emit}

-- No white space.
unfoldable pub is_solid : String → Bool
is_solid String.[] = true
is_solid (String.◌∷◌ c s) = not (is_space c) && is_solid s

-- A word: not empty, and without white space.
abbrev pub IsWord : String → Type 0
IsWord w = ((w == "") ≡ false) × (is_solid w ≡ true)

is_solid-push :
    (w : String) (c : Char) → is_solid w ≡ true → is_space c ≡ false → is_solid (push w c) ≡ true
unfolding is_solid
is_solid-push String.[] c h visible =
    rw (nil-append (String.◌∷◌ c ""), is_solid) (ground (arith, visible))
is_solid-push (String.◌∷◌ d w) c h visible =
    rw (cons-append d w (String.◌∷◌ c ""), is_solid) (ground (arith, is_solid-push w c))

cons-ne-empty : (c : Char) (w : String) → (String.◌∷◌ c w == "") ≡ false
cons-ne-empty c w = elim (Bool-cases (String.◌∷◌ c w == "")) [
  | inl same ↦ absurd (cons-ne-nil c w (beq→eq (String.◌∷◌ c w) "" same))
  | inr other ↦ other
]

push-nonempty : (w : String) (c : Char) → (push w c == "") ≡ false
push-nonempty String.[] c = rw (nil-append (String.◌∷◌ c "")) (cons-ne-empty c "")
push-nonempty (String.◌∷◌ d w) c =
    rw (cons-append d w (String.◌∷◌ c "")) (cons-ne-empty d (String.◌++◌ w (String.◌∷◌ c "")))

emit-All :
    (w : String) (rest : List String)
    → is_solid w ≡ true
    → All IsWord rest
    → All IsWord (emit w rest)
emit-All w rest h k = elim (Bool-cases (w == "")) [
  | inl empty ↦ rw empty k
  | inr filled ↦ rw filled ((filled, h), k)
]

fields_from-All : (cur s : String) → is_solid cur ≡ true → All IsWord (fields_from cur s)
unfolding fields_from is_solid
fields_from-All cur String.[] h = emit-All cur [] h tt
fields_from-All cur (String.◌∷◌ c s) h = elim (Bool-cases (is_space c)) [
  | inl space ↦
      rw (space, fields_from) (emit-All cur (fields_from "" s) h (fields_from-All "" s refl))
  | inr visible ↦
      rw (visible, fields_from) (fields_from-All (push cur c) s (is_solid-push cur c h visible))
]

-- What `fields` gives are words.
pub fields-All : (s : String) → All IsWord (fields s)
unfolding fields is_solid
fields-All s = fields_from-All "" s refl

fields_from-solid :
    (cur w s : String)
    → is_solid w ≡ true
    → fields_from cur (String.◌++◌ w s) ≡ fields_from (String.◌++◌ cur w) s
unfolding fields_from is_solid
fields_from-solid cur String.[] s h = rw (nil-append s, append-nil cur) refl
fields_from-solid cur (String.◌∷◌ c w) s h =
    let visible : is_space c ≡ false = ground (arith, h) in
    let tail : is_solid w ≡ true = ground (arith, h) in
    rw (cons-append c w s, visible, fields_from)
      (fields_from-solid (push cur c) w s tail
        ∙ ap (λ x. fields_from x s)
            (append_assoc cur (String.◌∷◌ c "") w
              ∙ ap (String.◌++◌ cur) (cons-append c "" w ∙ ap (String.◌∷◌ c) (nil-append w))))

join-cons :
    (w v : String) (ws : List String)
    → join " " (w ∷ v ∷ ws) ≡ String.◌++◌ w (String.◌∷◌ " " (join " " (v ∷ ws)))
unfolding join
join-cons w v ws = ap (String.◌++◌ w) (cons-append " " "" _ ∙ ap (String.◌∷◌ " ") (nil-append _))

-- Words that are joined at a space are found again.
pub fields-join : (ws : List String) → All IsWord ws → fields (join " " ws) ≡ ws
unfolding fields join fields_from
fields-join [] h = refl
fields-join (w ∷ []) ((filled, solid), h) =
    ap (fields_from "") (sym (append-nil w))
    ∙ fields_from-solid "" w "" solid
    ∙ rw (nil-append w, filled) refl
fields-join (w ∷ v ∷ ws) ((filled, solid), h) =
    ap (fields_from "") (join-cons w v ws)
    ∙ fields_from-solid "" w (String.◌∷◌ " " (join " " (v ∷ ws))) solid
    ∙ rw (nil-append w, filled) (ap (λ l. w ∷ l) (fields-join (v ∷ ws) h))
