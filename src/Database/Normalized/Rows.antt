-- ===== src/Database/Normalized/Rows.antt =====
-- One row of location_codes through the chunks of a rebuild of lowercase_normalized.
use mathlib.Core.List.{foldl}
use address_quality.Prelude.{
  nat_eq, string_eq, none, some, inl, inr, [], ◌∷◌, true, false, ◌≡◌, refl, List, String, Bool, ℕ,
  any, ◌==◌, not, ◌⊎◌, Option-cases, ◌++◌, ◌||◌, Bool-cases, arith, beq→eq, any-append, beq_self,
  subst, map, sym, ap,
}
use address_quality.Chunks.{concat}
use address_quality.Normalizer.{normalize}
use address_quality.Database.{CodeRow}
use address_quality.Database.Visited.{AllPass}
use address_quality.Database.Normalized.{case_id, update_row}

abbrev pub Codes : Type 0
Codes = List (ℕ × String)

-- One row through all the chunks.
abbrev pub updated : String → List Codes → CodeRow → CodeRow
updated now groups r = foldl (λ s g. update_row now g s) r groups

-- A row whose column is the normalized name.
abbrev pub is_current : CodeRow → Bool
is_current r = r.lowercase_normalized == normalize r.name

-- The pair does not say another name for the row's id.
abbrev pub agrees : CodeRow → ℕ × String → Bool
agrees r p = not (p.0 == r.id) || p.1 == r.name

abbrev pub names_row : CodeRow → ℕ × String → Bool
names_row r p = p.0 == r.id

case_id-agrees :
    (r : CodeRow) (g : Codes)
    → AllPass (agrees r) g
    → ((case_id g r.id ≡ none) × (any (names_row r) g ≡ false))
      ⊎ (case_id g r.id ≡ some (normalize r.name))
unfolding case_id
case_id-agrees r [] h = inl (refl, refl)
case_id-agrees r ((i, name) ∷ g) (here, h) = elim (Bool-cases (i == r.id)) [
  | inl same ↦
      let named : (name == r.name) ≡ true = rw same at here in
      inr (rw (case_id, same, beq→eq name r.name named) refl)
  | inr other ↦ elim (case_id-agrees r g h) [
    | inl (missing, absent) ↦ inl (rw (case_id, other) missing, rw other absent)
    | inr found ↦ inr (rw (case_id, other) found)
  ]
]

-- The id and the name stay.
pub update_row-names :
    (now : String) (g : Codes) (r : CodeRow)
    → ((update_row now g r).id ≡ r.id)
      × ((update_row now g r).name ≡ r.name)
      × ((update_row now g r).deleted_at ≡ r.deleted_at)
unfolding update_row
update_row-names now g r = elim (Option-cases (case_id g r.id)) [
  | inl missing ↦ rw (update_row, missing) (refl, refl, refl)
  | inr (text, found) ↦ rw (update_row, found) (refl, refl, refl)
]

agrees-moves :
    (r s : CodeRow) (g : Codes)
    → s.id ≡ r.id
    → s.name ≡ r.name
    → AllPass (agrees r) g
    → AllPass (agrees s) g
agrees-moves r s [] i n h = tt
agrees-moves r s (p ∷ g) i n (here, h) = (rw (i, n) here, agrees-moves r s g i n h)

AllPass-append :
    {A : Type 0} (p : A → Bool) (xs ys : List A)
    → AllPass p (xs ++ ys)
    → AllPass p xs × AllPass p ys
AllPass-append p [] ys h = (tt, h)
AllPass-append p (x ∷ xs) ys (here, h) =
    let (left, right) = AllPass-append p xs ys h in ((here, left), right)

-- A row that is named, or current already, is current in the end.
pub updated-is_current :
    (now : String) (groups : List Codes) (r : CodeRow)
    → AllPass (agrees r) (concat groups)
    → (is_current r || any (names_row r) (concat groups)) ≡ true
    → is_current (updated now groups r) ≡ true
unfolding update_row
updated-is_current now [] r h start = ground (arith, start)
updated-is_current now (g ∷ groups) r h start =
    let (first, later) = AllPass-append (agrees r) g (concat groups) h in
    elim (case_id-agrees r g first) [
      | inl (missing, absent) ↦
          let same : update_row now g r ≡ r = rw (update_row, missing) refl in
          subst (λ s. is_current (updated now groups s) ≡ true) (sym same)
            (updated-is_current now groups r later
              (rw (any-append (names_row r) g (concat groups), absent) at start))
      | inr found ↦
          let renewed = record r {
            lowercase_normalized = normalize r.name;
            updated_at = some now;
          } in
          let same : update_row now g r ≡ renewed = rw (update_row, found) refl in
          subst (λ s. is_current (updated now groups s) ≡ true) (sym same)
            (updated-is_current now groups renewed
              (agrees-moves r renewed (concat groups) refl refl later)
              (rw (beq_self (normalize r.name)) refl))
    ]

pub map-id : {A : Type 0} (l : List A) → map (λ x. x) l ≡ l
map-id [] = refl
map-id (x ∷ l) = ap (λ t. x ∷ t) (map-id l)

pub map-twice : {A : Type 0} (f g : A → A) (l : List A) → map g (map f l) ≡ map (λ x. g (f x)) l
map-twice f g [] = refl
map-twice f g (x ∷ l) = ap (λ t. g (f x) ∷ t) (map-twice f g l)
