-- ===== src/Validate/Groups.antt =====
-- The groups of the rows of a postal code by district, and the largest of them.
use mathlib.Core.List.{foldl, Memᴰ}
use mathlib.Core.Option
use address_quality.Prelude.{
  nat_eq, string_eq, none, some, inl, inr, [], ◌∷◌, false, ◌≡◌, refl, String, Bool, List, ◌==◌, ℕ,
  ◌++◌, select, Bool-cases, subst, length, ◌⊎◌, ◌&&◌, sym, beq→eq, ◌∙◌, some-eq, ◌≤◌, ltb,
  append-nil, beq_self, ◌||◌, All, append_assoc, arith, ap,
}
use address_quality.GoMap.{lookup, insert}
use address_quality.GoMap.Laws.{lookup-insert_self, lookup-insert_ne}
use address_quality.Cache.{append_at}
use address_quality.Model.{Location}
use address_quality.Validate.Lookup.{group_by_district, better_group, text_less}

abbrev pub in_district : String → Location → Bool
in_district d r = r.district == d

-- The rows of a district.
abbrev pub count_of : String → List Location → ℕ
count_of d rows = length (select (in_district d) rows)

abbrev pub same_location : Location → Location → Bool
same_location a b =
    a.postal_code == b.postal_code
    && a.sub_district == b.sub_district
    && a.district == b.district
    && a.city == b.city
    && a.province == b.province

abbrev pub Groups : Type 0
Groups = List (String × List Location)

abbrev pub add_row : Groups → Location → Groups
add_row groups r = append_at r.district r groups

-- The row is the last of the group of this district.
abbrev Appended : Groups → Location → String → Type 0
Appended g r d = Option.get_or (lookup d (add_row g r)) [] ≡ Option.get_or (lookup d g) [] ++ r ∷ []

row-Appended : (g : Groups) (r : Location) → Appended g r r.district
row-Appended g r =
    rw (lookup-insert_self r.district (Option.get_or (lookup r.district g) [] ++ r ∷ []) g) refl

-- The group of a district has its rows, in order.
foldl-group :
    (d : String) (rows : List Location) (g : Groups)
    → Option.get_or (lookup d (foldl add_row g rows)) []
      ≡ Option.get_or (lookup d g) [] ++ select (in_district d) rows
foldl-group d [] g = sym (append-nil _)
foldl-group d (r ∷ rows) g = elim (Bool-cases (r.district == d)) [
  | inl here ↦
      let e = beq→eq r.district d here in
      foldl-group d rows (add_row g r)
      ∙ ap (λ l. l ++ select (in_district d) rows) (subst (Appended g r) e (row-Appended g r))
      ∙ rw here
          (append_assoc (Option.get_or (lookup d g) []) (r ∷ []) (select (in_district d) rows))
  | inr other ↦
      foldl-group d rows (add_row g r)
      ∙ rw
          (
            other,
            lookup-insert_ne r.district d (Option.get_or (lookup r.district g) [] ++ r ∷ []) g
                other,
          )
          refl
]

pub group-lookup :
    (d : String) (rows : List Location)
    → Option.get_or (lookup d (group_by_district rows)) [] ≡ select (in_district d) rows
unfolding group_by_district lookup
group-lookup d rows = foldl-group d rows []

-- Each key comes once.
abbrev pub DistinctKeys : Groups → Type 0
DistinctKeys [] = Unit
DistinctKeys ((j, w) ∷ m) = (lookup j m ≡ none) × DistinctKeys m

ne_flip : (j k : String) → (j == k) ≡ false → (k == j) ≡ false
ne_flip j k h = elim (Bool-cases (k == j)) [
  | inl same ↦ cc (beq→eq k j same, beq_self j)
  | inr other ↦ other
]

insert-DistinctKeys :
    (k : String) (v : List Location) (m : Groups) → DistinctKeys m → DistinctKeys (insert k v m)
unfolding insert lookup
insert-DistinctKeys k v [] h = (refl, tt)
insert-DistinctKeys k v ((j, w) ∷ m) (new, h) = elim (Bool-cases (j == k)) [
  | inl same ↦ rw (insert, same) (new, h)
  | inr other ↦
      rw (insert, other)
        (lookup-insert_ne k j v m (ne_flip j k other) ∙ new, insert-DistinctKeys k v m h)
]

pub foldl-DistinctKeys :
    (rows : List Location) (g : Groups) → DistinctKeys g → DistinctKeys (foldl add_row g rows)
foldl-DistinctKeys [] g h = h
foldl-DistinctKeys (r ∷ rows) g h =
    foldl-DistinctKeys rows (add_row g r) (insert-DistinctKeys r.district _ g h)

pub Mem-lookup :
    (m : Groups) (e : String × List Location) → DistinctKeys m → Memᴰ e m → lookup e.0 m ≡ some e.1
unfolding lookup
Mem-lookup [] e h mem = elim mem [ ]
Mem-lookup ((j, w) ∷ m) e (new, h) (Memᴰ.head same) =
    subst (λ x. lookup x.0 ((j, w) ∷ m) ≡ some x.1) (sym same) (rw (lookup, beq_self j) refl)
Mem-lookup ((j, w) ∷ m) e (new, h) (Memᴰ.tail mem) =
    let found = Mem-lookup m e h mem in
    elim (Bool-cases (j == e.0)) [
      | inl same ↦ cc (beq→eq j e.0 same, new, found)
      | inr other ↦ rw (lookup, other) found
    ]

pub lookup-Mem : (m : Groups) (d : String) (l : List Location) → lookup d m ≡ some l → Memᴰ (d, l) m
unfolding lookup
lookup-Mem [] d l found = cc
lookup-Mem ((j, w) ∷ m) d l found = elim (Bool-cases (j == d)) [
  | inl same ↦
      let w_is : w ≡ l = some-eq w l (rw (lookup, same) at found) in
      Memᴰ.head (rw (beq→eq j d same, w_is) refl)
  | inr other ↦ Memᴰ.tail (lookup-Mem m d l (rw (lookup, other) at found))
]

better-length :
    (best group : String × List Location)
    → (length best.1 ≤ length (better_group best group).1)
      × (length group.1 ≤ length (better_group best group).1)
unfolding better_group
better-length best group =
    elim (Bool-cases (
      ltb (length best.1) (length group.1)
      || (length group.1 == length best.1 && text_less group.0 best.0))) [
        | inl taken ↦ rw (better_group, taken) (ground arith, omega arith)
        | inr kept ↦ rw (better_group, kept) (omega arith, ground arith)
      ]

-- No group is larger than the one that is chosen.
pub foldl-largest :
    (l : Groups) (start : String × List Location)
    → (length start.1 ≤ length (foldl better_group start l).1)
      × All (λ g. length g.1 ≤ length (foldl better_group start l).1) l
foldl-largest [] start = (omega arith, tt)
foldl-largest (g ∷ l) start =
    let (first, rest) = foldl-largest l (better_group start g) in
    let (from_start, from_g) = better-length start g in (omega arith, (omega arith, rest))

-- The chosen group is one of them, or the one at the start.
pub foldl-origin :
    (l : Groups) (start : String × List Location)
    → (foldl better_group start l ≡ start) ⊎ Memᴰ (foldl better_group start l) l
unfolding better_group
foldl-origin [] start = inl refl
foldl-origin (g ∷ l) start = elim (foldl-origin l (better_group start g)) [
  | inr later ↦ inr (Memᴰ.tail later)
  | inl same ↦
      elim (Bool-cases (
        ltb (length start.1) (length g.1)
        || (length g.1 == length start.1 && text_less g.0 start.0))) [
          | inl taken ↦ inr (Memᴰ.head (same ∙ rw (better_group, taken) refl))
          | inr kept ↦ inl (same ∙ rw (better_group, kept) refl)
        ]
]
