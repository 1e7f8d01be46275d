-- ===== src/Validate/Postal.antt =====
-- The location that is inferred from the rows of a postal code.
use mathlib.Core.List.{foldl, Mem, Memᴰ}
use mathlib.Core.List.Perm
use mathlib.Core.Logic.{∥∥₁_elim}
use mathlib.Core.Bool.{Bool-set}
use address_quality.Prelude.{
  nat_eq, string_eq, inl, inr, [], ◌∷◌, true, false, ◌≡◌, refl, String, Bool, List, ◌==◌, ℕ, select,
  Bool-cases, subst, length, ◌&&◌, sym, beq→eq, ◌∙◌, ◌≤◌, beq_self, ◌||◌, All, arith, ap, get_or,
  any, Option-cases, leb, some,
}
use address_quality.GoMap.{RangeOrder, lookup}
use address_quality.Model.{Location, no_location}
use address_quality.Validate.Lookup.{
  group_by_district, better_group, best_group, infer_location, first_row,
}
use address_quality.Validate.Groups.{
  in_district, count_of, same_location, group-lookup, foldl-DistinctKeys, Mem-lookup, lookup-Mem,
  foldl-largest, foldl-origin,
}

-- A row of the group of this district, which is as large as the district.
abbrev is_pick : List Location → String × List Location → Bool
is_pick rows (d, l) =
    let pick = get_or l 0 no_location in
    any (same_location pick) rows && pick.district == d && length l == count_of d rows

same_location_self : (r : Location) → same_location r r ≡ true
same_location_self r =
    rw
      (
        beq_self r.postal_code,
        beq_self r.sub_district,
        beq_self r.district,
        beq_self r.city,
        beq_self r.province,
      )
      refl

or_right : (a b : Bool) → b ≡ true → (a || b) ≡ true
or_right true b h = refl
or_right false b h = h

abbrev first_of : String → List Location → Location
first_of d rows = get_or (select (in_district d) rows) 0 no_location

-- The first of the selected rows is a row, and passes the test.
first-select :
    (d : String) (rows : List Location)
    → 1 ≤ length (select (in_district d) rows)
    → (any (same_location (first_of d rows)) rows ≡ true) × (in_district d (first_of d rows) ≡ true)
first-select d [] h = elim h [ ]
first-select d (r ∷ rows) h = elim (Bool-cases (in_district d r)) [
  | inl here ↦ rw (here, same_location_self r) (refl, here)
  | inr other ↦
      let (found, inside) = first-select d rows (rw other at h) in
      let same : first_of d (r ∷ rows) ≡ first_of d rows = rw other refl in
      subst (λ p. (any (same_location p) (r ∷ rows) ≡ true) × (in_district d p ≡ true)) (sym same)
        (
          or_right (same_location (first_of d rows) r) (any (same_location (first_of d rows)) rows)
              found,
          inside,
        )
]

group-is_pick :
    (rows : List Location) (g : String × List Location)
    → 1 ≤ length g.1
    → Memᴰ g (group_by_district rows)
    → is_pick rows g ≡ true
unfolding group_by_district
group-is_pick rows (d, l) large mem =
    let found = Mem-lookup (group_by_district rows) (d, l) (foldl-DistinctKeys rows [] tt) mem in
    let l_is : l ≡ select (in_district d) rows = rw found at (group-lookup d rows) in
    let (first, inside) = first-select d rows (subst (λ x. 1 ≤ length x) l_is large) in
    subst (λ x. is_pick rows (d, x) ≡ true) (sym l_is)
      (rw (first, inside, beq_self (count_of d rows)) refl)

lookup-some :
    (d : String) (rows : List Location)
    → 1 ≤ count_of d rows
    → Memᴰ (d, select (in_district d) rows) (group_by_district rows)
lookup-some d rows large = elim (Option-cases (lookup d (group_by_district rows))) [
  | inl missing ↦
      let none_left : [] ≡ select (in_district d) rows = rw missing at (group-lookup d rows) in
      absurd (omega (arith, ap length none_left))
  | inr (l, found) ↦
      let l_is : l ≡ select (in_district d) rows = rw found at (group-lookup d rows) in
      subst (λ x. Memᴰ (d, x) (group_by_district rows)) l_is
        (lookup-Mem (group_by_district rows) d l found)
]

All-Mem : {A : Type 0} (P : A → Type 0) (l : List A) (a : A) → All P l → Memᴰ a l → P a
All-Mem P [] a h m = elim m [ ]
All-Mem P (x ∷ l) a (p, h) (Memᴰ.head e) = subst P (sym e) p
All-Mem P (x ∷ l) a (p, h) (Memᴰ.tail m) = All-Mem P l a h m

le-leb : (m n : ℕ) → m ≤ n → leb m n ≡ true
le-leb m n h = ground arith

-- No district has more rows than the chosen group.
count-best :
    (order : RangeOrder) (rows : List Location) (d : String)
    → leb (count_of d rows) (length (best_group order rows).1) ≡ true
unfolding best_group
count-best order rows d = elim (Bool-cases (leb 1 (count_of d rows))) [
  | inr few ↦ ground arith
  | inl large ↦
      let groups = group_by_district rows in
      let here = lookup-some d rows (ground arith) in
      let visited : Mem (d, select (in_district d) rows) (order.visit _ groups) =
        (Perm.mem_iff (Perm.symm (order.visit_perm _ groups))).0 ∣ here ∣₁ in
      ∥∥₁_elim visited (Bool-set _ _) (λ m. le-leb _ _ (
        All-Mem (λ g. length g.1 ≤ length (foldl better_group ("", []) (order.visit _ groups)).1)
          (order.visit _ groups) (d, select (in_district d) rows)
          (foldl-largest (order.visit _ groups) ("", [])).1 m))
]

best-is_pick :
    (order : RangeOrder) (rows : List Location)
    → 1 ≤ length (best_group order rows).1
    → is_pick rows (best_group order rows) ≡ true
unfolding best_group
best-is_pick order rows large =
    elim (foldl-origin (order.visit _ (group_by_district rows)) ("", [])) [
      | inl start ↦ absurd (omega (arith, ap (λ (g : String × List Location). length g.1) start))
      | inr mem ↦
          ∥∥₁_elim ((Perm.mem_iff (order.visit_perm _ (group_by_district rows))).0 ∣ mem ∣₁)
            (Bool-set _ _) (λ m. group-is_pick rows _ large m)
    ]

first_of_group :
    (l : List Location) → 1 ≤ length l → first_row l ≡ some (get_or l 0 no_location, true)
first_of_group [] h = elim h [ ]
first_of_group (best ∷ others) h = refl

-- From the rows of a postal code, if there are any, the lookup infers a location, without a panic,
-- that is one of them, and whose district has as many of the rows as any district has.
pub infer_location-largest :
    (order : RangeOrder) (r : Location) (rest : List Location)
    → (pick : Location) × (infer_location order (r ∷ rest) ≡ some (pick, true))
      × (any (same_location pick) (r ∷ rest) ≡ true)
      × ((district : String) → count_of district (r ∷ rest) ≤ count_of pick.district (r ∷ rest))
unfolding infer_location
infer_location-largest order r rest =
    let rows = r ∷ rest in
    let own : 1 ≤ count_of r.district rows = rw (beq_self r.district) (omega arith) in
    let enough : leb (count_of r.district rows) (length (best_group order rows).1) ≡ true =
      count-best order rows r.district in
    let filled : 1 ≤ length (best_group order rows).1 = ground (arith, own, enough) in
    let pick = best-is_pick order rows filled in
    let best = best_group order rows in
    let chosen = get_or best.1 0 no_location in
    let there : any (same_location chosen) rows ≡ true = ground (arith, pick) in
    let inside : (chosen.district == best.0) ≡ true = ground (arith, pick) in
    let full : (length best.1 == count_of best.0 rows) ≡ true = ground (arith, pick) in
    let as_large : length best.1 ≡ count_of chosen.district rows =
      beq→eq _ _ full ∙ ap (λ d. count_of d rows) (sym (beq→eq _ _ inside)) in
    (
      chosen,
      first_of_group best.1 filled,
      there,
      λ district.
          let at_most : count_of district rows ≤ length best.1 =
            ground (arith, count-best order rows district) in
          omega (arith, as_large, at_most),
    )
