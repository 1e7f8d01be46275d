-- ===== src/Database/Returns.antt =====
-- Methods when no call of the driver fails.
use mathlib.Core.Option
use address_quality.Prelude.{
  nat_eq, string_eq, some, inl, inr, [], ◌∷◌, ◌≡◌, refl, Option, String, ℕ, List, select,
  Bool-cases, length, ◌==◌,
}
use address_quality.GoMap.{RangeOrder}
use address_quality.Database.{LocationDb, CodeRow, Conn, Query, ◌>>=◌, pure, query, select_row}
use address_quality.Database.Does.{Does, call-Does, query-Does}
use address_quality.Database.Codes.{
  or_empty, name_of, prefix_kode, add_province, add_city, add_district, add_parents, scan_postal,
  find_by_postal_code, row_location, is_postal_row,
}
use address_quality.Text.Split.{split}
use address_quality.Model.{Location}

-- When no call fails the method returns a value, and no call is left to fail.
abbrev pub Returns : {A : Type 0} → Query A → Type 0
Returns {A} m = (c : Conn) → c.faults ≡ [] → (a : A) × ((m c).0 ≡ some a) × ((m c).1.faults ≡ [])

pub bind-Returns :
    {A B : Type 0} (m : Query A) (k : A → Query B)
    → Returns m
    → ((a : A) → Returns (k a))
    → Returns (m >>= k)
bind-Returns m k hm hk c clean =
    let (a, returned, still) = hm c clean in
    let (b, returned', still') = hk a (m c).1 still in
    (b, rw (◌>>=◌, returned) returned', rw (◌>>=◌, returned) still')

pub Does-Returns :
    {A : Type 0} (m : Query A) (v : LocationDb → A) (e : LocationDb → LocationDb)
    → Does m v e
    → Returns m
Does-Returns m v e h c clean = elim (h c) [
  | inl (failed, fault) ↦ absurd (fault clean)
  | inr (returned, left, still) ↦ (v c.db, returned, still clean)
]

pub pure-Returns : {A : Type 0} (a : A) → Returns (pure a)
pure-Returns a c clean = (a, refl, clean)

-- A lookup whose row is there.
pub select_row-Returns :
    {A : Type 0} (row : LocationDb → Option A) (c : Conn) (a : A)
    → c.faults ≡ []
    → row c.db ≡ some a
    → ((select_row row c).0 ≡ some a) × ((select_row row c).1.faults ≡ [])
unfolding select_row
select_row-Returns row c a clean found = elim (call-Does c) [
  | inl (failed, fault) ↦ absurd (fault clean)
  | inr (returned, left, still) ↦
      (rw (◌>>=◌, returned, left) found, rw (◌>>=◌, returned) (still clean))
]

or_empty-Returns : (row : LocationDb → Option String) → Returns (or_empty (select_row row))
unfolding or_empty select_row
or_empty-Returns row c clean = elim (call-Does c) [
  | inl (failed, fault) ↦ absurd (fault clean)
  | inr (returned, left, still) ↦
      (Option.get_or (select_row row c).0 "", refl, rw (◌>>=◌, returned) (still clean))
]

add_province-Returns :
    (source_id : ℕ) (parts : List String) (loc : Location)
    → Returns (add_province source_id parts loc)
unfolding add_province
add_province-Returns source_id parts loc =
    bind-Returns
      (or_empty (select_row (λ d. name_of (prefix_kode 1 parts) source_id d.location_codes)))
      (λ n. pure (record loc { province = n }))
      (or_empty-Returns (λ d. name_of (prefix_kode 1 parts) source_id d.location_codes))
      (λ n. pure-Returns (record loc { province = n }))

add_city-Returns :
    (source_id : ℕ) (parts : List String) (loc : Location) → Returns (add_city source_id parts loc)
unfolding add_city
add_city-Returns source_id parts loc =
    bind-Returns
      (or_empty (select_row (λ d. name_of (prefix_kode 2 parts) source_id d.location_codes)))
      (λ n. add_province source_id parts (record loc { city = n }))
      (or_empty-Returns (λ d. name_of (prefix_kode 2 parts) source_id d.location_codes))
      (λ n. add_province-Returns source_id parts (record loc { city = n }))

add_district-Returns :
    (source_id : ℕ) (parts : List String) (loc : Location)
    → Returns (add_district source_id parts loc)
unfolding add_district
add_district-Returns source_id parts loc =
    bind-Returns
      (or_empty (select_row (λ d. name_of (prefix_kode 3 parts) source_id d.location_codes)))
      (λ n. add_city source_id parts (record loc { district = n }))
      (or_empty-Returns (λ d. name_of (prefix_kode 3 parts) source_id d.location_codes))
      (λ n. add_city-Returns source_id parts (record loc { district = n }))

add_parents-Returns :
    (source_id : ℕ) (parts : List String) (loc : Location)
    → Returns (add_parents source_id parts loc)
unfolding add_parents
add_parents-Returns source_id parts loc = elim (Bool-cases (length parts == 4)) [
  | inl four ↦ rw (add_parents, four) (add_district-Returns source_id parts loc)
  | inr not_four ↦ elim (Bool-cases (length parts == 3)) [
    | inl three ↦ rw (add_parents, not_four, three) (add_city-Returns source_id parts loc)
    | inr not_three ↦ elim (Bool-cases (length parts == 2)) [
      | inl two ↦
          rw (add_parents, not_four, not_three, two) (add_province-Returns source_id parts loc)
      | inr other ↦ rw (add_parents, not_four, not_three, other) (pure-Returns loc)
    ]
  ]
]

scan_postal-Returns : (source_id : ℕ) (rows : List CodeRow) → Returns (scan_postal source_id rows)
unfolding scan_postal
scan_postal-Returns source_id [] = pure-Returns {A = List Location} []
scan_postal-Returns source_id (r ∷ rows) =
    bind-Returns (add_parents source_id (split 46 r.kode) (row_location r))
      (λ loc. scan_postal source_id rows >>= λ rest. pure (loc ∷ rest))
      (add_parents-Returns source_id (split 46 r.kode) (row_location r))
      (λ loc.
        bind-Returns (scan_postal source_id rows) (λ rest. pure (loc ∷ rest))
          (scan_postal-Returns source_id rows) (λ rest. pure-Returns (loc ∷ rest)))

pub find_by_postal_code-Returns :
    (order : RangeOrder) (postal_code : String) (source_id : ℕ)
    → Returns (find_by_postal_code order postal_code source_id)
unfolding find_by_postal_code
find_by_postal_code-Returns order postal_code source_id =
    bind-Returns (query order (λ d. select (is_postal_row postal_code source_id) d.location_codes))
      (scan_postal source_id)
      (Does-Returns
        (query order (λ d. select (is_postal_row postal_code source_id) d.location_codes)) _ _
        (query-Does order (λ d. select (is_postal_row postal_code source_id) d.location_codes)))
      (λ rows. scan_postal-Returns source_id rows)
