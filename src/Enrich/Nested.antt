-- ===== src/Enrich/Nested.antt =====
-- Enrichment of a candidate that names one level, and the hierarchy map.
use address_quality.Prelude.{
  nat_eq, ℕ, ◌≡◌, true, none, List, [], arith, is_some, Option-cases, inl, inr, Holds, nat_eq,
}
use address_quality.GoMap.{lookup, index}
use address_quality.Model.{AdminLocation, HierarchyMap}
use address_quality.Cache.{Caches}
use address_quality.Cache.Keyed.{IsKeyed, IsWellKeyed}
use address_quality.Evaluate.Conflicts.{count_non_nil}
use address_quality.Enrich.{
  parent, fill_district, fill_city, fill_province, fill_postal_code, enrich,
}

-- A location that names one level and nothing else.
pub record IsSingle (loc : AdminLocation) : Type 0 where
  pub clean : loc.conflicts ≡ []
  pub no_postal_code : loc.postal_code ≡ none
  pub one_level : count_non_nil loc ≡ 1

-- Without conflicts; each level lies in the one above it; the postal code is the sub-district's.
pub record IsNested (h : HierarchyMap) (loc : AdminLocation) : Type 0 where
  pub clean : loc.conflicts ≡ []
  pub city_in_province :
      Holds loc.city λ ct. Holds loc.province λ p. index h.city_to_province ct.id ≡ p.id
  pub district_in_city :
      Holds loc.district λ d. Holds loc.city λ ct. index h.district_to_city d.id ≡ ct.id
  pub sub_district_in_district :
      Holds loc.sub_district λ t. Holds loc.district λ d. index h.sub_district_to_dist t.id ≡ d.id
  pub postal_of_sub_district : Holds loc.postal_code λ pc. Holds loc.sub_district λ t. pc.id ≡ t.id

-- The parent that is found has the id that the hierarchy map gives.
parent-Holds :
    {E : Type 0} (id : E → ℕ) (above : List (ℕ × ℕ)) (by_id : List (ℕ × E)) (k : ℕ)
    → IsKeyed id by_id
    → Holds (parent above by_id k) (λ e. index above k ≡ id e)
unfolding parent
parent-Holds id above by_id k keyed = elim (Option-cases (lookup k above)) [
  | inl missing ↦ ground arith
  | inr (up, at) ↦ elim (Option-cases (lookup up by_id)) [
    | inl gone ↦ ground arith
    | inr (e, found) ↦ ground (arith, keyed up e found)
  ]
]

module _ (s : Caches) (h : HierarchyMap) (w : IsWellKeyed s) where
  -- After the district is filled.
  record HasDistrict (loc : AdminLocation) : Type 0 where
    clean : loc.conflicts ≡ []
    no_postal_code : loc.postal_code ≡ none
    nested :
        Holds loc.sub_district λ t. Holds loc.district λ d. index h.sub_district_to_dist t.id ≡ d.id
    no_city : is_some loc.district ≡ true → loc.city ≡ none
    no_province : is_some loc.district ≡ true → loc.province ≡ none
    top : is_some loc.city ≡ true → loc.province ≡ none

  fill_district-after : (loc : AdminLocation) → IsSingle loc → HasDistrict (fill_district s h loc)
  unfolding fill_district
  fill_district-after loc k = elim (Option-cases loc.sub_district) [
    | inl missing ↦ record {
      clean = ground arith;
      no_postal_code = ground arith;
      nested = ground arith;
      no_city = ground arith;
      no_province = ground arith;
      top = ground arith;
    }
    | inr (sub, at) ↦
        let up = parent-Holds _ h.sub_district_to_dist s.district_by_id sub.id w.districts in
        record {
          clean = ground arith;
          no_postal_code = ground arith;
          nested = ground (arith, up);
          no_city = ground arith;
          no_province = ground arith;
          top = ground arith;
        }
  ]

  -- After the city is filled.
  record HasCity (loc : AdminLocation) : Type 0 where
    clean : loc.conflicts ≡ []
    no_postal_code : loc.postal_code ≡ none
    nested :
        Holds loc.sub_district λ t. Holds loc.district λ d. index h.sub_district_to_dist t.id ≡ d.id
    city_nested : Holds loc.district λ d. Holds loc.city λ ct. index h.district_to_city d.id ≡ ct.id
    top : is_some loc.city ≡ true → loc.province ≡ none

  fill_city-after : (loc : AdminLocation) → HasDistrict loc → HasCity (fill_city s h loc)
  unfolding fill_city
  fill_city-after loc k = elim (Option-cases loc.district) [
    | inl missing ↦ record {
      clean = ground arith;
      no_postal_code = ground arith;
      nested = ground arith;
      city_nested = ground arith;
      top = ground arith;
    }
    | inr (d, at) ↦
        let up = parent-Holds _ h.district_to_city s.city_by_id d.id w.cities in
        record {
          clean = ground arith;
          no_postal_code = ground arith;
          nested = ground arith;
          city_nested = ground (arith, up);
          top = ground arith;
        }
  ]

  fill_province-after :
      (loc : AdminLocation)
      → HasCity loc
      → IsNested h (fill_province s h loc) × ((fill_province s h loc).postal_code ≡ none)
  unfolding fill_province
  fill_province-after loc k = elim (Option-cases loc.city) [
    | inl missing ↦ (
      record {
        clean = ground arith;
        city_in_province = ground arith;
        district_in_city = ground arith;
        sub_district_in_district = ground arith;
        postal_of_sub_district = ground arith;
      },
      ground arith,
    )
    | inr (c, at) ↦
        let up = parent-Holds _ h.city_to_province s.province_by_id c.id w.provinces in
        (
          record {
            clean = ground arith;
            city_in_province = ground (arith, up);
            district_in_city = ground arith;
            sub_district_in_district = ground arith;
            postal_of_sub_district = ground arith;
          },
          ground arith,
        )
  ]

  fill_postal_code-after :
      (loc : AdminLocation)
      → IsNested h loc
      → loc.postal_code ≡ none
      → IsNested h (fill_postal_code s h loc)
  unfolding fill_postal_code
  fill_postal_code-after loc k none_yet = record {
    clean = ground arith;
    city_in_province = ground arith;
    district_in_city = ground arith;
    sub_district_in_district = ground arith;
    postal_of_sub_district = ground arith;
  }

  -- A location that names one level is enriched, from caches that are keyed by id, to one without
  -- conflicts in which each level lies in the level above it by the hierarchy map, and whose postal
  -- code, if there is one beside a sub-district, is the sub-district's.
  pub enrich-IsNested : (loc : AdminLocation) → IsSingle loc → IsNested h (enrich s h loc)
  unfolding enrich
  enrich-IsNested loc k =
      let (nested, none_yet) =
        fill_province-after _ (fill_city-after _ (fill_district-after loc k)) in
      fill_postal_code-after _ nested none_yet
