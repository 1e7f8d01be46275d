-- ===== src/Enrich.antt =====
-- internal/service/enrich.go: the missing levels above a candidate's own are looked up.
pub mod Nested
use address_quality.Prelude.{
  ℕ, String, Bool, not, ◌&&◌, Option, none, some, List, [], ◌∷◌, map, is_some, ◌==◌, nat_eq,
  string_eq, if◌then◌else◌,
}
use address_quality.GoMap.{lookup}
use address_quality.Model.{
  Province, City, District, SubDistrict, PostalCode, AdminLocation, AdminCandidate, HierarchyMap,
}
use address_quality.Cache.{ProvinceEntry, CityEntry, DistrictEntry, Caches}
use address_quality.Normalizer.{normalize}

abbrev pub district_of_entry : DistrictEntry → District
district_of_entry e = record { id = e.id; name = e.name; normalized_name = normalize e.name }

abbrev pub city_of_entry : CityEntry → City
city_of_entry e = record {
  id = e.id;
  name = e.name;
  normalized_name = normalize e.name;
  postal_code = e.postal_code;
}

abbrev pub province_of_entry : ProvinceEntry → Province
province_of_entry e = record { id = e.id; name = e.name; normalized_name = normalize e.name }

-- The entry of the parent that the hierarchy map gives for an id.
unfoldable pub parent {ℓ} : {E : Type ℓ} → List (ℕ × ℕ) → List (ℕ × E) → ℕ → Option E
parent above by_id id = elim (lookup id above) [ none ↦ none | some up ↦ lookup up by_id ]

module _ (s : Caches) (h : HierarchyMap) where
  unfoldable pub fill_district : AdminLocation → AdminLocation
  fill_district loc = elim loc.sub_district [
    | none ↦ loc
    | some sub ↦ elim loc.district [
      | some d ↦ loc
      | none ↦ elim (parent h.sub_district_to_dist s.district_by_id sub.id) [
        | none ↦ loc
        | some e ↦ record loc { district = some (district_of_entry e) }
      ]
    ]
  ]

  unfoldable pub fill_city : AdminLocation → AdminLocation
  fill_city loc = elim loc.district [
    | none ↦ loc
    | some d ↦ elim loc.city [
      | some c ↦ loc
      | none ↦ elim (parent h.district_to_city s.city_by_id d.id) [
        | none ↦ loc
        | some e ↦ record loc { city = some (city_of_entry e) }
      ]
    ]
  ]

  unfoldable pub fill_province : AdminLocation → AdminLocation
  fill_province loc = elim loc.city [
    | none ↦ loc
    | some c ↦ elim loc.province [
      | some p ↦ loc
      | none ↦ elim (parent h.city_to_province s.province_by_id c.id) [
        | none ↦ loc
        | some e ↦ record loc { province = some (province_of_entry e) }
      ]
    ]
  ]

  unfoldable pub fill_postal_code : AdminLocation → AdminLocation
  fill_postal_code loc = elim loc.sub_district [
    | none ↦ loc
    | some sub ↦ elim loc.postal_code [
      | some pc ↦ loc
      | none ↦
          if not (sub.postal_code == "")
          then record loc {
            postal_code = some (record { id = sub.id; code = sub.postal_code; name = "" });
          }
          else loc
    ]
  ]

  -- The body of the loop.
  unfoldable pub enrich : AdminLocation → AdminLocation
  enrich loc = fill_postal_code (fill_province (fill_city (fill_district loc)))

  abbrev pub enrich_candidate : AdminCandidate → AdminCandidate
  enrich_candidate c = record c { location = enrich c.location }

unfoldable pub enrich_candidates : Caches → List AdminCandidate → List AdminCandidate
enrich_candidates s candidates = elim s.hierarchy_cache [
  | none ↦ candidates
  | some h ↦ map (enrich_candidate s h) candidates
]
