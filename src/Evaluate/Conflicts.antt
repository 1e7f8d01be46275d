-- ===== src/Evaluate/Conflicts.antt =====
-- internal/service/evaluate.go: what contradicts a candidate. A function that writes through the
-- candidate returns the new candidate.
use Prim.Native.String
use address_quality.Prelude.{
  ℕ, ◌+◌, String, Bool, false, not, ◌&&◌, Option, none, some, List, [], ◌∷◌, ◌++◌, ltb, contains,
  is_some, when, ◌==◌, nat_eq, if◌then◌else◌,
}
use address_quality.GoMap.{index}
use address_quality.Model.{
  ConflictType, hierarchy_conflict, postal_code_mismatch, orphan_city, multiple_city,
  duplicate_level, MatchedEvidence, Entity, Level, AdminLocation, AdminCandidate, HierarchyMap,
}

unfoldable pub add_conflict : ConflictType → String → AdminCandidate → AdminCandidate
add_conflict type message c = record c {
  location = record (c.location) {
    conflicts = c.location.conflicts ++ record { type = type; message = message } ∷ [];
  };
}

-- The three guards of `evaluateHierarchy`: both levels are there, and the map disagrees.
unfoldable pub city_outside : HierarchyMap → AdminLocation → Bool
city_outside h loc = elim loc.city [
  | none ↦ false
  | some city ↦ elim loc.province [
    | none ↦ false
    | some province ↦ not (index h.city_to_province city.id == province.id)
  ]
]

unfoldable pub district_outside : HierarchyMap → AdminLocation → Bool
district_outside h loc = elim loc.district [
  | none ↦ false
  | some district ↦ elim loc.city [
    | none ↦ false
    | some city ↦ not (index h.district_to_city district.id == city.id)
  ]
]

unfoldable pub sub_district_outside : HierarchyMap → AdminLocation → Bool
sub_district_outside h loc = elim loc.sub_district [
  | none ↦ false
  | some sub ↦ elim loc.district [
    | none ↦ false
    | some district ↦ not (index h.sub_district_to_dist sub.id == district.id)
  ]
]

-- It stops at the first conflict.
unfoldable pub evaluate_hierarchy : Option HierarchyMap → AdminCandidate → AdminCandidate
evaluate_hierarchy none c = c
evaluate_hierarchy (some h) c =
    if city_outside h c.location
    then add_conflict hierarchy_conflict "city does not belong to province" c
    else if district_outside h c.location
    then add_conflict hierarchy_conflict "district does not belong to city" c
    else if sub_district_outside h c.location
    then add_conflict hierarchy_conflict "sub-district does not belong to district" c
    else c

-- `detectMultipleCities`, the body of its loop once `me` is resolved at level CITY
unfoldable pub another_city : AdminLocation → ℕ → Bool
another_city loc id = elim loc.city [ none ↦ false | some city ↦ not (id == city.id) ]

-- The entity of evidence that is resolved at level CITY; the loop goes on at any other.
unfoldable pub city_of : MatchedEvidence → Option Entity
city_of me = elim me.resolved [
  | none ↦ none
  | some e ↦ elim e.level [ Level.city ↦ some e | _ ↦ none ]
]

abbrev pub city_message : Entity → String
city_message e = String.◌++◌ "multiple city candidates: " e.name

-- `detectMultipleCities`: the loop, with the ids seen so far. It reads the evidence and the location
-- that the candidate had before; `addConflict` changes neither.
unfoldable pub multiple_cities : List ℕ → List MatchedEvidence → AdminCandidate → AdminCandidate
multiple_cities seen [] c = c
multiple_cities seen (me ∷ rest) c = elim (city_of me) [
  | none ↦ multiple_cities seen rest c
  | some e ↦
      let skip = multiple_cities seen rest c in
      let next = multiple_cities (e.id ∷ seen) rest (
        if another_city c.location e.id
        then add_conflict multiple_city (city_message e) c
        else c) in
      if contains seen e.id then skip else next
]

unfoldable pub detect_multiple_cities : AdminCandidate → AdminCandidate
detect_multiple_cities c = multiple_cities [] c.evidence c

-- The map `levels` of `detectDuplicateLevel`, as a function of the key; it has no key CITY.
unfoldable pub level_id : AdminLocation → Level → Option ℕ
level_id loc Level.province = elim loc.province [ none ↦ none | some p ↦ some p.id ]
level_id loc Level.city = none
level_id loc Level.district = elim loc.district [ none ↦ none | some d ↦ some d.id ]
level_id loc Level.subdistrict = elim loc.sub_district [ none ↦ none | some s ↦ some s.id ]
level_id loc (Level.other t) = none

-- A level as the source spells it.
abbrev pub level_text : Level → String
level_text Level.province = "PROVINCE"
level_text Level.city = "CITY"
level_text Level.district = "DISTRICT"
level_text Level.subdistrict = "SUBDISTRICT"
level_text (Level.other t) = t

unfoldable pub duplicate_message : Entity → String
duplicate_message e =
    String.◌++◌ "duplicate " (String.◌++◌ (level_text e.level) (String.◌++◌ ": " e.name))

unfoldable pub duplicates_level : AdminLocation → Entity → Bool
duplicates_level loc e = elim (level_id loc e.level) [ none ↦ false | some id ↦ not (id == e.id) ]

-- `detectDuplicateLevel`: one round of its loop
unfoldable pub duplicate_round : MatchedEvidence → AdminCandidate → AdminCandidate
duplicate_round me c = elim me.resolved [
  | none ↦ c
  | some e ↦
      if duplicates_level c.location e
      then add_conflict duplicate_level (duplicate_message e) c
      else c
]

unfoldable pub duplicate_levels : List MatchedEvidence → AdminCandidate → AdminCandidate
duplicate_levels [] c = c
duplicate_levels (me ∷ rest) c = duplicate_levels rest (duplicate_round me c)

unfoldable pub detect_duplicate_level : AdminCandidate → AdminCandidate
detect_duplicate_level c = duplicate_levels c.evidence c

-- `levelCount` of `detectConflicts`, and `countNonNil` of internal/service/builder.go
abbrev pub count_non_nil : AdminLocation → ℕ
count_non_nil loc =
    when (is_some loc.province) 1
    + when (is_some loc.city) 1
    + when (is_some loc.district) 1
    + when (is_some loc.sub_district) 1

unfoldable pub postal_mismatch : AdminLocation → Bool
postal_mismatch loc = elim loc.postal_code [
  | none ↦ false
  | some pc ↦ elim loc.sub_district [ none ↦ false | some sub ↦ not (pc.id == sub.id) ]
]

unfoldable pub city_is_orphan : AdminLocation → Bool
city_is_orphan loc = ltb 1 (count_non_nil loc) && is_some loc.city && not (is_some loc.province)

unfoldable pub detect_postal : AdminCandidate → AdminCandidate
detect_postal c =
    if postal_mismatch c.location
    then add_conflict postal_code_mismatch "postal code does not match sub-district" c
    else c

unfoldable pub detect_orphan : AdminCandidate → AdminCandidate
detect_orphan c =
    if city_is_orphan c.location
    then add_conflict orphan_city "city resolved without province" c
    else c

unfoldable pub detect_conflicts : AdminCandidate → AdminCandidate
detect_conflicts c =
    detect_duplicate_level (detect_multiple_cities (detect_orphan (detect_postal c)))
