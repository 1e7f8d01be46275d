-- ===== src/Resolve.antt =====
-- internal/service/resolve.go: the entities of each piece of evidence, and the phrase dictionary of
-- internal/service/validate_helper.go that they are looked up in.
pub mod Phrases
pub mod Unique
use Prim.Native.String
use mathlib.Core.Option
use address_quality.Prelude.{none, some}
use address_quality.GoMap.{RangeOrder, lookup, insert, index}
use address_quality.Itoa.{itoa}
use address_quality.Text.{has_prefix, chars, fields, join, remove_spaces, to_lower, chars}
use address_quality.Model.{EvidenceType, Evidence, Entity, Level, ResolvedEvidence, HierarchyMap}
use address_quality.Builder.{at_level, is_province, is_city, is_district, is_subdistrict}
use address_quality.Sort.{sort_stable}
use address_quality.Cache.{Caches, SubDistrictEntry, source_key}
use address_quality.Prelude.{
  Bool, List, String, Option, true, false, ℕ, map, ◌∷◌, [], ◌&&◌, any, ◌++◌, if◌then◌else◌, length,
  not, some, contains, ◌==◌, ◌||◌, nat_eq, string_eq,
}

abbrev pub is_place : EvidenceType → Bool
is_place EvidenceType.place_name = true
is_place _ = false

abbrev pub is_location : EvidenceType → Bool
is_location EvidenceType.road_name = false
is_location _ = true

-- The loop of `appendUniqueEntities`, with the ids seen so far.
unfoldable pub append_unseen : List ℕ → List Entity → List Entity → List Entity
append_unseen seen dst [] = dst
append_unseen seen dst (e ∷ es) =
    let skip = append_unseen seen dst es in
    let add = append_unseen (e.id ∷ seen) (dst ++ e ∷ []) es in
    if contains seen e.id then skip else add

unfoldable pub append_unique_entities : List Entity → List Entity → List Entity
append_unique_entities dst entities = append_unseen (map (λ e. e.id) dst) dst entities

-- `unique` of `resolvePlaceNameEntity` is filled by the same loop, from nothing.
unfoldable pub resolve_place_name_entity : Evidence → List (String × List Entity) → List Entity
resolve_place_name_entity ev word_entities = elim (lookup ev.value word_entities) [
  | none ↦ []
  | some entities ↦ append_unseen [] [] entities
]

-- The entries of one cache key with the postal code.
unfoldable pub entries_with_code : String → List SubDistrictEntry → List Entity
entries_with_code code [] = []
entries_with_code code (entry ∷ rest) =
    let others = entries_with_code code rest in
    if entry.postal_code == code
    then record {
      id = entry.id;
      name = entry.name;
      level = Level.subdistrict;
      postal_code = entry.postal_code;
    }
      ∷ others
    else others

unfoldable pub codes_from : String → List (String × List SubDistrictEntry) → List Entity
codes_from code [] = []
codes_from code ((_, entries) ∷ rest) = entries_with_code code entries ++ codes_from code rest

unfoldable pub resolve_postal_code_entity : RangeOrder → Caches → Evidence → List Entity
resolve_postal_code_entity order s ev =
    codes_from ev.value (order.visit (String × List SubDistrictEntry) s.sub_district_cache)

abbrev pub resolve_road_name_entity : Evidence → List Entity
resolve_road_name_entity ev = []

-- The ids of one level among the place names: `districts`, `cities` and `provinces`.
unfoldable pub level_ids : (Level → Bool) → List ResolvedEvidence → List ℕ
level_ids p [] = []
level_ids p (re ∷ rest) =
    let others = level_ids p rest in
    if is_place re.evidence.type
    then map (λ e. e.id) (at_level p re.candidates) ++ others
    else others

abbrev allows : List ℕ → ℕ → Bool
allows ids id = length ids == 0 || contains ids id

-- A candidate whose chain of parents the other place names allow.
unfoldable pub compatible : HierarchyMap → List ResolvedEvidence → Entity → Bool
compatible h resolved e = is_subdistrict e.level && elim (lookup e.id h.sub_district_to_dist) [
  | none ↦ false
  | some district_id ↦
      let city_id = index h.district_to_city district_id in
      let province_id = index h.city_to_province city_id in
      allows (level_ids is_district resolved) district_id
      && allows (level_ids is_city resolved) city_id
      && allows (level_ids is_province resolved) province_id
]

unfoldable pub has_hierarchy_compatible_exact_subdistrict :
    Option HierarchyMap → List ResolvedEvidence → Bool
has_hierarchy_compatible_exact_subdistrict none resolved = false
has_hierarchy_compatible_exact_subdistrict (some h) resolved =
    any (λ re. is_place re.evidence.type && any (compatible h resolved) re.candidates) resolved

unfoldable pub has_other_location_evidence : List ResolvedEvidence → String → List String → Bool
has_other_location_evidence resolved priority_value road_tokens =
    any
      (λ re.
        not (re.evidence.value == priority_value)
        && not (length re.candidates == 0)
        && not (contains road_tokens re.evidence.value)
        && is_location re.evidence.type)
      resolved

-- cityTypeOf
abbrev pub city_type_of : String → String
city_type_of name = if has_prefix (chars "Kota ") (chars name) then "KOTA" else "KABUPATEN"

-- `less` of `sort.SliceStable`
abbrev pub preferred : String → Entity → Entity → Bool
preferred city_type a b =
    not (city_type_of a.name == city_type_of b.name) && city_type_of a.name == city_type

-- The loop of `applyCityPriority`: what it has gone through, which it has changed in place, and the rest.
unfoldable pub prioritize :
    List (String × String)
    → List String
    → List ResolvedEvidence
    → List ResolvedEvidence
    → List ResolvedEvidence
prioritize priority_set road_tokens done [] = done
prioritize priority_set road_tokens done (re ∷ rest) =
    let keep = prioritize priority_set road_tokens (done ++ re ∷ []) rest in
    if not (is_place re.evidence.type) then keep else elim (lookup re.evidence.value priority_set) [
      | none ↦ keep
      | some city_type ↦
          let cities = record re {
            candidates = sort_stable (preferred city_type) (at_level is_city re.candidates);
          } in
          let suppress = prioritize priority_set road_tokens (done ++ cities ∷ []) rest in
          if has_other_location_evidence (done ++ re ∷ rest) re.evidence.value road_tokens
          then keep
          else suppress
    ]

unfoldable pub apply_city_priority :
    List (String × String) → List String → List ResolvedEvidence → List ResolvedEvidence
apply_city_priority priority_set road_tokens resolved =
    if length priority_set == 0 then resolved else prioritize priority_set road_tokens [] resolved

-- The switch of `ResolveEvidence`.
unfoldable pub resolve_one :
    RangeOrder → Caches → List (String × List Entity) → Evidence → ResolvedEvidence
resolve_one order s word_entities ev = record {
  evidence = ev;
  candidates = elim ev.type [
    | EvidenceType.postal_code ↦ resolve_postal_code_entity order s ev
    | EvidenceType.place_name ↦ resolve_place_name_entity ev word_entities
    | EvidenceType.road_name ↦ resolve_road_name_entity ev
  ];
}

-- The compact phrases of a place name join its candidates.
unfoldable pub add_compact : List (String × List Entity) → ResolvedEvidence → ResolvedEvidence
add_compact compact_entities re =
    if is_place re.evidence.type
    then record re {
      candidates =
          append_unique_entities re.candidates
            (Option.get_or (lookup re.evidence.value compact_entities) []);
    }
    else re
