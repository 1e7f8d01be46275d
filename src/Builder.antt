-- ===== src/Builder.antt =====
-- internal/service/builder.go: one candidate for each resolved entity, and the conclusions.
use address_quality.Prelude.{
  ℕ, ◌+◌, String, Bool, true, false, Option, none, some, List, [], ◌∷◌, ◌++◌, map, ltb, select,
  contains, nat_eq, string_eq, if◌then◌else◌,
}
use address_quality.Sort.{SliceSort}
use address_quality.Normalizer.{normalize}
use address_quality.Model.{
  EvidenceType, Entity, Level, Evidence, ResolvedEvidence, MatchedEvidence, AdminLocation,
  AdminCandidate, DiscoveryStrategy, CandidateOriginLevel, HierarchyMap,
}
use address_quality.Evaluate.Conflicts.{count_non_nil}
use address_quality.Evaluate.Score.{entity_in_location}
use address_quality.Dedup.{candidate_key}

-- The inner loop of `collectUniqueEntities`: the ids seen and the entities kept, so far.
unfoldable pub add_entities : List Entity → List ℕ × List Entity → List ℕ × List Entity
add_entities [] (seen, out) = (seen, out)
add_entities (e ∷ es) (seen, out) =
    add_entities es (if contains seen e.id then (seen, out) else (e.id ∷ seen, out ++ e ∷ []))

abbrev pub is_postal : EvidenceType → Bool
is_postal EvidenceType.postal_code = true
is_postal _ = false

-- The outer loop. The map by level holds, in the same order, the entities of one level; here they
-- are one list, from which `at_level` selects.
unfoldable pub collect_from : List ResolvedEvidence → List ℕ × List Entity → List ℕ × List Entity
collect_from [] s = s
collect_from (re ∷ rest) s =
    collect_from rest (if is_postal re.evidence.type then s else add_entities re.candidates s)

unfoldable pub collect_unique_entities : List ResolvedEvidence → List Entity
unfolding collect_from add_entities
collect_unique_entities evidence = (collect_from evidence ([], [])).1

abbrev pub is_province : Level → Bool
is_province Level.province = true
is_province _ = false

abbrev pub is_city : Level → Bool
is_city Level.city = true
is_city _ = false

abbrev pub is_district : Level → Bool
is_district Level.district = true
is_district _ = false

abbrev pub is_subdistrict : Level → Bool
is_subdistrict Level.subdistrict = true
is_subdistrict _ = false

abbrev pub at_level : (Level → Bool) → List Entity → List Entity
at_level p = select (λ e. p e.level)

abbrev pub empty_location : AdminLocation
empty_location = record {
  province = none;
  city = none;
  district = none;
  sub_district = none;
  postal_code = none;
  road = none;
  conflicts = [];
}

abbrev candidate_at : CandidateOriginLevel → AdminLocation → AdminCandidate
candidate_at origin loc = record {
  uuid = "";
  origin_level = origin;
  location = loc;
  evidence = [];
  discovery_strategies = [];
}

unfoldable pub build_from_province : Entity → AdminCandidate
build_from_province e = candidate_at CandidateOriginLevel.province (record empty_location {
  province = some (record { id = e.id; name = e.name; normalized_name = normalize e.name });
})

unfoldable pub build_from_city : Entity → AdminCandidate
build_from_city e = candidate_at CandidateOriginLevel.city (record empty_location {
  city = some (record {
    id = e.id;
    name = e.name;
    normalized_name = normalize e.name;
    postal_code = e.postal_code;
  });
})

unfoldable pub build_from_district : Entity → AdminCandidate
build_from_district e = candidate_at CandidateOriginLevel.district (record empty_location {
  district = some (record { id = e.id; name = e.name; normalized_name = normalize e.name });
})

unfoldable pub build_from_subdistrict : Entity → AdminCandidate
build_from_subdistrict e = candidate_at CandidateOriginLevel.sub_district (record empty_location {
  sub_district = some (record {
    id = e.id;
    name = e.name;
    normalized_name = normalize e.name;
    postal_code = e.postal_code;
  });
})

-- The loop that stamps the candidates; `uuid.NewV7` is the parameter `new_uuid`, by the index.
unfoldable pub stamp :
    (ℕ → String) → List DiscoveryStrategy → ℕ → List AdminCandidate → List AdminCandidate
stamp new_uuid strategies i [] = []
stamp new_uuid strategies i (c ∷ cs) =
    record c { uuid = new_uuid i; discovery_strategies = strategies }
    ∷ stamp new_uuid strategies (i + 1) cs

unfoldable pub discover_candidates :
    (ℕ → String) → List ResolvedEvidence → List DiscoveryStrategy → List AdminCandidate
discover_candidates new_uuid resolved strategies =
    let entities = collect_unique_entities resolved in
    stamp new_uuid strategies 0 (
      map build_from_province (at_level is_province entities)
      ++ (map build_from_city (at_level is_city entities)
          ++ (map build_from_district (at_level is_district entities)
              ++ map build_from_subdistrict (at_level is_subdistrict entities))))

-- The inner loop of `matchEvidenceToCandidate`, for one piece of evidence.
unfoldable pub match_entities : AdminLocation → Evidence → List Entity → List MatchedEvidence
match_entities loc ev [] = []
match_entities loc ev (e ∷ es) =
    let rest = match_entities loc ev es in
    if entity_in_location loc e then record { evidence = ev; resolved = some e } ∷ rest else rest

unfoldable pub match_evidence_to_candidate :
    AdminLocation → List ResolvedEvidence → List MatchedEvidence
match_evidence_to_candidate loc [] = []
match_evidence_to_candidate loc (re ∷ rest) =
    match_entities loc re.evidence re.candidates ++ match_evidence_to_candidate loc rest

-- The first loop of `BuildConclusions`; its `key` is `candidateKey` of dedup.go.
unfoldable pub unique_from : List String → List AdminCandidate → List AdminCandidate
unique_from seen [] = []
unique_from seen (c ∷ rest) =
    let k = candidate_key c.location in
    let skip = unique_from seen rest in
    let keep = c ∷ unique_from (k ∷ seen) rest in if contains seen k then skip else keep

abbrev pub attach_evidence : Option (List ResolvedEvidence) → AdminCandidate → AdminCandidate
attach_evidence none c = c
attach_evidence (some resolved) c = record c {
  evidence = match_evidence_to_candidate c.location resolved;
}

-- Candidates with more levels come first.
abbrev pub deeper : AdminCandidate → AdminCandidate → Bool
deeper c d = ltb (count_non_nil d.location) (count_non_nil c.location)

-- A nil slice of resolved evidence is `none`.
unfoldable pub build_conclusions :
    SliceSort
    → List AdminCandidate
    → Option HierarchyMap
    → Option (List ResolvedEvidence)
    → List AdminCandidate
build_conclusions sorter flat none resolved = flat
build_conclusions sorter flat (some h) resolved =
    sorter.sort AdminCandidate deeper (map (attach_evidence resolved) (unique_from [] flat))
