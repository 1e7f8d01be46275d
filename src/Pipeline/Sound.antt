-- ===== src/Pipeline/Sound.antt =====
-- The locations and the evidence of the pipeline's candidates, and the conflicts of their
-- evaluation.
use mathlib.Core.List.{Mem, Memᴰ, Perm}
use mathlib.Core.List.Perm
use mathlib.Core.Logic.{∥∥₁_elim}
use address_quality.Evaluate.{mark_conflicts, evaluate_candidate}
use mathlib.Core.List as ListLaws
use address_quality.Evaluate.Conflicts.{
  evaluate_hierarchy, city_outside, district_outside, sub_district_outside, postal_mismatch,
  city_is_orphan, detect_postal, detect_orphan, detect_conflicts, detect_multiple_cities,
  detect_duplicate_level, add_conflict,
}
use address_quality.Evaluate.Valid.{AgreesAll-iff}
use address_quality.Evaluate.Passes.{multiple_cities-quiet, duplicate_levels-quiet}
use address_quality.Prelude.{
  nat_eq, string_eq, ◌≡◌, refl, true, false, none, some, List, [], ◌∷◌, ◌++◌, arith, All, Holds,
  map, ℕ, String, Bool-cases, inl, All-append, inr, ap, subst, sym, if◌then◌else◌,
}
use address_quality.GoMap.{RangeOrder}
use address_quality.Sort.{SliceSort}
use address_quality.Model.{
  orphan_city, Entity, Evidence, ResolvedEvidence, MatchedEvidence, AdminLocation, AdminCandidate,
  HierarchyMap, DiscoveryStrategy, top_down, any_level, ConflictType,
}
use address_quality.Dedup.{deduplicate_candidates}
use address_quality.Builder.{
  collect_unique_entities, at_level, is_province, is_city, is_district, is_subdistrict,
  build_from_province, build_from_city, build_from_district, build_from_subdistrict,
  discover_candidates, match_entities, match_evidence_to_candidate, unique_from, build_conclusions,
  attach_evidence, deeper,
}
use address_quality.Enrich.{enrich_candidate, enrich_candidates}
use address_quality.Enrich.Nested.{IsSingle, IsNested, enrich-IsNested}
use address_quality.Cache.{Caches}
use address_quality.Cache.Keyed.{IsWellKeyed}
use address_quality.Evaluate.Valid.{Agrees, AgreesAll}
use address_quality.Evaluate.Score.{entity_in_location}
use address_quality.Pipeline.{build_candidates}
use address_quality.Pipeline.Locations.{
  Locations, deduplicate-Locations, unique_from-Locations, stamp-Locations, map-All, map-All_of,
}

-- Discovery makes a candidate of one level out of each entity.
discover_candidates-IsSingle :
    (new_uuid : ℕ → String) (resolved : List ResolvedEvidence) (strategies : List DiscoveryStrategy)
    → Locations IsSingle (discover_candidates new_uuid resolved strategies)
unfolding discover_candidates build_from_province build_from_city build_from_district
    build_from_subdistrict
discover_candidates-IsSingle new_uuid resolved strategies =
    let Q : AdminCandidate → Type 0 = λ c. IsSingle c.location in
    let es = collect_unique_entities resolved in
    let ps = map build_from_province (at_level is_province es) in
    let cs = map build_from_city (at_level is_city es) in
    let ds = map build_from_district (at_level is_district es) in
    let ts = map build_from_subdistrict (at_level is_subdistrict es) in
    stamp-Locations IsSingle new_uuid strategies 0 (ps ++ (cs ++ (ds ++ ts))) (
      All-append Q ps (cs ++ (ds ++ ts))
        (map-All Q build_from_province
          (λ e. record { clean = refl; no_postal_code = refl; one_level = refl })
          (at_level is_province es))
        (All-append Q cs (ds ++ ts)
          (map-All Q build_from_city
            (λ e. record { clean = refl; no_postal_code = refl; one_level = refl })
            (at_level is_city es))
          (All-append Q ds ts
            (map-All Q build_from_district
              (λ e. record { clean = refl; no_postal_code = refl; one_level = refl })
              (at_level is_district es))
            (map-All Q build_from_subdistrict
              (λ e. record { clean = refl; no_postal_code = refl; one_level = refl })
              (at_level is_subdistrict es)))))

Agrees-of_inside :
    (loc : AdminLocation) (e : Entity) → entity_in_location loc e ≡ true → Agrees loc e.level e.id
unfolding entity_in_location
Agrees-of_inside loc e inside = ground arith

match_entities-Agrees :
    (loc : AdminLocation) (ev : Evidence) (es : List Entity)
    → AgreesAll loc (match_entities loc ev es)
unfolding match_entities
match_entities-Agrees loc ev [] = tt
match_entities-Agrees loc ev (e ∷ es) = elim (Bool-cases (entity_in_location loc e)) [
  | inl inside ↦ rw inside (Agrees-of_inside loc e inside, match_entities-Agrees loc ev es)
  | inr outside ↦ rw outside (match_entities-Agrees loc ev es)
]

match_evidence-Agrees :
    (loc : AdminLocation) (resolved : List ResolvedEvidence)
    → AgreesAll loc (match_evidence_to_candidate loc resolved)
unfolding match_evidence_to_candidate
match_evidence-Agrees loc [] = tt
match_evidence-Agrees loc (re ∷ rest) =
    All-append (λ me. Holds me.resolved (λ e. Agrees loc e.level e.id))
      (match_entities loc re.evidence re.candidates) (match_evidence_to_candidate loc rest)
      (match_entities-Agrees loc re.evidence re.candidates) (match_evidence-Agrees loc rest)

-- What holds of a candidate of the pipeline.
IsSound : HierarchyMap → AdminCandidate → Type 0
IsSound h c = IsNested h c.location × AgreesAll c.location c.evidence

enriched-eq :
    (s : Caches) (h : HierarchyMap) (cs : List AdminCandidate)
    → s.hierarchy_cache ≡ some h
    → map (enrich_candidate s h) cs ≡ enrich_candidates s cs
unfolding enrich_candidates
enriched-eq s h cs at =
    ap (λ o. elim o [ none ↦ cs | some h ↦ map (enrich_candidate s h) cs ]) (sym at)

-- Every candidate that the pipeline builds has a location that the hierarchy map confirms, and
-- evidence that agrees with it.
attached-IsSound :
    (order : RangeOrder) (new_uuid : ℕ → String) (s : Caches) (h : HierarchyMap)
    (res : List ResolvedEvidence)
    → IsWellKeyed s
    → s.hierarchy_cache ≡ some h
    → All (IsSound h) (
        map (attach_evidence (some res)) (
          unique_from [] (
            enrich_candidates s (
              deduplicate_candidates order
                (discover_candidates new_uuid res (top_down ∷ any_level ∷ []))))))
unfolding IsSound
attached-IsSound order new_uuid s h res w at =
    let cs =
      deduplicate_candidates order (discover_candidates new_uuid res (top_down ∷ any_level ∷ [])) in
    let single =
      deduplicate-Locations IsSingle order
        (discover_candidates new_uuid res (top_down ∷ any_level ∷ []))
        (discover_candidates-IsSingle new_uuid res (top_down ∷ any_level ∷ [])) in
    let nested =
      map-All_of (λ c. IsSingle c.location) (λ c. IsNested h c.location) (enrich_candidate s h)
        (λ c k. enrich-IsNested s h w c.location k) cs single in
    subst (λ enriched. All (IsSound h) (map (attach_evidence (some res)) (unique_from [] enriched)))
      (enriched-eq s h cs at)
      (map-All_of (λ c. IsNested h c.location) (IsSound h) (attach_evidence (some res))
        (λ c k. (k, match_evidence-Agrees c.location res))
        (unique_from [] (map (enrich_candidate s h) cs))
        (unique_from-Locations (IsNested h) [] (map (enrich_candidate s h) cs) nested))

loops-quiet :
    (c : AdminCandidate)
    → AgreesAll c.location c.evidence
    → detect_duplicate_level (detect_multiple_cities c) ≡ c
unfolding detect_duplicate_level detect_multiple_cities
loops-quiet c agrees =
    let (cities, levels) = (AgreesAll-iff c.location c.evidence).0 agrees in
    rw (multiple_cities-quiet [] c.evidence c cities) (duplicate_levels-quiet c.evidence c levels)

-- The first passes find nothing in a location that is nested.
nested-quiet :
    (h : HierarchyMap) (c : AdminCandidate)
    → IsNested h c.location
    → detect_postal (evaluate_hierarchy (some h) c) ≡ c
unfolding evaluate_hierarchy detect_postal city_outside district_outside sub_district_outside
    postal_mismatch
nested-quiet h c nested =
    let city : city_outside h c.location ≡ false = ground arith in
    let district : district_outside h c.location ≡ false = ground arith in
    let sub : sub_district_outside h c.location ≡ false = ground arith in
    let postal : postal_mismatch c.location ≡ false = ground arith in
    rw (city, district, sub, postal) refl

types : AdminCandidate → List ConflictType
types c = map (λ k. k.type) c.location.conflicts

orphan-types :
    (c : AdminCandidate)
    → c.location.conflicts ≡ []
    → types (detect_orphan c) ≡ (if city_is_orphan c.location then orphan_city ∷ [] else [])
unfolding detect_orphan add_conflict types
orphan-types c clean = elim (Bool-cases (city_is_orphan c.location)) [
  | inl orphan ↦ rw orphan (rw clean refl)
  | inr fine ↦ rw fine (rw clean refl)
]

-- A new conflict does not change what the evidence agrees with.
orphan-Agrees :
    (c : AdminCandidate)
    → AgreesAll c.location c.evidence
    → AgreesAll (detect_orphan c).location (detect_orphan c).evidence
unfolding detect_orphan add_conflict
orphan-Agrees c agrees = elim (Bool-cases (city_is_orphan c.location)) [
  | inl orphan ↦ rw orphan (keep c.evidence agrees)
  | inr fine ↦ rw fine agrees
]
  where
    keep :
        (ev : List MatchedEvidence)
        → AgreesAll c.location ev
        → AgreesAll (add_conflict orphan_city "city resolved without province" c).location ev
    keep [] a = tt
    keep (me ∷ ev) (p, a) = (ground arith, keep ev a)

sound-conflicts :
    (h : HierarchyMap) (c : AdminCandidate)
    → IsSound h c
    → types (mark_conflicts (some h) c)
      ≡ (if city_is_orphan c.location then orphan_city ∷ [] else [])
unfolding IsSound mark_conflicts detect_conflicts
sound-conflicts h c (nested, agrees) =
    rw (nested-quiet h c nested, loops-quiet (detect_orphan c) (orphan-Agrees c agrees))
      (orphan-types c nested.clean)

types_set : IsSet (List ConflictType)
types_set = ListLaws.is_set hlevel

All-mem : {A : Type 0} (P : A → Type 0) (xs : List A) (a : A) → All P xs → Memᴰ a xs → P a
All-mem P [] a h m = elim m [ ]
All-mem P (x ∷ xs) a (p, h) (Memᴰ.head e) = subst P (sym e) p
All-mem P (x ∷ xs) a (p, h) (Memᴰ.tail m) = All-mem P xs a h m

-- Over caches that are keyed by id and hold a hierarchy map, a candidate that the pipeline builds
-- from resolved evidence is evaluated to at most one conflict: an orphan city, when it has a city
-- beside another level and no province.
pub pipeline-conflicts :
    (order : RangeOrder) (sorter : SliceSort) (new_uuid : ℕ → String) (s : Caches)
    (h : HierarchyMap) (res : List ResolvedEvidence) (c : AdminCandidate)
    (all_evidence : List Evidence)
    → IsWellKeyed s
    → s.hierarchy_cache ≡ some h
    → Mem c (build_candidates order sorter new_uuid s (some res))
    → map (λ k. k.type) (evaluate_candidate order c s.hierarchy_cache all_evidence).conflicts
      ≡ (if city_is_orphan c.location then orphan_city ∷ [] else [])
unfolding build_candidates build_conclusions evaluate_candidate types mark_conflicts
pipeline-conflicts order sorter new_uuid s h res c all_evidence w at m =
    let sound = attached-IsSound order new_uuid s h res w at in
    let raw = discover_candidates new_uuid res (top_down ∷ any_level ∷ []) in
    let enriched = enrich_candidates s (deduplicate_candidates order raw) in
    let attached = map (attach_evidence (some res)) (unique_from [] enriched) in
    let listed : Mem c (sorter.sort AdminCandidate deeper attached) =
      subst (λ o. Mem c (build_conclusions sorter enriched o (some res))) at m in
    let found = (Perm.mem_iff (sorter.sort_perm AdminCandidate deeper attached)).0 listed in
    subst
      (λ o.
        types (mark_conflicts o c) ≡ (if city_is_orphan c.location then orphan_city ∷ [] else []))
      (sym at)
      (∥∥₁_elim found (types_set _ _)
        (λ d. sound-conflicts h c (All-mem (IsSound h) attached c sound d)))
