-- ===== src/Evaluate.antt =====
-- internal/service/evaluate.go: `EvaluateCandidate` and the parts of its result. The conflicts and
-- the scores are in the modules `Conflicts` and `Score`.
pub mod Conflicts
pub mod Score
pub mod Passes
pub mod Valid
pub mod Bounds
use Conflicts.{evaluate_hierarchy, detect_conflicts}
use Score.{
  weight_postal_code_prefix3, weight_postal_code_prefix4, weight_postal_code_prefix5,
  get_matched_levels, score_postal_code_prefix, has_exact_match, score_confidence,
}
use address_quality.Prelude.{
  ℕ, String, Bool, true, false, not, ◌&&◌, ◌||◌, Option, none, some, List, [], ◌∷◌, ◌++◌, ltb, leb,
  length, select, contains, is_some, map, ◌==◌, string_eq, if◌then◌else◌,
}
use address_quality.GoMap.{RangeOrder}
use address_quality.Model
use address_quality.Model.{
  Component, QualityStatus, Reason, exact_match, match_province, match_city, match_district,
  match_subdistrict, postal_code_exact, postal_code_prefix4, postal_code_prefix3, Evidence,
  AdminLocation, AdminCandidate, HierarchyMap, CandidateEvaluation,
}

-- `append` under a test
abbrev pub append_if {ℓ} : {A : Type ℓ} → Bool → A → List A → List A
append_if b a xs = if b then xs ++ a ∷ [] else xs

unfoldable pub get_matched_components : AdminCandidate → List Component
get_matched_components c = append_if (is_some c.location.postal_code) Component.postal_code (
    append_if (is_some c.location.sub_district) Component.sub_district (
      append_if (is_some c.location.district) Component.district (
        append_if (is_some c.location.city) Component.city
          (append_if (is_some c.location.province) Component.province []))))

unfoldable pub get_missing_components : AdminCandidate → List Component
get_missing_components c =
    append_if (not (is_some c.location.sub_district)) Component.sub_district (
      append_if (not (is_some c.location.district)) Component.district (
        append_if (not (is_some c.location.city)) Component.city
          (append_if (not (is_some c.location.province)) Component.province [])))

-- `evaluateEvidenceCoverage`; the map `matchedValues` as the list of its keys
unfoldable pub evaluate_evidence_coverage : AdminCandidate → List Evidence → List Evidence
evaluate_evidence_coverage c all_evidence =
    let matched_values = map (λ me. me.evidence.value) c.evidence in
    select (λ ev. not (contains matched_values ev.value)) all_evidence

unfoldable pub assess_quality : AdminCandidate → QualityStatus
assess_quality c =
    if ltb 0 (length c.location.conflicts)
    then QualityStatus.conflict
    else if not (
        is_some c.location.province
        || is_some c.location.city
        || is_some c.location.district
        || is_some c.location.sub_district)
    then QualityStatus.unknown
    else if not (is_some c.location.province)
        || not (is_some c.location.city)
        || not (is_some c.location.district)
    then QualityStatus.incomplete
    else QualityStatus.valid

-- The reason for a prefix score of `BuildReasons`.
unfoldable pub prefix_reason : ℕ → List Reason
prefix_reason score =
    if leb weight_postal_code_prefix3 score
    then if leb weight_postal_code_prefix5 score
      then postal_code_exact ∷ []
      else if leb weight_postal_code_prefix4 score
      then postal_code_prefix4 ∷ []
      else postal_code_prefix3 ∷ []
    else []

unfoldable pub build_reasons : AdminCandidate → List Reason
build_reasons c =
    let matched = get_matched_levels c in
    append_if matched.subdistrict match_subdistrict (
      append_if matched.district match_district (
        append_if matched.city match_city (
          append_if matched.province match_province
            (append_if (has_exact_match c.evidence) exact_match []))))
    ++ prefix_reason (score_postal_code_prefix c)

-- The candidate as `EvaluateCandidate` leaves it.
unfoldable pub mark_conflicts : Option HierarchyMap → AdminCandidate → AdminCandidate
mark_conflicts hierarchy c = detect_conflicts (evaluate_hierarchy hierarchy c)

-- `evaluateCompleteness` has no body. The unused evidence is computed before `detectConflicts`,
-- which does not change what it reads. Conflicts are never nil here: no conflict is the empty list.
unfoldable pub evaluate_candidate :
    RangeOrder → AdminCandidate → Option HierarchyMap → List Evidence → CandidateEvaluation
evaluate_candidate order candidate hierarchy all_evidence =
    let checked = evaluate_hierarchy hierarchy candidate in
    let unused = evaluate_evidence_coverage checked all_evidence in
    let c = detect_conflicts checked in
    record {
      candidate = c;
      confidence = score_confidence order c unused (ltb 0 (length all_evidence));
      status = assess_quality c;
      matched = get_matched_components c;
      missing = get_missing_components c;
      unused_evidence = unused;
      conflicts = c.location.conflicts;
      reasons = build_reasons c;
    }
