-- ===== src/Validate/Response.antt =====
-- The status, the location and the other data of a response, from the ranked candidates.

use Prim.Native.String
use address_quality.Prelude.{
  nat_eq, string_eq, none, some, [], ◌∷◌, true, false, String, List, Bool, ℤ, if◌then◌else◌, not,
  ◌==◌, select, map, ◌++◌, ◌&&◌, length, is_some, contains, pos,
}
use address_quality.GoMap.{RangeOrder}
use address_quality.Sort.{SliceSort}
use address_quality.Text.{join}
use address_quality.Model.{
  Location, no_location, QualityStatus, Evidence, Reason, ResolutionCandidate, FuzzyCorrection,
  ResponseData, Component, Conflict,
}
use address_quality.Pipeline.{ScoredCandidate}
use address_quality.Validate.Lookup.{text_less}
use address_quality.Validate.Float.{is_close}

unfoldable pub is_valid_status : QualityStatus → Bool
is_valid_status status = elim status [ QualityStatus.valid ↦ true | _ ↦ false ]

unfoldable pub final_status : List ScoredCandidate → QualityStatus
final_status [] = QualityStatus.unknown
final_status (s ∷ []) = s.eval.status
final_status (s ∷ t ∷ scored) =
    if is_valid_status s.eval.status && is_close s.eval.confidence t.eval.confidence
    then QualityStatus.ambiguous
    else s.eval.status

unfoldable pub resolve_location_from_candidate : ScoredCandidate → Location
resolve_location_from_candidate s =
    let l = s.candidate.location in
    record {
      postal_code = elim l.postal_code [
        | some p ↦ p.code
        | none ↦ elim l.sub_district [ none ↦ "" | some d ↦ d.postal_code ]
      ];
      sub_district = elim l.sub_district [ none ↦ "" | some d ↦ d.name ];
      district = elim l.district [ none ↦ "" | some d ↦ d.name ];
      city = elim l.city [ none ↦ "" | some c ↦ c.name ];
      province = elim l.province [ none ↦ "" | some p ↦ p.name ];
    }

unfoldable pub winner_location : List ScoredCandidate → Location
winner_location [] = no_location
winner_location (s ∷ scored) = resolve_location_from_candidate s

unfoldable pub format_location : Location → String
format_location location =
    let formatted = join ", " (
      select (λ s. not (s == ""))
        (location.sub_district ∷ location.district ∷ location.city ∷ location.province ∷ [])) in
    if not (location.postal_code == "")
    then String.◌++◌ formatted (String.◌++◌ " " location.postal_code)
    else formatted

unfoldable pub evidence_without_values : List Evidence → List String → List Evidence
evidence_without_values evidence explained =
    if length explained == 0
    then evidence
    else select (λ ev. not (contains explained ev.value)) evidence

unfoldable pub sorted_fuzzy_corrections :
    RangeOrder → SliceSort → List (String × String) → List FuzzyCorrection
sorted_fuzzy_corrections order sorter corrections =
    sorter.sort FuzzyCorrection (λ a b. text_less a.from b.from)
      (map (λ p. record { from = p.0; to = p.1 }) (order.visit _ corrections))

-- `winner` points to the first of the scored candidates: its reasons grow there.
unfoldable pub add_reason : Reason → List ScoredCandidate → List ScoredCandidate
add_reason reason [] = []
add_reason reason (s ∷ scored) =
    record s { eval = record s.eval { reasons = s.eval.reasons ++ reason ∷ [] } } ∷ scored

unfoldable pub resolution_candidates : List ScoredCandidate → List ResolutionCandidate
resolution_candidates scored =
    map
      (λ (s : ScoredCandidate). record {
        uuid = s.candidate.uuid;
        score = s.eval.confidence;
        location = resolve_location_from_candidate s;
        reasons = s.eval.reasons;
      })
      (select (λ s. is_some s.candidate.location.province) scored)

-- The evaluation that is reported: the winner's, or an empty one, with the reason of the lookup.
unfoldable pub reported :
    List ScoredCandidate
    → Bool
    → List Component × List Component × List Conflict × List Evidence × List Reason × ℤ
reported [] applied =
    ([], [], [], [], if applied then Reason.postal_code_inferred ∷ [] else [], pos 0)
reported (s ∷ scored) applied = (
  s.eval.matched, s.eval.missing, s.eval.conflicts, s.eval.unused_evidence, s.eval.reasons,
  s.eval.confidence,
)

-- What identifies a request in its response.
pub record Named : Type 0 where
  pub address_id : String
  pub raw_input : String
  pub normalized : String
  pub source_code : String
  pub source_version : String

unfoldable pub respond :
    Named
    → QualityStatus
    → List FuzzyCorrection
    → List ScoredCandidate
    → Location × Bool
    → ResponseData
respond named status corrections scored (location, applied) =
    let marked = if applied then add_reason Reason.postal_code_lookup scored else scored in
    let candidates = resolution_candidates marked in
    let (matched, missing, conflicts, unused, reasons, confidence) = reported marked applied in
    record {
      address_id = named.address_id;
      status = status;
      confidence = confidence;
      raw_input = named.raw_input;
      normalized_input = named.normalized;
      formatted_addr = format_location location;
      location = location;
      assessment = record {
        matched = matched;
        missing = missing;
        conflicts = conflicts;
        ambiguous = map (λ (u : Evidence). u.value) unused;
      };
      resolution = record {
        strategy = reasons;
        candidate_count = length candidates;
        candidates = candidates;
      };
      metadata = record {
        location_source = named.source_code;
        location_version = named.source_version;
        fuzzy_corrections = corrections;
      };
    }
