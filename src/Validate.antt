-- ===== src/Validate.antt =====
-- internal/service/validate_v1.go, from a sanitized address to the data of the response, with the
-- lookup by postal code of internal/service/validate_helper.go. The calls of the database are those
-- of Database, and the caches are loaded by Ensure; the phrase dictionary, the road words of the raw
-- text and the text for compact matching are given.
pub mod Ensure
pub mod Float
pub mod Lookup
pub mod Response
pub mod Groups
pub mod Postal
pub mod Status
pub mod Answers
use Prim.Native.Char.{Char, code}
use Prim.Native.String
use mathlib.Core.List.{foldl}
use mathlib.Core.Option
use address_quality.Prelude.{
  nat_eq, string_eq, none, some, [], ◌∷◌, true, false, String, Option, List, ℕ, Bool, zero, suc, ℤ,
  if◌then◌else◌, not, ◌==◌, get_or, pos_part, select, map, ◌++◌, leb, ◌&&◌, ltb, ◌+◌, length,
  is_some, ◌||◌, neg_part, contains, ◌-◌, pos,
}
use address_quality.GoMap.{RangeOrder}
use address_quality.Sort.{SliceSort}
use address_quality.Text.{join}
use address_quality.Normalizer.{normalize}
use address_quality.Model.{
  Location, no_location, QualityStatus, Evidence, Reason, ResolvedEvidence, CandidateEvaluation,
  ResolutionCandidate, Resolution, Assessment, Metadata, FuzzyCorrection, ResponseData,
  AddressRequest, Component, Conflict, AdminCandidate,
}
use address_quality.Evidence.{extract_evidence, extract_postal_code}
use address_quality.Cache.{Caches, append_at}
use address_quality.Pipeline.{ScoredCandidate, build_candidates, evaluate_candidates}
use address_quality.Fuzzy.Recover.{Recovery, recover_contextual_evidence}
use address_quality.Resolve.Phrases.{PhraseDict}
use address_quality.Resolve.Phrases.Compact.{resolve_evidence}
use address_quality.Database.{Query, Conn, ◌>>=◌, ◌>>◌, pure}
use address_quality.Database.Sources.{find_source_by_code}
use address_quality.Database.Codes.{find_by_postal_code}
use address_quality.Validate.Ensure.{Service, ensure_entities_caches_loaded}
use address_quality.Validate.Lookup.{
  text_less, group_by_district, better_group, best_group, is_no_location, infer_location,
  fill_location, resolve_location_by_postal_code,
}
use address_quality.Validate.Response.{
  is_valid_status, final_status, resolve_location_from_candidate, winner_location, format_location,
  evidence_without_values, sorted_fuzzy_corrections, add_reason, resolution_candidates, reported,
  Named, respond,
}

-- len(s): the bytes of a text in UTF-8
unfoldable pub byte_length : String → ℕ
byte_length String.[] = 0
byte_length (String.◌∷◌ c s) =
    let n = code c in
    (if leb n 127 then 1 else if leb n 2047 then 2 else if leb n 65535 then 3 else 4)
    + byte_length s

-- AddressRequest.Validate: whether there is no error.
unfoldable pub is_valid_request : ℕ → AddressRequest → Bool
is_valid_request max_length req =
    not (req.address == "") && leb (byte_length req.address) max_length

-- The error of a request: ErrValidation, or any other.
pub data Answer : Type 0 where
  refused : Answer
  failed : Answer
  data_of : ResponseData → Answer

-- What the stages before take from the raw text and the service.
pub record Stage : Type 0 where
  pub max_address_length : ℕ
  pub default_source_code : String
  pub sanitize : String → String
  pub road_tokens : String → List String
  pub strip_road_context : String → String
  pub dict : PhraseDict
  pub address_id : String

module _ (order : RangeOrder) (sorter : SliceSort) (new_uuid : ℕ → String) where
  -- The candidates, built again with the recovered evidence if there is any.
  unfoldable pub rebuild_candidates :
      Caches → List ResolvedEvidence → Option Recovery → List AdminCandidate
  rebuild_candidates s resolved recovery = elim recovery [
    | none ↦ build_candidates order sorter new_uuid s (some resolved)
    | some r ↦ build_candidates order sorter new_uuid s (some (resolved ++ r.recovered))
  ]

  unfoldable pub explained_values : Option Recovery → List String
  explained_values recovery = elim recovery [ none ↦ [] | some r ↦ r.explained ]

  unfoldable pub correction_map : Option Recovery → List (String × String)
  correction_map recovery = elim recovery [ none ↦ [] | some r ↦ r.corrections ]

  -- From the evidence to the ranked candidates and the recovery.
  unfoldable pub rank : Stage → Service → ℕ → String → List ScoredCandidate × List FuzzyCorrection
  rank stage service source_id sanitized =
      let s = service.caches in
      let normalized = normalize sanitized in
      let road_tokens = stage.road_tokens sanitized in
      let evidence = extract_evidence normalized in
      let resolved =
        resolve_evidence order s stage.dict service.city_priority_set source_id evidence normalized
          (normalize (stage.strip_road_context sanitized)) road_tokens in
      let candidates = build_candidates order sorter new_uuid s (some resolved) in
      let recovery =
        recover_contextual_evidence order s candidates resolved normalized road_tokens in
      (
        evaluate_candidates order sorter s (rebuild_candidates s resolved recovery)
            (evidence_without_values evidence (explained_values recovery)),
        sorted_fuzzy_corrections order sorter (correction_map recovery),
      )

  -- After the source is found and its caches are loaded.
  unfoldable pub assess :
      Stage → AddressRequest → String → ℕ → String → Service → Query ResponseData
  assess stage req source_code source_id source_version s =
      let sanitized = stage.sanitize req.address in
      let (scored, corrections) = rank stage s source_id sanitized in
      resolve_location_by_postal_code order (winner_location scored) (normalize sanitized) source_id
      >>= λ found. pure (
          respond
            (record {
              address_id = stage.address_id;
              raw_input = req.address;
              normalized = normalize sanitized;
              source_code = source_code;
              source_version = source_version;
            })
            (final_status scored) corrections scored found)

  -- A result beside the service that is left.
  abbrev pub beside : {A : Type 0} → Service → A × Conn → A × Service × Conn
  beside s (a, c) = (a, s, c)

  -- sourceAndCaches, after the source is found
  unfoldable pub with_caches :
      Stage
      → AddressRequest
      → String
      → Service
      → Option (ℕ × String) × Conn
      → Option ResponseData × Service × Conn
  with_caches stage req source_code s (none, c) = (none, s, c)
  with_caches stage req source_code s (some (source_id, source_version), c) =
      let (ok, s', c') = ensure_entities_caches_loaded order source_id s c in
      let assessed = beside s' (assess stage req source_code source_id source_version s' c') in
      if ok then assessed else (none, s', c')

  unfoldable pub source_code_of : Stage → AddressRequest → String
  source_code_of stage req =
      if req.source_code == "" then stage.default_source_code else req.source_code

  unfoldable pub as_answer : Option ResponseData × Service × Conn → Answer × Service × Conn
  as_answer (none, s, c) = (failed, s, c)
  as_answer (some d, s, c) = (data_of d, s, c)

  -- The store queue takes a record of the response, and an error of it is only logged.
  unfoldable pub validate_address_v1 :
      Stage → AddressRequest → Service → Conn → Answer × Service × Conn
  validate_address_v1 stage req s c =
      if not (is_valid_request stage.max_address_length req)
      then (refused, s, c)
      else as_answer (
          with_caches stage req (source_code_of stage req) s
            (find_source_by_code (source_code_of stage req) c))
