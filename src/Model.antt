-- ===== src/Model.antt =====
-- internal/model/model.go and the map type of internal/database/location.go: the data that the
-- resolution pipeline passes along. Row ids are `int64` values that the databases generate; they
-- are natural numbers here, 0 being the value of a missing map entry.
use address_quality.Prelude.{ℕ, String, Option, List, ℤ}

pub record Location : Type 0 where
  pub postal_code : String
  pub sub_district : String
  pub district : String
  pub city : String
  pub province : String

abbrev pub no_location : Location
no_location = record {
  postal_code = "";
  sub_district = "";
  district = "";
  city = "";
  province = "";
}

pub data QualityStatus : Type 0 where
  valid incomplete ambiguous conflict unknown : QualityStatus

pub data Component : Type 0 where
  province city district sub_district postal_code : Component

-- The type strings that `addConflict` is called with.
pub data ConflictType : Type 0 where
  hierarchy_conflict postal_code_mismatch orphan_city multiple_city duplicate_level : ConflictType

pub record Conflict : Type 0 where
  pub type : ConflictType
  pub message : String

pub data Reason : Type 0 where
  exact_match match_province match_city match_district match_subdistrict : Reason
  postal_code_exact postal_code_prefix4 postal_code_prefix3 : Reason
  postal_code_lookup postal_code_inferred : Reason

pub data EvidenceType : Type 0 where
  road_name place_name postal_code : EvidenceType

pub record Evidence : Type 0 where
  pub type : EvidenceType
  pub value : String

-- The level strings "PROVINCE", "CITY", "DISTRICT", "SUBDISTRICT", and any other text.
pub data Level : Type 0 where
  province city district subdistrict : Level
  other : String → Level

pub record Entity : Type 0 where
  pub id : ℕ
  pub name : String
  pub level : Level
  pub postal_code : String

pub record ResolvedEvidence : Type 0 where
  pub evidence : Evidence
  pub candidates : List Entity

pub data DiscoveryStrategy : Type 0 where
  top_down any_level alias postal : DiscoveryStrategy

-- `Resolved *Entity` is never written through: a value that may be missing.
pub record MatchedEvidence : Type 0 where
  pub evidence : Evidence
  pub resolved : Option Entity

pub record Province : Type 0 where
  pub id : ℕ
  pub name : String
  pub normalized_name : String

pub record City : Type 0 where
  pub id : ℕ
  pub name : String
  pub normalized_name : String
  pub postal_code : String

pub record District : Type 0 where
  pub id : ℕ
  pub name : String
  pub normalized_name : String

pub record SubDistrict : Type 0 where
  pub id : ℕ
  pub name : String
  pub normalized_name : String
  pub postal_code : String

pub record PostalCode : Type 0 where
  pub id : ℕ
  pub code : String
  pub name : String

pub record Road : Type 0 where
  pub id : ℕ
  pub name : String

-- Nil pointers are `none`.
pub record AdminLocation : Type 0 where
  pub province : Option Province
  pub city : Option City
  pub district : Option District
  pub sub_district : Option SubDistrict
  pub postal_code : Option PostalCode
  pub road : Option Road
  pub conflicts : List Conflict

pub data CandidateOriginLevel : Type 0 where
  province city district sub_district : CandidateOriginLevel

pub record AdminCandidate : Type 0 where
  pub uuid : String
  pub origin_level : CandidateOriginLevel
  pub location : AdminLocation
  pub evidence : List MatchedEvidence
  pub discovery_strategies : List DiscoveryStrategy

-- A confidence is counted in ten-thousandths, the unit that the code rounds to.
pub record CandidateEvaluation : Type 0 where
  pub candidate : AdminCandidate
  pub confidence : ℤ
  pub status : QualityStatus
  pub matched : List Component
  pub missing : List Component
  pub unused_evidence : List Evidence
  pub conflicts : List Conflict
  pub reasons : List Reason

pub record Assessment : Type 0 where
  pub matched : List Component
  pub missing : List Component
  pub conflicts : List Conflict
  pub ambiguous : List String

pub record ResolutionCandidate : Type 0 where
  pub uuid : String
  pub score : ℤ
  pub location : Location
  pub reasons : List Reason

pub record Resolution : Type 0 where
  pub strategy : List Reason
  pub candidate_count : ℕ
  pub candidates : List ResolutionCandidate

pub record FuzzyCorrection : Type 0 where
  pub from : String
  pub to : String

pub record Metadata : Type 0 where
  pub location_source : String
  pub location_version : String
  pub fuzzy_corrections : List FuzzyCorrection

pub record ResponseData : Type 0 where
  pub address_id : String
  pub status : QualityStatus
  pub confidence : ℤ
  pub raw_input : String
  pub normalized_input : String
  pub formatted_addr : String
  pub location : Location
  pub assessment : Assessment
  pub resolution : Resolution
  pub metadata : Metadata

pub record AddressRequest : Type 0 where
  pub address : String
  pub source_code : String

-- database.HierarchyMap
pub record HierarchyMap : Type 0 where
  pub city_to_province : List (ℕ × ℕ)
  pub district_to_city : List (ℕ × ℕ)
  pub sub_district_to_dist : List (ℕ × ℕ)
