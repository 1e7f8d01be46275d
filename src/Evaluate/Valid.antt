-- ===== src/Evaluate/Valid.antt =====
-- When a candidate is VALID: the result of `EvaluateCandidate` against an independent description.
use address_quality.Prelude.{
  Holds, ℕ, subst, ◌≡◌, ◌↔◌, true, false, some, List, [], ◌∷◌, arith, All, is_some, nat_eq, sym,
}
use address_quality.GoMap.{index, RangeOrder}
use address_quality.Model.{
  QualityStatus, MatchedEvidence, Evidence, Level, AdminLocation, AdminCandidate, HierarchyMap,
}
use address_quality.Evaluate.{assess_quality, mark_conflicts, evaluate_candidate}
use address_quality.Evaluate.Conflicts.{
  city_outside, district_outside, sub_district_outside, another_city, city_of, level_id,
  duplicates_level, postal_mismatch, city_is_orphan,
}
use address_quality.Evaluate.Passes.{
  Clean, SameCity, IsQuiet, mark_conflicts-Clean, mark_conflicts-quiet,
}

-- The entity of a level is the location's, if the location has one.
abbrev pub Agrees : AdminLocation → Level → ℕ → Type 0
Agrees loc Level.province id = Holds loc.province (λ p. p.id ≡ id)
Agrees loc Level.city id = Holds loc.city (λ c. id ≡ c.id)
Agrees loc Level.district id = Holds loc.district (λ d. d.id ≡ id)
Agrees loc Level.subdistrict id = Holds loc.sub_district (λ s. s.id ≡ id)
Agrees loc (Level.other t) id = Unit

abbrev pub AgreesAll : AdminLocation → List MatchedEvidence → Type 0
AgreesAll loc = All (λ me. Holds me.resolved (λ e. Agrees loc e.level e.id))

-- A location whose levels are nested in one another by the map, and that all evidence agrees with.
pub record IsConsistent (h : HierarchyMap) (c : AdminCandidate) : Type 0 where
  pub clean : c.location.conflicts ≡ []
  pub has_province : is_some c.location.province ≡ true
  pub has_city : is_some c.location.city ≡ true
  pub has_district : is_some c.location.district ≡ true
  pub city_in_province :
      Holds c.location.city
        λ ct. Holds c.location.province λ p. index h.city_to_province ct.id ≡ p.id
  pub district_in_city :
      Holds c.location.district
        λ d. Holds c.location.city λ ct. index h.district_to_city d.id ≡ ct.id
  pub sub_district_in_district :
      Holds c.location.sub_district
        λ s. Holds c.location.district λ d. index h.sub_district_to_dist s.id ≡ d.id
  pub postal_of_sub_district :
      Holds c.location.postal_code λ pc. Holds c.location.sub_district λ s. pc.id ≡ s.id
  pub evidence_agrees : AgreesAll c.location c.evidence

AgreesOne_iff :
    (loc : AdminLocation) (me : MatchedEvidence)
    → Holds me.resolved (λ e. Agrees loc e.level e.id)
      ↔ (SameCity loc me × Holds me.resolved (λ e. duplicates_level loc e ≡ false))
unfolding city_of another_city duplicates_level level_id
AgreesOne_iff loc me = ground arith

pub AgreesAll-iff :
    (loc : AdminLocation) (ev : List MatchedEvidence)
    → AgreesAll loc ev ↔ (
        All (SameCity loc) ev
        × All (λ me. Holds me.resolved (λ e. duplicates_level loc e ≡ false)) ev)
AgreesAll-iff loc [] = ground arith
AgreesAll-iff loc (me ∷ ev) =
    let (to, from) = AgreesOne_iff loc me in
    let (to_all, from_all) = AgreesAll-iff loc ev in
    (
      λ (p, ps). let (a, b) = to p in let (as', bs) = to_all ps in ((a, as'), (b, bs)),
      λ ((a, as'), (b, bs)). (from (a, b), from_all (as', bs)),
    )

IsConsistent-of_quiet :
    (h : HierarchyMap) (c : AdminCandidate)
    → IsQuiet h c
    → assess_quality c ≡ QualityStatus.valid
    → IsConsistent h c
unfolding city_outside district_outside sub_district_outside postal_mismatch assess_quality
IsConsistent-of_quiet h c q valid = record {
  clean = q.clean;
  has_province = ground arith;
  has_city = ground arith;
  has_district = ground arith;
  city_in_province = ground arith;
  district_in_city = ground arith;
  sub_district_in_district = ground arith;
  postal_of_sub_district = ground arith;
  evidence_agrees = (AgreesAll-iff c.location c.evidence).1 (q.same_city, q.same_level);
}

IsQuiet-of_consistent : (h : HierarchyMap) (c : AdminCandidate) → IsConsistent h c → IsQuiet h c
unfolding city_outside district_outside sub_district_outside postal_mismatch city_is_orphan
IsQuiet-of_consistent h c k =
    let (same_city, same_level) = (AgreesAll-iff c.location c.evidence).0 k.evidence_agrees in
    record {
      clean = k.clean;
      city_inside = ground arith;
      district_inside = ground arith;
      sub_district_inside = ground arith;
      postal_matches = ground arith;
      no_orphan = ground arith;
      same_city = same_city;
      same_level = same_level;
    }

assess_quality-of_consistent :
    (h : HierarchyMap) (c : AdminCandidate)
    → IsConsistent h c
    → assess_quality c ≡ QualityStatus.valid
unfolding assess_quality
assess_quality-of_consistent h c k = ground arith

assess_quality-Clean : (c : AdminCandidate) → assess_quality c ≡ QualityStatus.valid → Clean c
unfolding assess_quality
assess_quality-Clean c e = ground arith

-- With a hierarchy map, the evaluated candidate is VALID exactly when the candidate came without
-- conflicts, has a province, a city and a district, each level lies in the level above it by the
-- map, the postal code is the sub-district's (where both are there), and every resolved evidence
-- names the location's own entity of its level, where the location has that level.
pub evaluate_candidate-valid_iff :
    (order : RangeOrder) (h : HierarchyMap) (c : AdminCandidate) (all_evidence : List Evidence)
    → ((evaluate_candidate order c (some h) all_evidence).status ≡ QualityStatus.valid)
      ↔ IsConsistent h c
unfolding evaluate_candidate mark_conflicts
evaluate_candidate-valid_iff order h c all_evidence = (
  (λ valid.
      let q = mark_conflicts-Clean h c (assess_quality-Clean _ valid) in
      IsConsistent-of_quiet h c q
        (subst (λ x. assess_quality x ≡ QualityStatus.valid) (mark_conflicts-quiet h c q) valid)),
  (λ k.
      subst (λ x. assess_quality x ≡ QualityStatus.valid)
        (sym (mark_conflicts-quiet h c (IsQuiet-of_consistent h c k)))
        (assess_quality-of_consistent h c k)),
)
