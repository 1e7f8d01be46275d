-- ===== src/Evaluate/Passes.antt =====
-- The passes of `EvaluateCandidate` that look for contradictions, on candidates without any.
use address_quality.Prelude.{
  Holds, ℕ, subst, String, ◌≡◌, refl, inl, inr, true, false, some, List, [], ◌∷◌, ◌++◌, arith, All,
  contains, ◌==◌, nat_eq, Bool-cases, beq→eq, Option-cases, sym, ◌∙◌,
}
use address_quality.Model.{
  ConflictType, hierarchy_conflict, postal_code_mismatch, orphan_city, multiple_city,
  duplicate_level, MatchedEvidence, AdminLocation, AdminCandidate, HierarchyMap,
}
use address_quality.Evaluate.{mark_conflicts}
use address_quality.Evaluate.Conflicts.{
  add_conflict, city_outside, district_outside, sub_district_outside, evaluate_hierarchy,
  another_city, city_of, city_message, multiple_cities, detect_multiple_cities, duplicates_level,
  duplicate_message, duplicate_round, duplicate_levels, detect_duplicate_level, postal_mismatch,
  city_is_orphan, detect_postal, detect_orphan, detect_conflicts,
}

append-ne-nil {ℓ} : {A : Type ℓ} (xs : List A) (x : A) → xs ++ x ∷ [] ≡ [] → ⊥
append-ne-nil [] x e = cc
append-ne-nil (y ∷ xs) x e = cc

abbrev pub Clean : AdminCandidate → Type 0
Clean c = c.location.conflicts ≡ []

not_Clean-add :
    (t : ConflictType) (m : String) (c : AdminCandidate) → Clean (add_conflict t m c) → ⊥
unfolding add_conflict
not_Clean-add t m c h = append-ne-nil c.location.conflicts _ h

-- Whatever is found is added: a pass that leaves no conflict has found none and changed nothing.
evaluate_hierarchy-Clean :
    (h : HierarchyMap) (c : AdminCandidate)
    → Clean (evaluate_hierarchy (some h) c)
    → (evaluate_hierarchy (some h) c ≡ c)
      × (city_outside h c.location ≡ false)
      × (district_outside h c.location ≡ false)
      × (sub_district_outside h c.location ≡ false)
unfolding evaluate_hierarchy
evaluate_hierarchy-Clean h c k = ground (
  arith,
  not_Clean-add hierarchy_conflict "city does not belong to province" c,
  not_Clean-add hierarchy_conflict "district does not belong to city" c,
  not_Clean-add hierarchy_conflict "sub-district does not belong to district" c,
)

detect_postal-Clean :
    (c : AdminCandidate)
    → Clean (detect_postal c)
    → (detect_postal c ≡ c) × (postal_mismatch c.location ≡ false)
unfolding detect_postal
detect_postal-Clean c h =
    ground (arith, not_Clean-add postal_code_mismatch "postal code does not match sub-district" c)

detect_orphan-Clean :
    (c : AdminCandidate)
    → Clean (detect_orphan c)
    → (detect_orphan c ≡ c) × (city_is_orphan c.location ≡ false)
unfolding detect_orphan
detect_orphan-Clean c h =
    ground (arith, not_Clean-add orphan_city "city resolved without province" c)

multiple_cities-Clean_before :
    (seen : List ℕ) (ev : List MatchedEvidence) (c : AdminCandidate)
    → Clean (multiple_cities seen ev c)
    → Clean c
unfolding multiple_cities
multiple_cities-Clean_before seen [] c h = h
multiple_cities-Clean_before seen (me ∷ rest) c h = elim (Option-cases (city_of me)) [
  | inl no_city ↦ ground (arith, multiple_cities-Clean_before seen rest c)
  | inr (e, found) ↦ ground (
    arith,
    multiple_cities-Clean_before seen rest c,
    multiple_cities-Clean_before (e.id ∷ seen) rest c,
    multiple_cities-Clean_before (e.id ∷ seen) rest (add_conflict multiple_city (city_message e) c),
    not_Clean-add multiple_city (city_message e) c,
  )
]

-- What the loop compares: the id of an entity at level CITY.
abbrev pub SameCity : AdminLocation → MatchedEvidence → Type 0
SameCity loc me = Holds (city_of me) (λ e. another_city loc e.id ≡ false)

contains-All :
    (P : ℕ → Type 0) (seen : List ℕ) (id : ℕ) → All P seen → contains seen id ≡ true → P id
contains-All P [] id h k = cc
contains-All P (x ∷ seen) id (p, h) k = elim (Bool-cases (id == x)) [
  | inl same ↦ subst P (sym (beq→eq id x same)) p
  | inr other ↦ contains-All P seen id h (rw other at k)
]

-- The loop: an id that was seen before has been compared already.
multiple_cities-Clean :
    (seen : List ℕ) (ev : List MatchedEvidence) (c : AdminCandidate)
    → All (λ id. another_city c.location id ≡ false) seen
    → Clean (multiple_cities seen ev c)
    → (multiple_cities seen ev c ≡ c) × All (SameCity c.location) ev
unfolding multiple_cities
multiple_cities-Clean seen [] c s h = (refl, tt)
multiple_cities-Clean seen (me ∷ rest) c s h = elim (Option-cases (city_of me)) [
  | inl no_city ↦ ground (arith, multiple_cities-Clean seen rest c s)
  | inr (e, found) ↦ ground (
    arith,
    multiple_cities-Clean seen rest c s,
    contains-All (λ id. another_city c.location id ≡ false) seen e.id s,
    multiple_cities-Clean (e.id ∷ seen) rest c,
    multiple_cities-Clean_before (e.id ∷ seen) rest (add_conflict multiple_city (city_message e) c),
    not_Clean-add multiple_city (city_message e) c,
  )
]

duplicate_levels-Clean :
    (ev : List MatchedEvidence) (c : AdminCandidate)
    → Clean (duplicate_levels ev c)
    → Clean c
      × (duplicate_levels ev c ≡ c)
      × All (λ me. Holds me.resolved (λ e. duplicates_level c.location e ≡ false)) ev
unfolding duplicate_levels duplicate_round
duplicate_levels-Clean [] c h = (h, refl, tt)
duplicate_levels-Clean (me ∷ rest) c h = elim (Option-cases me.resolved) [
  | inl unresolved ↦ ground (arith, duplicate_levels-Clean rest c)
  | inr (e, found) ↦ ground (
    arith,
    duplicate_levels-Clean rest c,
    duplicate_levels-Clean rest (add_conflict duplicate_level (duplicate_message e) c),
    not_Clean-add duplicate_level (duplicate_message e) c,
  )
]

-- What the passes test, all found false.
pub record IsQuiet (h : HierarchyMap) (c : AdminCandidate) : Type 0 where
  pub clean : Clean c
  pub city_inside : city_outside h c.location ≡ false
  pub district_inside : district_outside h c.location ≡ false
  pub sub_district_inside : sub_district_outside h c.location ≡ false
  pub postal_matches : postal_mismatch c.location ≡ false
  pub no_orphan : city_is_orphan c.location ≡ false
  pub same_city : All (SameCity c.location) c.evidence
  pub same_level :
      All (λ me. Holds me.resolved (λ e. duplicates_level c.location e ≡ false)) c.evidence

-- The facts about the evidence, as the two loops leave them.
abbrev LoopFacts : AdminCandidate → Type 0
LoopFacts c =
    Clean c
    × All (SameCity c.location) c.evidence
    × All (λ me. Holds me.resolved (λ e. duplicates_level c.location e ≡ false)) c.evidence

loops-Clean :
    (c : AdminCandidate) → Clean (detect_duplicate_level (detect_multiple_cities c)) → LoopFacts c
unfolding detect_duplicate_level detect_multiple_cities
loops-Clean c k =
    let m = multiple_cities [] c.evidence c in
    let (clean, _, same_level) = duplicate_levels-Clean m.evidence m k in
    let (unchanged, same_city) = multiple_cities-Clean [] c.evidence c tt clean in
    let Facts : AdminCandidate → Type 0 = λ x.
      Clean x
      × All (λ me. Holds me.resolved (λ e. duplicates_level x.location e ≡ false)) x.evidence in
    let moved = subst Facts unchanged (clean, same_level) in (moved.0, same_city, moved.1)

pub mark_conflicts-Clean :
    (h : HierarchyMap) (c : AdminCandidate) → Clean (mark_conflicts (some h) c) → IsQuiet h c
unfolding mark_conflicts detect_conflicts
mark_conflicts-Clean h c k =
    let c1 = evaluate_hierarchy (some h) c in
    let c2 = detect_postal c1 in
    let facts3 = loops-Clean (detect_orphan c2) k in
    let (e3, no_orphan) = detect_orphan-Clean c2 facts3.0 in
    let facts2 = subst LoopFacts e3 facts3 in
    let (e2, postal_matches) = detect_postal-Clean c1 facts2.0 in
    let facts1 = subst LoopFacts e2 facts2 in
    let (e1, city, district, sub) = evaluate_hierarchy-Clean h c facts1.0 in
    let facts = subst LoopFacts e1 facts1 in
    record {
      clean = facts.0;
      city_inside = city;
      district_inside = district;
      sub_district_inside = sub;
      postal_matches = subst (λ x. postal_mismatch x.location ≡ false) e1 postal_matches;
      no_orphan = subst (λ x. city_is_orphan x.location ≡ false) (e2 ∙ e1) no_orphan;
      same_city = facts.1;
      same_level = facts.2;
    }

pub multiple_cities-quiet :
    (seen : List ℕ) (ev : List MatchedEvidence) (c : AdminCandidate)
    → All (SameCity c.location) ev
    → multiple_cities seen ev c ≡ c
unfolding multiple_cities
multiple_cities-quiet seen [] c s = refl
multiple_cities-quiet seen (me ∷ rest) c (p, s) = elim (Option-cases (city_of me)) [
  | inl no_city ↦ ground (arith, multiple_cities-quiet seen rest c s)
  | inr (e, found) ↦
      ground
        (arith, multiple_cities-quiet seen rest c s, multiple_cities-quiet (e.id ∷ seen) rest c s)
]

pub duplicate_levels-quiet :
    (ev : List MatchedEvidence) (c : AdminCandidate)
    → All (λ me. Holds me.resolved (λ e. duplicates_level c.location e ≡ false)) ev
    → duplicate_levels ev c ≡ c
unfolding duplicate_levels duplicate_round
duplicate_levels-quiet [] c s = refl
duplicate_levels-quiet (me ∷ rest) c (p, s) = ground (arith, duplicate_levels-quiet rest c s)

pub mark_conflicts-quiet :
    (h : HierarchyMap) (c : AdminCandidate) → IsQuiet h c → mark_conflicts (some h) c ≡ c
unfolding mark_conflicts detect_conflicts detect_duplicate_level detect_multiple_cities
    detect_postal detect_orphan evaluate_hierarchy
mark_conflicts-quiet h c q =
    rw (q.city_inside, q.district_inside, q.sub_district_inside, q.postal_matches, q.no_orphan)
      (rw (multiple_cities-quiet [] c.evidence c q.same_city)
        (duplicate_levels-quiet c.evidence c q.same_level))
