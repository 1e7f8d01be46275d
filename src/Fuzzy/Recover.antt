-- ===== src/Fuzzy/Recover.antt =====
-- internal/service/fuzzy_context.go: the neighborhood of a candidate, the names to match, and the
-- recovery of evidence from the words that are not explained.
pub mod Fresh
use Prim.Native.Char.{code}
use mathlib.Core.Option
use mathlib.Core.List.{foldl}
use address_quality.Prelude.{
  nat_eq, string_eq, inl, inr, none, some, [], ◌∷◌, List, String, Bool, ℕ, ◌++◌, map, if◌then◌else◌,
  ltb, Option, ◌==◌, length, ◌*◌, suc, select, take, min, get_or, ◌||◌, zero, not, drop,
}
use address_quality.GoMap.{RangeOrder, lookup, insert}
use address_quality.Text.{chars, fields, join, to_lower}
use address_quality.Model
use address_quality.Model.{
  Entity, Level, Evidence, EvidenceType, ResolvedEvidence, AdminCandidate, AdminLocation,
  HierarchyMap,
}
use address_quality.Builder.{is_postal}
use address_quality.Cache.{Caches, CityEntry, DistrictEntry, SubDistrictEntry}
use address_quality.Resolve.{append_unseen}
use address_quality.Resolve.Phrases.{get_list, city_entity, district_entity, sub_district_entity}
use address_quality.Resolve.Phrases.Compact.{compact_spaces}
use address_quality.Fuzzy.{
  CandidateCoverage, evaluate_candidate_coverage, select_expansion_frontier, unexplained_runs,
  min_target_key_len, max_span_tokens,
}
use address_quality.Fuzzy.Distance.{Fraction, damerau_similarity}

-- The entries whose parent in the map is `up`: one key of a children index, in the order of the range.
unfoldable pub children {ℓ} : {E : Type ℓ} → List (ℕ × ℕ) → ℕ → List (ℕ × E) → List E
children above up [] = []
children above up ((id, e) ∷ rest) =
    let others = children above up rest in
    elim (lookup id above) [ none ↦ others | some p ↦ if p == up then e ∷ others else others ]

unfoldable pub ancestors : AdminLocation → List Entity
ancestors loc =
    elim loc.province [
      | none ↦ []
      | some p ↦ record { id = p.id; name = p.name; level = Level.province; postal_code = "" } ∷ []
    ]
    ++ elim loc.city [
      | none ↦ []
      | some c ↦
          record { id = c.id; name = c.name; level = Level.city; postal_code = c.postal_code } ∷ []
    ]
    ++ elim loc.district [
      | none ↦ []
      | some d ↦ record { id = d.id; name = d.name; level = Level.district; postal_code = "" } ∷ []
    ]
    ++ elim loc.sub_district [
      | none ↦ []
      | some t ↦
          record {
            id = t.id;
            name = t.name;
            level = Level.subdistrict;
            postal_code = t.postal_code;
          }
          ∷ []
    ]

module _ (order : RangeOrder) (s : Caches) where
  -- The `switch`: the children one level below the deepest level.
  unfoldable pub lower_level : HierarchyMap → AdminLocation → List Entity
  lower_level h loc = elim loc.sub_district [
    | some t ↦ []
    | none ↦ elim loc.district [
      | some d ↦ map sub_district_entity (
          children h.sub_district_to_dist d.id
            (order.visit (ℕ × SubDistrictEntry) s.sub_district_by_id))
      | none ↦ elim loc.city [
        | some c ↦
            map district_entity
              (children h.district_to_city c.id (order.visit (ℕ × DistrictEntry) s.district_by_id))
        | none ↦ elim loc.province [
          | some p ↦
              map city_entity
                (children h.city_to_province p.id (order.visit (ℕ × CityEntry) s.city_by_id))
          | none ↦ []
        ]
      ]
    ]
  ]

  -- `add` leaves out the id 0 and the ids it has seen.
  unfoldable pub candidate_neighborhood : AdminCandidate → List Entity
  candidate_neighborhood c = elim s.hierarchy_cache [
    | none ↦ []
    | some h ↦ append_unseen (0 ∷ []) [] (ancestors c.location ++ lower_level h c.location)
  ]

-- `add` of `buildMatchTargets`, with the length in runes
unfoldable pub add_target :
    Entity → List (String × List Entity) → String → List (String × List Entity)
add_target e targets key =
    if ltb (length (chars key)) min_target_key_len
    then targets
    else insert key (get_list key targets ++ e ∷ []) targets

unfoldable pub add_targets : List (String × List Entity) → Entity → List (String × List Entity)
unfolding to_lower fields compact_spaces
add_targets targets e =
    let norm = to_lower e.name in
    foldl (λ m w. add_target e m (compact_spaces w)) (add_target e targets (compact_spaces norm))
      (fields norm)

unfoldable pub build_match_targets : List Entity → List (String × List Entity)
build_match_targets entities = foldl add_targets [] entities

abbrev codes : String → List ℕ
codes s = map code (chars s)

abbrev pub less_than : Fraction → Fraction → Bool
less_than a b = ltb (a.num * b.den) (b.num * a.den)

abbrev pub similarity : String → String → Fraction
similarity a b = damerau_similarity (codes a) (codes b)

-- The loop for `best`, from 0.0
unfoldable pub best_similarity : String → Fraction → List (String × List Entity) → Fraction
best_similarity span_key best [] = best
best_similarity span_key best ((k, _) ∷ rest) =
    let keep = best_similarity span_key best rest in
    let better = best_similarity span_key (similarity span_key k) rest in
    if less_than best (similarity span_key k) then better else keep

-- No entities where Go returns nil. The length of the key is counted in characters; the text is
-- normalized, so they are its bytes. The threshold is 0.8.
unfoldable pub best_span_match :
    RangeOrder → String → List (String × List Entity) → Option (List Entity)
best_span_match order span_key targets =
    let visited = order.visit (String × List Entity) targets in
    let best = best_similarity span_key (record { num = 0; den = 1 }) visited in
    if ltb (length (chars span_key)) min_target_key_len
    then none
    else if ltb (10 * best.num) (8 * best.den)
    then none
    else some (
        append_unseen [] [] (
          foldl (λ out e. out ++ e.1) []
            (select (λ e. not (less_than (similarity span_key e.0) best)) visited)))

-- What the loop over the runs has gathered.
pub record Recovery : Type 0 where
  pub known_entity : List ℕ
  pub recovered : List ResolvedEvidence
  pub corrections : List (String × String)
  pub explained : List String

-- The span's words are explained; the entities that are fresh become evidence.
unfoldable pub keep_span : String → List String → List Entity → Recovery → Recovery
keep_span span_text span [] r = record r { explained = r.explained ++ span }
keep_span span_text span (first ∷ others) r = record {
  known_entity = first.id ∷ map (λ e. e.id) others ++ r.known_entity;
  recovered =
      r.recovered
      ++ record {
        evidence = record { type = EvidenceType.place_name; value = span_text };
        candidates = first ∷ others;
      }
        ∷ [];
  corrections = insert span_text first.name r.corrections;
  explained = r.explained ++ span;
}

-- The body of `if ents != nil`: the span's text and words, and the entities.
unfoldable pub take_span : String → List String → List Entity → Recovery → Recovery
take_span span_text span ents r = keep_span span_text span (append_unseen r.known_entity [] ents) r

module _ (order : RangeOrder) (targets : List (String × List Entity)) where
  -- The loop over l, from the longest span down: the length that matches, and its entities.
  unfoldable pub longest_span : List String → ℕ → Option (ℕ × List Entity)
  longest_span words zero = none
  longest_span words (suc l) =
      let shorter = longest_span words l in
      elim (best_span_match order (compact_spaces (to_lower (join " " (take (suc l) words))))
        targets) [ none ↦ shorter | some ents ↦ some (suc l, ents) ]

  -- The loop over i, on the words of the run that are left; each round takes at least one.
  unfoldable pub recover_run : ℕ → List String → Recovery → Recovery
  recover_run zero words r = r
  recover_run (suc fuel) [] r = r
  recover_run (suc fuel) (w ∷ rest) r =
      elim (longest_span (w ∷ rest) (min max_span_tokens (length (w ∷ rest)))) [
        | none ↦ recover_run fuel rest r
        | some (l, ents) ↦
            recover_run fuel (drop l (w ∷ rest))
              (take_span (join " " (take l (w ∷ rest))) (take l (w ∷ rest)) ents r)
      ]

  unfoldable pub recover_runs : List String → List (List ℕ) → Recovery → Recovery
  recover_runs words [] r = r
  recover_runs words (run ∷ runs) r =
      recover_runs words runs (recover_run (length run) (map (λ i. get_or words i "") run) r)

-- The ids that evidence has resolved to, postal codes apart.
unfoldable pub known_entities : List ResolvedEvidence → List ℕ
known_entities [] = []
known_entities (re ∷ rest) =
    let others = known_entities rest in
    if is_postal re.evidence.type then others else map (λ e. e.id) re.candidates ++ others

-- Nothing where Go returns three nils.
unfoldable pub recover_contextual_evidence :
    RangeOrder
    → Caches
    → List AdminCandidate
    → List ResolvedEvidence
    → String
    → List String
    → Option Recovery
recover_contextual_evidence order s candidates resolved normalized road_tokens =
    let evidence = map (λ re. re.evidence) resolved in
    let frontier =
      select_expansion_frontier
        (map (λ c. evaluate_candidate_coverage c evidence road_tokens) candidates) in
    let entities =
      append_unseen [] []
        (foldl (λ out fc. out ++ candidate_neighborhood order s fc.candidate) [] frontier) in
    let explained_by_frontier =
      foldl (λ out fc. out ++ map (λ ev. ev.value) fc.used_evidence) [] frontier in
    let words = fields normalized in
    let r =
      recover_runs order (build_match_targets entities) words
        (unexplained_runs words explained_by_frontier road_tokens)
        (record {
          known_entity = known_entities resolved;
          recovered = [];
          corrections = [];
          explained = [];
        }) in
    if length frontier == 0 || length r.recovered == 0 then none else some r
