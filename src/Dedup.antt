-- ===== src/Dedup.antt =====
-- internal/service/dedup.go: candidates for the same location are merged.
pub mod Keys
use Prim.Native.String
use address_quality.Prelude.{
  ℕ, String, Bool, true, false, none, some, List, [], ◌∷◌, ◌++◌, map, pos, leb, length, set, get_or,
  nat_eq, string_eq, if◌then◌else◌, any,
}
use address_quality.GoMap.{lookup, insert, RangeOrder}
use address_quality.Itoa.{itoa}
use address_quality.Model.{
  MatchedEvidence, AdminLocation, AdminCandidate, DiscoveryStrategy, top_down, any_level, alias,
  postal,
}
use address_quality.Evaluate.Conflicts.{level_text}

-- The four ids of a location, 0 where a level is missing.
abbrev pub province_id : AdminLocation → ℕ
province_id loc = elim loc.province [ none ↦ 0 | some p ↦ p.id ]

abbrev pub city_id : AdminLocation → ℕ
city_id loc = elim loc.city [ none ↦ 0 | some c ↦ c.id ]

abbrev pub district_id : AdminLocation → ℕ
district_id loc = elim loc.district [ none ↦ 0 | some d ↦ d.id ]

abbrev pub sub_district_id : AdminLocation → ℕ
sub_district_id loc = elim loc.sub_district [ none ↦ 0 | some s ↦ s.id ]

-- `key`: the loop over the ids with ":" before each but the first
unfoldable pub key_rest : List ℕ → String
unfolding itoa
key_rest [] = ""
key_rest (id ∷ ids) = String.◌++◌ ":" (String.◌++◌ (itoa (pos id)) (key_rest ids))

unfoldable pub key : List ℕ → String
unfolding key_rest
key [] = ""
key (id ∷ ids) = String.◌++◌ (itoa (pos id)) (key_rest ids)

unfoldable pub candidate_key : AdminLocation → String
unfolding key
candidate_key loc = key (province_id loc ∷ city_id loc ∷ district_id loc ∷ sub_district_id loc ∷ [])

-- The resolved part is `Value + ":" + Level + ":" + itoa(ID)`.
unfoldable pub evidence_key : MatchedEvidence → String
unfolding itoa
evidence_key me = elim me.resolved [
  | none ↦ me.evidence.value
  | some e ↦
      String.◌++◌ me.evidence.value
        (String.◌++◌ ":" (String.◌++◌ (level_text e.level) (String.◌++◌ ":" (itoa (pos e.id)))))
]

abbrev strategy_beq : DiscoveryStrategy → DiscoveryStrategy → Bool
strategy_beq top_down top_down = true
strategy_beq any_level any_level = true
strategy_beq alias alias = true
strategy_beq postal postal = true
strategy_beq _ _ = false

-- `strategySet[s] = true` for each strategy, over the set so far
unfoldable pub add_strategies :
    List DiscoveryStrategy → List DiscoveryStrategy → List DiscoveryStrategy
add_strategies [] s = s
add_strategies (x ∷ xs) s = add_strategies xs (if any (strategy_beq x) s then s else s ++ x ∷ [])

-- `evidenceSet[evidenceKey(me)] = me`
unfoldable pub add_evidence :
    List MatchedEvidence → List (String × MatchedEvidence) → List (String × MatchedEvidence)
add_evidence [] m = m
add_evidence (me ∷ rest) m = add_evidence rest (insert (evidence_key me) me m)

module _ (order : RangeOrder) where
  unfoldable pub merge_candidates : AdminCandidate → AdminCandidate → AdminCandidate
  merge_candidates a b = record a {
    discovery_strategies =
        order.visit DiscoveryStrategy
          (add_strategies b.discovery_strategies (add_strategies a.discovery_strategies []));
    evidence =
        map (λ e. e.1)
          (order.visit (String × MatchedEvidence)
            (add_evidence b.evidence (add_evidence a.evidence [])));
  }

  -- `deduped[idx] = mergeCandidates(deduped[idx], c)`
  unfoldable pub merge_at : ℕ → AdminCandidate → List AdminCandidate → List AdminCandidate
  merge_at i c deduped = set deduped i (merge_candidates (get_or deduped i c) c)

  -- The loop, over `seen` and `deduped`.
  unfoldable pub dedup_from :
      List (String × ℕ) → List AdminCandidate → List AdminCandidate → List AdminCandidate
  dedup_from seen deduped [] = deduped
  dedup_from seen deduped (c ∷ rest) = elim (lookup (candidate_key c.location) seen) [
    | some idx ↦ dedup_from seen (merge_at idx c deduped) rest
    | none ↦
        dedup_from (insert (candidate_key c.location) (length deduped) seen) (deduped ++ c ∷ [])
          rest
  ]

  unfoldable pub deduplicate_candidates : List AdminCandidate → List AdminCandidate
  deduplicate_candidates candidates =
      if leb (length candidates) 1 then candidates else dedup_from [] [] candidates
