-- ===== src/Evaluate/Score.antt =====
-- internal/service/constant.go, and the scores of internal/service/evaluate.go.
-- Weights and scores are counted in ten-thousandths. Every weight is a multiple of 0.01 and the code
-- rounds to four digits, so that `math.Round` is the identity on these numbers.
use Prim.Native.Char.{code}
use address_quality.Prelude.{
  ℕ, suc, ◌+◌, ◌*◌, String, Bool, true, false, ◌&&◌, not, Option, none, some, List, [], ◌∷◌, ℤ,
  sub_ℕ, ltb, leb, length, any, is_some, when, ◌==◌, nat_eq, if◌then◌else◌,
}
use address_quality.GoMap.{lookup, insert, RangeOrder}
use address_quality.Model.{
  Conflict, hierarchy_conflict, Evidence, EvidenceType, MatchedEvidence, Entity, Level,
  AdminLocation, AdminCandidate,
}

abbrev pub weight_exact_match : ℕ
weight_exact_match = 1000

abbrev pub weight_hierarchy : ℕ
weight_hierarchy = 1500

abbrev pub weight_postal_code : ℕ
weight_postal_code = 500

abbrev pub weight_province : ℕ
weight_province = 1500

abbrev pub weight_city : ℕ
weight_city = 1200

abbrev pub weight_district : ℕ
weight_district = 800

abbrev pub weight_sub_district : ℕ
weight_sub_district = 500

abbrev pub weight_multi_province : ℕ
weight_multi_province = 2000

abbrev pub weight_multi_city : ℕ
weight_multi_city = 1500

abbrev pub weight_multi_district : ℕ
weight_multi_district = 1000

abbrev pub weight_multi_sub_district : ℕ
weight_multi_sub_district = 500

abbrev pub max_multi_evidence_bonus : ℕ
max_multi_evidence_bonus = 4000

abbrev pub weight_postal_code_prefix3 : ℕ
weight_postal_code_prefix3 = 700

abbrev pub weight_postal_code_prefix4 : ℕ
weight_postal_code_prefix4 = 1000

abbrev pub weight_postal_code_prefix5 : ℕ
weight_postal_code_prefix5 = 2000

abbrev pub weight_used_evidence_bonus : ℕ
weight_used_evidence_bonus = 300

-- A score of 1.0.
abbrev pub one : ℕ
one = 10000

-- The keys that `getMatchedLevels` may set.
pub record MatchedLevels : Type 0 where
  pub province : Bool
  pub city : Bool
  pub district : Bool
  pub subdistrict : Bool

abbrev no_levels : MatchedLevels
no_levels = record { province = false; city = false; district = false; subdistrict = false }

abbrev province_has : AdminLocation → ℕ → Bool
province_has loc id = elim loc.province [ none ↦ false | some p ↦ p.id == id ]

abbrev city_has : AdminLocation → ℕ → Bool
city_has loc id = elim loc.city [ none ↦ false | some c ↦ c.id == id ]

abbrev district_has : AdminLocation → ℕ → Bool
district_has loc id = elim loc.district [ none ↦ false | some d ↦ d.id == id ]

abbrev sub_district_has : AdminLocation → ℕ → Bool
sub_district_has loc id = elim loc.sub_district [ none ↦ false | some s ↦ s.id == id ]

-- `entityInCandidate` of internal/service/builder.go, which tests what `getMatchedLevels` tests
unfoldable pub entity_in_location : AdminLocation → Entity → Bool
entity_in_location loc e = elim e.level [
  | Level.province ↦ province_has loc e.id
  | Level.city ↦ city_has loc e.id
  | Level.district ↦ district_has loc e.id
  | Level.subdistrict ↦ sub_district_has loc e.id
  | Level.other _ ↦ false
]

-- one round of the loop of `getMatchedLevels`
unfoldable pub match_level : AdminLocation → MatchedEvidence → MatchedLevels → MatchedLevels
match_level loc me m = elim me.resolved [
  | none ↦ m
  | some e ↦ elim e.level [
    | Level.province ↦ if province_has loc e.id then record m { province = true } else m
    | Level.city ↦ if city_has loc e.id then record m { city = true } else m
    | Level.district ↦ if district_has loc e.id then record m { district = true } else m
    | Level.subdistrict ↦ if sub_district_has loc e.id then record m { subdistrict = true } else m
    | Level.other _ ↦ m
  ]
]

unfoldable pub match_levels : AdminLocation → List MatchedEvidence → MatchedLevels → MatchedLevels
match_levels loc [] m = m
match_levels loc (me ∷ rest) m = match_levels loc rest (match_level loc me m)

unfoldable pub get_matched_levels : AdminCandidate → MatchedLevels
get_matched_levels c = match_levels c.location c.evidence no_levels

-- The loop over bytes of `scorePostalCodePrefix`. Postal codes are ASCII, where the bytes of a text
-- are its characters.
unfoldable pub match_len : String → String → ℕ
match_len String.[] q = 0
match_len (String.◌∷◌ a p) String.[] = 0
match_len (String.◌∷◌ a p) (String.◌∷◌ b q) =
    let rest = match_len p q in if code a == code b then suc rest else 0

-- The `switch` on `matchLen`; `none` goes on with the loop.
unfoldable pub prefix_weight : ℕ → Option ℕ
prefix_weight n =
    if leb 5 n
    then some weight_postal_code_prefix5
    else if leb 4 n
    then some weight_postal_code_prefix4
    else if leb 3 n
    then some weight_postal_code_prefix3
    else none

unfoldable pub prefix_score : String → List MatchedEvidence → ℕ
prefix_score postal_code [] = 0
prefix_score postal_code (me ∷ rest) =
    let later = prefix_score postal_code rest in
    elim me.evidence.type [
      | EvidenceType.postal_code ↦ elim (prefix_weight (match_len me.evidence.value postal_code)) [
        | none ↦ later
        | some w ↦ w
      ]
      | _ ↦ later
    ]

unfoldable pub score_postal_code_prefix : AdminCandidate → ℕ
score_postal_code_prefix c = elim c.location.postal_code [
  | none ↦ 0
  | some pc ↦ prefix_score pc.code c.evidence
]

-- The maps `counts` and `levelOfID` of `multiEvidenceBonus`, which have the same keys, as one map.
pub record Tally : Type 0 where
  pub count : ℕ
  pub level : Level

abbrev tally_count : Option Tally → ℕ
tally_count none = 0
tally_count (some t) = t.count

unfoldable pub tally : List MatchedEvidence → List (ℕ × Tally) → List (ℕ × Tally)
tally [] m = m
tally (me ∷ rest) m = tally rest (elim me.resolved [
  | none ↦ m
  | some e ↦ insert e.id (record { count = tally_count (lookup e.id m) + 1; level = e.level }) m
])

unfoldable pub multi_weight : Level → ℕ
multi_weight Level.province = weight_multi_province
multi_weight Level.city = weight_multi_city
multi_weight Level.district = weight_multi_district
multi_weight Level.subdistrict = weight_multi_sub_district
multi_weight (Level.other _) = 0

-- The loop over `counts`: what one entry adds, and the sum.
unfoldable pub entry_bonus : ℕ × Tally → ℕ
entry_bonus (id, t) = if ltb t.count 2 then 0 else multi_weight t.level

unfoldable pub sum_bonus : List (ℕ × Tally) → ℕ
sum_bonus [] = 0
sum_bonus (entry ∷ rest) = entry_bonus entry + sum_bonus rest

unfoldable pub multi_evidence_bonus : RangeOrder → AdminCandidate → ℕ
multi_evidence_bonus order c =
    let bonus = sum_bonus (order.visit (ℕ × Tally) (tally c.evidence [])) in
    if ltb max_multi_evidence_bonus bonus then max_multi_evidence_bonus else bonus

abbrev pub has_exact_match : List MatchedEvidence → Bool
has_exact_match = any (λ me. is_some me.resolved)

unfoldable pub is_hierarchy_conflict : Conflict → Bool
is_hierarchy_conflict k = elim k.type [ hierarchy_conflict ↦ true | _ ↦ false ]

-- The score before it is capped.
unfoldable pub raw_score : RangeOrder → AdminCandidate → ℕ
raw_score order c =
    let matched = get_matched_levels c in
    when (has_exact_match c.evidence) weight_exact_match
    + when (not (any is_hierarchy_conflict c.location.conflicts) && is_some c.location.city)
        weight_hierarchy
    + when (is_some c.location.postal_code) (weight_postal_code + score_postal_code_prefix c)
    + when matched.province weight_province
    + when matched.city weight_city
    + when matched.district weight_district
    + when matched.subdistrict weight_sub_district
    + multi_evidence_bonus order c

unfoldable pub score_confidence : RangeOrder → AdminCandidate → List Evidence → Bool → ℤ
score_confidence order c unused has_evidence =
    let score = raw_score order c in
    let capped = if ltb one score then one else score in
    if has_evidence && ltb 0 (length unused)
    then sub_ℕ capped (length unused * weight_used_evidence_bonus)
    else sub_ℕ capped 0
