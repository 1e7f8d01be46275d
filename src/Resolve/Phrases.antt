-- ===== src/Resolve/Phrases.antt =====
-- internal/service/validate_helper.go: the phrase dictionary and the search for the longest phrase.
pub mod Longest
pub mod Compact
use Prim.Native.String
use mathlib.Core.Option
use mathlib.Core.List.{foldl}
use address_quality.GoMap.{RangeOrder, lookup, insert}
use address_quality.Text.{fields, join}
use address_quality.Model.{Entity, Level}
use address_quality.Evaluate.Conflicts.{level_text}
use address_quality.Cache.{
  Caches, ProvinceEntry, CityEntry, DistrictEntry, SubDistrictEntry, source_key,
}
use address_quality.Prelude.{
  List, String, ℕ, [], ◌∷◌, map, ◌++◌, Bool, Option, if◌then◌else◌, length, suc, false, none, take,
  string_eq, not, is_some, some, zero, any, drop, ◌==◌, ◌&&◌, ltb,
}

-- The entities of a key, by the text of their level.
abbrev pub ByLevel : Type 0
ByLevel = List (String × List Entity)

abbrev pub PhraseDict : Type 0
PhraseDict = List (String × ByLevel)

abbrev pub get_list {ℓ} : {V : Type ℓ} → String → List (String × List V) → List V
get_list k m = Option.get_or (lookup k m) []

abbrev pub province_entity : ProvinceEntry → Entity
province_entity e = record { id = e.id; name = e.name; level = Level.province; postal_code = "" }

abbrev pub city_entity : CityEntry → Entity
city_entity e = record { id = e.id; name = e.name; level = Level.city; postal_code = e.postal_code }

abbrev pub district_entity : DistrictEntry → Entity
district_entity e = record { id = e.id; name = e.name; level = Level.district; postal_code = "" }

abbrev pub sub_district_entity : SubDistrictEntry → Entity
sub_district_entity e = record {
  id = e.id;
  name = e.name;
  level = Level.subdistrict;
  postal_code = e.postal_code;
}

-- `m[level] = append(m[level], e)` for each entry
unfoldable pub add_entries : String → List Entity → ByLevel → ByLevel
add_entries level [] m = m
add_entries level (e ∷ es) m = add_entries level es (insert level (get_list level m ++ e ∷ []) m)

-- One of the four loops of `loadPhraseDict`, over the entries of a cache in the order of the range.
unfoldable pub index_entries : String → List (String × List Entity) → PhraseDict → PhraseDict
index_entries level [] dict = dict
index_entries level ((key, es) ∷ rest) dict =
    index_entries level rest (insert key (add_entries level es (get_list key dict)) dict)

abbrev entities_of {ℓ} :
    {E : Type ℓ} → (E → Entity) → List (String × List E) → List (String × List Entity)
entities_of f = map (λ e. (e.0, map f e.1))

-- `phraseDict` of `loadPhraseDict`
unfoldable pub load_phrase_dict : RangeOrder → Caches → PhraseDict
load_phrase_dict order s =
    let provinces = order.visit (String × List ProvinceEntry) s.province_cache in
    let cities = order.visit (String × List CityEntry) s.city_cache in
    let districts = order.visit (String × List DistrictEntry) s.district_cache in
    let sub_districts = order.visit (String × List SubDistrictEntry) s.sub_district_cache in
    index_entries "SUBDISTRICT" (entities_of sub_district_entity sub_districts) (
      index_entries "DISTRICT" (entities_of district_entity districts) (
        index_entries "CITY" (entities_of city_entity cities)
          (index_entries "PROVINCE" (entities_of province_entity provinces) [])))

-- `for _, levelEntities := range byLevel { entities = append(entities, levelEntities...) }`
unfoldable pub all_entities : RangeOrder → ByLevel → List Entity
all_entities order by_level =
    foldl (λ out e. out ++ e.1) [] (order.visit (String × List Entity) by_level)

-- `wordEntities[words[k]] = append(wordEntities[words[k]], entities...)` for each word
unfoldable pub add_to_words :
    List String → List Entity → List (String × List Entity) → List (String × List Entity)
add_to_words [] entities m = m
add_to_words (w ∷ ws) entities m = add_to_words ws entities (insert w (get_list w m ++ entities) m)

-- repeatedPhrase
unfoldable pub repeated_phrase : List String → Bool
repeated_phrase [] = false
repeated_phrase (w ∷ ws) = not (any (λ v. not (v == w)) ws) && ltb 0 (length ws)

module _ (order : RangeOrder) (dict : PhraseDict) (source_id : ℕ) where
  abbrev pub phrase_key : List String → String
  phrase_key words = source_key source_id (join " " words)

  -- The loop over j: the longest of the first n prefixes of the words that is a key, by its length.
  unfoldable pub longest_match : List String → ℕ → Option ℕ
  longest_match words zero = none
  longest_match words (suc n) =
      let shorter = longest_match words n in
      if is_some (lookup (phrase_key (take (suc n) words)) dict) then some (suc n) else shorter

  -- What a phrase that matches adds to the words it consists of.
  unfoldable pub add_phrase :
      List String → List (String × List Entity) → List (String × List Entity)
  add_phrase phrase m =
      let entities = all_entities order (get_list (phrase_key phrase) dict) in
      let matched = add_to_words phrase entities m in
      if repeated_phrase phrase
      then elim (lookup (phrase_key (take 1 phrase)) dict) [
        | none ↦ matched
        | some by_level ↦ add_to_words phrase (all_entities order by_level) matched
      ]
      else matched

  -- The loop over i, on the words that are left. Each round takes at least one word, so the number
  -- of words is enough fuel.
  unfoldable pub match_from :
      ℕ → List String → List (String × List Entity) → List (String × List Entity)
  match_from zero words m = m
  match_from (suc fuel) [] m = m
  match_from (suc fuel) (w ∷ rest) m = elim (longest_match (w ∷ rest) (length (w ∷ rest))) [
    | none ↦ match_from fuel rest m
    | some n ↦ match_from fuel (drop n (w ∷ rest)) (add_phrase (take n (w ∷ rest)) m)
  ]

  unfoldable pub match_phrases : String → List (String × List Entity)
  match_phrases normalized_text =
      let words = fields normalized_text in match_from (length words) words []
