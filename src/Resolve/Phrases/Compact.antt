-- ===== src/Resolve/Phrases/Compact.antt =====
-- internal/service/validate_helper.go: phrases that match once spaces are removed, and
-- `ResolveEvidence` of internal/service/resolve.go, which adds them.
use Prim.Native.Char.{code}
use Prim.Native.String
use mathlib.Core.List.{foldl}
use address_quality.Prelude.{
  nat_eq, string_eq, none, some, [], ◌∷◌, String, List, ℕ, Option, select, ◌++◌, length, map, suc,
  if◌then◌else◌, not, take, drop, zero, ◌==◌, contains,
}
use address_quality.GoMap.{RangeOrder, insert}
use address_quality.Text.{fields, join, to_lower, remove_spaces}
use address_quality.Model.{Entity, Evidence, ResolvedEvidence}
use address_quality.Cache.{Caches, source_key}
use address_quality.Resolve.{
  append_unseen, append_unique_entities, resolve_one, apply_city_priority,
  has_hierarchy_compatible_exact_subdistrict, add_compact,
}
use address_quality.Resolve.Phrases.{ByLevel, PhraseDict, get_list, match_phrases}

-- compactSpaces
unfoldable pub compact_spaces : String → String
unfolding to_lower remove_spaces
compact_spaces s = remove_spaces (to_lower s)

-- `key[:sep+1]` and `key[sep+1:]` at the first colon, if there is one
unfoldable pub split_key : String → Option (String × String)
split_key String.[] = none
split_key (String.◌∷◌ c s) = if code c == 58 then some (":", s) else elim (split_key s) [
  | none ↦ none
  | some (before, after) ↦ some (String.◌∷◌ c before, after)
]

-- `levels[level] = appendUniqueEntities(levels[level], entities...)` for each level
unfoldable pub merge_levels : List (String × List Entity) → ByLevel → ByLevel
merge_levels [] levels = levels
merge_levels ((level, entities) ∷ rest) levels =
    merge_levels rest
      (insert level (append_unique_entities (get_list level levels) entities) levels)

module _ (order : RangeOrder) where
  unfoldable pub compact_from : List (String × ByLevel) → PhraseDict → PhraseDict
  compact_from [] compact = compact
  compact_from ((key, by_level) ∷ rest) compact = elim (split_key key) [
    | none ↦ compact_from rest compact
    | some (before, after) ↦
        let compact_key = String.◌++◌ before (compact_spaces after) in
        compact_from rest (
          insert compact_key
            (merge_levels (order.visit (String × List Entity) by_level)
              (get_list compact_key compact))
            compact)
  ]

  unfoldable pub build_compact_phrase_dict : PhraseDict → PhraseDict
  build_compact_phrase_dict dict = compact_from (order.visit (String × ByLevel) dict) []

  -- `spacingOnly`: the entities that the ordinary key does not give, each once.
  unfoldable pub without_ids : List ℕ → List Entity → List Entity
  without_ids exact_ids es = select (λ e. not (contains exact_ids e.id)) es

  unfoldable pub spacing_only : PhraseDict → PhraseDict → ℕ → List String → List Entity
  spacing_only dict compact source_id words =
      let spaced = join " " words in
      let exact_ids =
        foldl (λ out e. out ++ map (λ x. x.id) e.1) []
          (get_list (source_key source_id spaced) dict) in
      let by_level = get_list (source_key source_id (compact_spaces spaced)) compact in
      append_unseen [] [] (
        without_ids exact_ids
          (foldl (λ out e. out ++ e.1) [] (order.visit (String × List Entity) by_level)))

  -- The loop over j, with the entities that the longest such prefix gives. An absent key gives none.
  unfoldable pub longest_compact :
      PhraseDict → PhraseDict → ℕ → List String → ℕ → Option (ℕ × List Entity)
  longest_compact dict compact source_id words zero = none
  longest_compact dict compact source_id words (suc n) =
      let shorter = longest_compact dict compact source_id words n in
      let found = spacing_only dict compact source_id (take (suc n) words) in
      if length found == 0 then shorter else some (suc n, found)

  unfoldable pub add_unique_to_words :
      List String → List Entity → List (String × List Entity) → List (String × List Entity)
  add_unique_to_words [] entities m = m
  add_unique_to_words (w ∷ ws) entities m =
      add_unique_to_words ws entities (insert w (append_unique_entities (get_list w m) entities) m)

  -- The loop over i, on the words that are left; each round takes at least one.
  unfoldable pub compact_match_from :
      PhraseDict
      → PhraseDict
      → ℕ
      → ℕ
      → List String
      → List (String × List Entity)
      → List (String × List Entity)
  compact_match_from dict compact source_id zero words m = m
  compact_match_from dict compact source_id (suc fuel) [] m = m
  compact_match_from dict compact source_id (suc fuel) (w ∷ rest) m =
      elim (longest_compact dict compact source_id (w ∷ rest) (length (w ∷ rest))) [
        | none ↦ compact_match_from dict compact source_id fuel rest m
        | some (n, entities) ↦
            compact_match_from dict compact source_id fuel (drop n (w ∷ rest))
              (add_unique_to_words (take n (w ∷ rest)) entities m)
      ]

  unfoldable pub match_compact_phrases : PhraseDict → ℕ → String → List (String × List Entity)
  match_compact_phrases dict source_id normalized_text =
      let words = fields normalized_text in
      compact_match_from dict (build_compact_phrase_dict dict) source_id (length words) words []

  -- The phrase dictionary is loaded, and its error is never set.
  unfoldable pub resolve_evidence :
      Caches
      → PhraseDict
      → List (String × String)
      → ℕ
      → List Evidence
      → String
      → String
      → List String
      → List ResolvedEvidence
  resolve_evidence s dict priority_set source_id evidence normalized_text compact_match_text
        road_tokens =
      let word_entities = match_phrases order dict source_id normalized_text in
      let resolved =
        apply_city_priority priority_set road_tokens
          (map (resolve_one order s word_entities) evidence) in
      let compact_entities = match_compact_phrases dict source_id compact_match_text in
      if has_hierarchy_compatible_exact_subdistrict s.hierarchy_cache resolved
      then resolved
      else map (add_compact compact_entities) resolved
