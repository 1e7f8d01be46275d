-- ===== src/Tests/Phrases.antt =====
-- The phrase search, the contextual recovery and the pipeline at concrete inputs.
use mathlib.Core.Option
use mathlib.Core.List.{Mem, Memᴰ}
use address_quality.Prelude.{
  nat_eq, string_eq, none, some, [], ◌∷◌, ◌≡◌, refl, true, All, ℕ, List, contains, ◌≤◌, length,
  String, ◌||◌, Bool, get_or, false, map, if◌then◌else◌, ◌++◌, Option, is_some,
}
use address_quality.Sort.Insertion.{insertion}
use address_quality.Fuzzy.Recover.{Recovery, recover_contextual_evidence, known_entities}
use address_quality.Fuzzy.Recover.Fresh.{AreNew, recover_contextual_evidence-AreNew}
use address_quality.Tests.{
  in_order, west_java, province_rows, city_rows, district_rows, sub_district_rows, caches, dago,
  bandung, word, resolved, full,
}
use address_quality.Model.{AdminCandidate, orphan_city, ResolvedEvidence}
use address_quality.Cache.{
  load_hierarchy, load_provinces, load_cities, load_districts, load_sub_districts, load_province,
  load_city, load_district, load_sub_district, load_all, no_caches,
}
use address_quality.Cache.Keyed.{load_all-IsWellKeyed}
use address_quality.Evaluate.{evaluate_candidate}
use address_quality.Evaluate.Conflicts.{city_is_orphan}
use address_quality.Pipeline.{build_candidates}
use address_quality.Pipeline.Sound.{pipeline-conflicts}
use address_quality.Builder.{
  build_conclusions, discover_candidates, unique_from, stamp, collect_unique_entities, collect_from,
  add_entities, build_from_province, build_from_city, build_from_district, build_from_subdistrict,
}
use address_quality.GoMap.{lookup, insert}
use address_quality.Dedup.{candidate_key, deduplicate_candidates, dedup_from}
use address_quality.Enrich.{
  enrich, fill_postal_code, fill_province, fill_city, fill_district, parent, enrich_candidates,
}
use address_quality.Resolve.{append_unique_entities}
use address_quality.Resolve.Unique.{ids, distinct, append_unique_entities-ids}
use address_quality.Resolve.Phrases.{PhraseDict, match_from, longest_match}
use address_quality.Resolve.Phrases.Longest.{Promise, longest_match-IsLongest, match_from-fuel}
use address_quality.Fuzzy.{evaluate_candidate_coverage, unexplained_runs, is_structural, used}
use address_quality.Fuzzy.Runs.{flatten, unexplained_from, unexplained_runs-flatten}

abbrev dict : PhraseDict
dict = ("1:bandung", ("CITY", bandung ∷ []) ∷ []) ∷ []

longest_match-IsLongest_example :
    Promise in_order dict 1
      ("bandung" ∷ "kulon" ∷ [])
      2
      (longest_match in_order dict 1 ("bandung" ∷ "kulon" ∷ []) 2)
longest_match-IsLongest_example =
    longest_match-IsLongest in_order dict 1 ("bandung" ∷ "kulon" ∷ []) 2

match_from-fuel_example :
    match_from in_order dict 1 4 ("bandung" ∷ "kulon" ∷ []) []
    ≡ match_from in_order dict 1 2 ("bandung" ∷ "kulon" ∷ []) []
match_from-fuel_example = match_from-fuel in_order dict 1 ("bandung" ∷ "kulon" ∷ []) [] 2

append_unique_entities-ids_example :
    (distinct (ids (append_unique_entities (dago ∷ []) (bandung ∷ dago ∷ []))) ≡ true)
    × ((a : ℕ)
        → contains (ids (append_unique_entities (dago ∷ []) (bandung ∷ dago ∷ []))) a
          ≡ (contains (ids (dago ∷ [])) a || contains (ids (bandung ∷ dago ∷ [])) a))
append_unique_entities-ids_example =
    append_unique_entities-ids (dago ∷ []) (bandung ∷ dago ∷ []) refl

unexplained_runs-flatten_example :
    (flatten (unexplained_runs ("bndung" ∷ "no" ∷ "cihuar" ∷ "gelis" ∷ []) [] [])
      ≡ unexplained_from [] [] 0 ("bndung" ∷ "no" ∷ "cihuar" ∷ "gelis" ∷ []))
    × All (λ r. 1 ≤ length r) (unexplained_runs ("bndung" ∷ "no" ∷ "cihuar" ∷ "gelis" ∷ []) [] [])
unexplained_runs-flatten_example =
    unexplained_runs-flatten ("bndung" ∷ "no" ∷ "cihuar" ∷ "gelis" ∷ []) [] []

abbrev is_empty : {A : Type 0} → List A → Bool
is_empty [] = true
is_empty (x ∷ l) = false

abbrev new_uuid : ℕ → String
new_uuid i = "u"

abbrev built : List AdminCandidate
built = build_candidates in_order insertion new_uuid caches (some resolved)

-- The best candidate of the run.
abbrev first : AdminCandidate
first = get_or built 0 full

first-Mem : {A : Type 0} (l : List A) (d : A) → is_empty l ≡ false → Mem (get_or l 0 d) l
first-Mem [] d e = cc
first-Mem (x ∷ l) d e = ∣ Memᴰ.head refl ∣₁

caches-hierarchy : caches.hierarchy_cache ≡ some west_java
unfolding load_all load_hierarchy load_provinces load_cities load_districts load_sub_districts
    load_province load_city load_district load_sub_district
caches-hierarchy = refl

built-nonempty : is_empty built ≡ false
unfolding build_candidates build_conclusions enrich_candidates discover_candidates
    deduplicate_candidates dedup_from unique_from stamp collect_unique_entities collect_from
    add_entities load_all load_hierarchy load_provinces load_cities load_districts
    load_sub_districts load_province load_city load_district load_sub_district build_from_province
    build_from_city build_from_district build_from_subdistrict lookup insert candidate_key enrich
    fill_postal_code fill_province fill_city fill_district parent
built-nonempty = refl

pipeline-conflicts_example :
    map
      (λ k. k.type)
      (evaluate_candidate in_order first caches.hierarchy_cache (word "dago" ∷ [])).conflicts
    ≡ (if city_is_orphan first.location then orphan_city ∷ [] else [])
pipeline-conflicts_example =
    pipeline-conflicts in_order insertion new_uuid caches west_java resolved first
      (word "dago" ∷ [])
      (load_all-IsWellKeyed (some province_rows) (some city_rows) (some district_rows)
        (some sub_district_rows) (some west_java))
      caches-hierarchy (first-Mem built full built-nonempty)

-- "coblng" is a typing error of the district of the candidate.
abbrev with_typo : List ResolvedEvidence
with_typo = resolved ++ record { evidence = word "coblng"; candidates = [] } ∷ []

abbrev no_recovery : Recovery
no_recovery = record { known_entity = []; recovered = []; corrections = []; explained = [] }

abbrev recovery : Recovery
recovery =
    Option.get_or
      (recover_contextual_evidence in_order caches (full ∷ []) with_typo "dago coblng bandung" [])
      no_recovery

eq-some : {A : Type 0} (o : Option A) (d : A) → is_some o ≡ true → o ≡ some (Option.get_or o d)
eq-some none d e = cc
eq-some (some a) d e = refl

recovers :
    is_some
      (recover_contextual_evidence in_order caches (full ∷ []) with_typo "dago coblng bandung" [])
    ≡ true
unfolding address_quality.Fuzzy.all_digits address_quality.Fuzzy.is_digit_only
    address_quality.Fuzzy.is_structural address_quality.Fuzzy.evaluate_candidate_coverage
    address_quality.Fuzzy.best_coverage address_quality.Fuzzy.select_expansion_frontier
    address_quality.Fuzzy.runs_from address_quality.Fuzzy.unexplained_runs
    address_quality.Fuzzy.Recover.children address_quality.Fuzzy.Recover.ancestors
    address_quality.Fuzzy.Recover.lower_level address_quality.Fuzzy.Recover.candidate_neighborhood
    address_quality.Fuzzy.Recover.add_target address_quality.Fuzzy.Recover.add_targets
    address_quality.Fuzzy.Recover.build_match_targets address_quality.Fuzzy.Recover.best_similarity
    address_quality.Fuzzy.Recover.best_span_match address_quality.Fuzzy.Recover.keep_span
    address_quality.Fuzzy.Recover.take_span address_quality.Fuzzy.Recover.longest_span
    address_quality.Fuzzy.Recover.recover_run address_quality.Fuzzy.Recover.recover_runs
    address_quality.Fuzzy.Recover.known_entities
    address_quality.Fuzzy.Recover.recover_contextual_evidence
    address_quality.Fuzzy.Distance.first_row address_quality.Fuzzy.Distance.substitution_cost
    address_quality.Fuzzy.Distance.cell address_quality.Fuzzy.Distance.fill
    address_quality.Fuzzy.Distance.rows address_quality.Fuzzy.Distance.damerau_levenshtein
    address_quality.Fuzzy.Distance.damerau_similarity address_quality.Text.is_space
    address_quality.Text.fields_from address_quality.Text.fields address_quality.Text.join
    address_quality.Text.to_lower_char address_quality.Text.to_lower
    address_quality.Text.remove_spaces address_quality.Text.is_digit address_quality.GoMap.lookup
    address_quality.GoMap.insert address_quality.Cache.source_key
    address_quality.Cache.load_province address_quality.Cache.load_city
    address_quality.Cache.load_district address_quality.Cache.load_sub_district
    address_quality.Cache.load_provinces address_quality.Cache.load_cities
    address_quality.Cache.load_districts address_quality.Cache.load_sub_districts
    address_quality.Cache.load_hierarchy address_quality.Cache.load_all
    address_quality.Resolve.Phrases.Compact.compact_spaces address_quality.Resolve.append_unseen
recovers = refl

recover_contextual_evidence-AreNew_example :
    All (λ re. AreNew (known_entities with_typo) re.candidates) recovery.recovered
recover_contextual_evidence-AreNew_example =
    recover_contextual_evidence-AreNew in_order caches (full ∷ []) with_typo "dago coblng bandung"
      [] recovery
      (eq-some
        (recover_contextual_evidence in_order caches (full ∷ []) with_typo "dago coblng bandung" [])
        no_recovery recovers)
