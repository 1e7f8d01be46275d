-- ===== src/Tests/Runs.antt =====
-- Each theorem at a concrete input.
use mathlib.Core.List.{Perm, Pairwise}
use address_quality.Dedup.{deduplicate_candidates}
use address_quality.Dedup.Keys.{keys, all_distinct, deduplicate_candidates-keys}
use address_quality.Pipeline.{evaluate_candidates, score}
use address_quality.Pipeline.Ranked.{evaluate_candidates-Pairwise, StandsBefore}
use address_quality.Sort.Insertion.{insertion}
use address_quality.Prelude.{
  nat_eq, string_eq, some, [], ◌∷◌, ◌≡◌, refl, ◌↔◌, ◌==◌, ◌+◌, ◌≤◌, length, ◌<◌, ℕ, true, false,
  List, map, String, contains,
}
use address_quality.Tests.{
  in_order, swapped, west_java, province_rows, city_rows, district_rows, sub_district_rows, caches,
  dago, word, full, two_jobs,
}
use address_quality.Model.{QualityStatus}
use address_quality.Cache.Keyed.{IsWellKeyed, load_all-IsWellKeyed}
use address_quality.Evaluate.{evaluate_candidate}
use address_quality.Evaluate.Valid.{IsConsistent, evaluate_candidate-valid_iff}
use address_quality.Evaluate.Bounds.{evaluate_candidate-order}
use address_quality.Enrich.{enrich}
use address_quality.Enrich.Nested.{IsNested, enrich-IsNested}
use address_quality.Builder.{build_from_subdistrict}
use address_quality.Fuzzy.Distance.{
  damerau_levenshtein, rows, fill, cell, first_row, substitution_cost, damerau_similarity,
}
use address_quality.Fuzzy.Distance.Alignment.{Align}
use address_quality.Fuzzy.Distance.Laws.{
  damerau_levenshtein-IsLeast, damerau_levenshtein_comm, damerau_similarity_range,
}
use address_quality.Queue.{
  new, execute_all, run, shutdown_result, act, close, submit, receive, all_exited,
}
use address_quality.Queue.Counted.{count, in_flight, execute_all-count}
use address_quality.Queue.Shutdown.{execute_all-bounded, shutdown-drained, run-remaining, remaining}

evaluate_candidate-valid_iff_example :
    ((evaluate_candidate in_order full (some west_java) []).status ≡ QualityStatus.valid)
    ↔ IsConsistent west_java full
evaluate_candidate-valid_iff_example = evaluate_candidate-valid_iff in_order west_java full []

evaluate_candidate-order_example :
    evaluate_candidate in_order full (some west_java) (word "dago" ∷ [])
    ≡ evaluate_candidate swapped full (some west_java) (word "dago" ∷ [])
evaluate_candidate-order_example =
    evaluate_candidate-order in_order swapped full (some west_java) (word "dago" ∷ [])

load_all-IsWellKeyed_example : IsWellKeyed caches
load_all-IsWellKeyed_example =
    load_all-IsWellKeyed (some province_rows) (some city_rows) (some district_rows)
      (some sub_district_rows) (some west_java)

enrich-IsNested_example :
    IsNested west_java (enrich caches west_java (build_from_subdistrict dago).location)
unfolding build_from_subdistrict
enrich-IsNested_example =
    enrich-IsNested caches west_java
      (load_all-IsWellKeyed (some province_rows) (some city_rows) (some district_rows)
        (some sub_district_rows) (some west_java))
      (build_from_subdistrict dago).location
      (record { clean = refl; no_postal_code = refl; one_level = refl })

transposed : damerau_levenshtein (99 ∷ 105 ∷ []) (105 ∷ 99 ∷ []) ≡ 1
unfolding damerau_levenshtein rows fill cell first_row substitution_cost
transposed = refl

damerau_levenshtein_comm_example :
    damerau_levenshtein (99 ∷ 105 ∷ []) (105 ∷ []) ≡ damerau_levenshtein (105 ∷ []) (99 ∷ 105 ∷ [])
damerau_levenshtein_comm_example = damerau_levenshtein_comm (99 ∷ 105 ∷ []) (105 ∷ [])

execute_all-count_example :
    count (λ j. j == 5) (execute_all two_jobs (new 2 1)).accepted
    ≡ count (λ j. j == 5) (execute_all two_jobs (new 2 1)).finished
      + in_flight (λ j. j == 5) (execute_all two_jobs (new 2 1)).workers
      + count (λ j. j == 5) (execute_all two_jobs (new 2 1)).jobs
execute_all-count_example = execute_all-count (λ j. j == 5) 2 1 two_jobs

damerau_levenshtein-IsLeast_example :
    Align (99 ∷ 105 ∷ []) (105 ∷ 99 ∷ []) 2 2 (damerau_levenshtein (99 ∷ 105 ∷ []) (105 ∷ 99 ∷ []))
    × ((n : ℕ)
        → Align (99 ∷ 105 ∷ []) (105 ∷ 99 ∷ []) 2 2 n
        → damerau_levenshtein (99 ∷ 105 ∷ []) (105 ∷ 99 ∷ []) ≤ n)
damerau_levenshtein-IsLeast_example = damerau_levenshtein-IsLeast (99 ∷ 105 ∷ []) (105 ∷ 99 ∷ [])

damerau_similarity_range_example :
    ((damerau_similarity (99 ∷ 105 ∷ []) (105 ∷ [])).num
      ≤ (damerau_similarity (99 ∷ 105 ∷ []) (105 ∷ [])).den)
    × (0 < (damerau_similarity (99 ∷ 105 ∷ []) (105 ∷ [])).den)
    × (((damerau_similarity (99 ∷ 105 ∷ []) (105 ∷ [])).num
          ≡ (damerau_similarity (99 ∷ 105 ∷ []) (105 ∷ [])).den)
        ↔ ◌≡◌ {A = List ℕ} (99 ∷ 105 ∷ []) (105 ∷ []))
damerau_similarity_range_example = damerau_similarity_range (99 ∷ 105 ∷ []) (105 ∷ [])

execute_all-bounded_example :
    (length (execute_all two_jobs (new 2 1)).jobs ≤ (execute_all two_jobs (new 2 1)).size)
    × (1 ≤ (execute_all two_jobs (new 2 1)).size)
execute_all-bounded_example = execute_all-bounded 2 1 two_jobs

shutdown-drained_example :
    ((execute_all two_jobs (new 2 1)).closed ≡ true)
    × ((execute_all two_jobs (new 2 1)).jobs ≡ [])
    × (count (λ j. j == 5) (execute_all two_jobs (new 2 1)).finished
        ≡ count (λ j. j == 5) (execute_all two_jobs (new 2 1)).accepted)
unfolding shutdown_result execute_all act submit close run receive new all_exited
shutdown-drained_example = shutdown-drained (λ j. j == 5) 2 1 two_jobs false false refl

run-remaining_example :
    remaining (run 0 (close (new {T = ℕ} 2 1))) + 1 ≡ remaining (close (new {T = ℕ} 2 1))
unfolding close new
run-remaining_example = run-remaining 0 (close (new 2 1)) refl refl

evaluate_candidates-Pairwise_example :
    Perm
      (evaluate_candidates in_order insertion caches (full ∷ full ∷ []) (word "dago" ∷ []))
      (map (score in_order caches (word "dago" ∷ [])) (full ∷ full ∷ []))
    × Pairwise StandsBefore
        (evaluate_candidates in_order insertion caches (full ∷ full ∷ []) (word "dago" ∷ []))
evaluate_candidates-Pairwise_example =
    evaluate_candidates-Pairwise in_order insertion caches (full ∷ full ∷ []) (word "dago" ∷ [])

deduplicate_candidates-keys_example :
    (all_distinct (keys (deduplicate_candidates in_order (full ∷ full ∷ []))) ≡ true)
    × ((k : String)
        → contains (keys (deduplicate_candidates in_order (full ∷ full ∷ []))) k
          ≡ contains (keys (full ∷ full ∷ [])) k)
deduplicate_candidates-keys_example = deduplicate_candidates-keys in_order (full ∷ full ∷ [])
