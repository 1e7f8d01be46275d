-- ===== src/Lib.antt =====
-- A verification library for address-quality, a service that resolves free-text Indonesian
-- addresses into administrative locations.
--
-- A request goes through these parts, each of which has a module here:
--   Normalizer (internal/normalizer/normalizer.go): `normalize` of a raw text. Text holds the
--     functions of Go's `strings` and `unicode` that the source calls.
--   Resolve (internal/service/resolve.go, internal/service/validate_helper.go): the entities of each
--     piece of evidence. Resolve/Phrases is the phrase dictionary and the search for the longest
--     phrase, Resolve/Phrases/Compact the fallback without spaces and `resolve_evidence`.
--   Cache (internal/service/validate_helper.go, internal/service/service.go): the entity caches and
--     how they are loaded from rows.
--   Builder, Dedup, Enrich (the files of internal/service of those names): a candidate for each
--     entity, the merging of candidates with one key, and the levels above a candidate's own.
--   Evaluate (internal/service/evaluate.go): conflicts (Evaluate/Conflicts), score (Evaluate/Score),
--     status and reasons.
--   Pipeline (internal/service/validate_v1.go): `build_candidates` composes discovery,
--     deduplication, enrichment and conclusions, `evaluate_candidates` ranks.
--   Fuzzy (internal/service/fuzzy_context.go): the second pass, which matches words that are not
--     explained against the neighborhood of trusted candidates. Fuzzy/Distance is the edit distance,
--     Fuzzy/Recover the pass.
--   Evidence (internal/service/evidence.go): the postal code and the words of a normalized text.
--   Validate (internal/service/validate_v1.go, internal/service/validate_helper.go): the whole of a
--     validation, with the lookup by postal code and the data of the response. Validate/Ensure is the
--     loading of the caches behind their once-guards, Validate/Float the comparison of confidences.
--   Queue (internal/queue/queue.go): the worker pool that stores requests.
--   Geocode (internal/service/geocode.go, internal/database/google_maps.go): the other kind of
--     request, answered from a cache in front of an external service.
--   Database (internal/database/location.go, db/location.sql): the tables that the caches are loaded
--     from, their queries, the methods that write (Database/Methods lists them) and the rebuilds.
--     Database/Valid is what makes a database well-formed, Database/Does how methods are composed.
--     Database/Dialect (internal/database/dialect.go) is what a SQL text goes through on its way to
--     the driver.
--   Seeder (cmd/seeder/main.go): the rows of the dumps that fill the database. Seeder/Tuple reads
--     a line, Seeder/Stored is the sequence of calls that stores the rows.
-- Model has the types of internal/model/model.go; Prelude, GoMap, Sort and Itoa are shared. Tests
-- holds concrete runs.
--
-- How the code is modelled. Function names are the source's in snake case. A function that writes
-- through a pointer returns the new value. Row ids are natural numbers, since the databases
-- generate them, and 0 is the value of a missing map entry. Scores are counted in ten-thousandths,
-- the unit that the code rounds to, and ratios that the code holds in a float64 are fractions; the
-- comparison of a coverage with another less 0.05 is exact here and may be off by one rounding in
-- the code. The comparison of two confidences with 0.1 is that of the float64 numbers
-- (Validate/Float), whose search for an exponent has fuel for any int64. A map is an association
-- list, and the order in which a `range` visits it is a parameter (GoMap.RangeOrder), of which
-- only is known that it visits each entry once. `sort.Slice`, which is not stable, is a parameter
-- in the same way (Sort.SliceSort), and so is `uuid.NewV7`. Nil pointers, nil slices and failed
-- queries are `none`, and so is the panic of the postal lookup on an empty group. In Cache
-- `load_all` is the first loading of the entity caches, without the city priority, whose map is
-- another. In Cache the rows are what the SQL queries return, in Database a SQL statement is what
-- its text says of the rows of the tables, the order of a SELECT without ORDER BY being open like
-- that of a `range`. A connection holds, beside the tables, which of the driver's next calls fail;
-- a deferred Rollback puts the tables back. The hash of a geocoding request, the JSON decoders and
-- the answers of the external service are parameters.
--
-- Loops are structural, but for those over chunks, whose fuel is the number of rows, and three
-- that consume words (`match_from`, `compact_match_from` and `recover_run`): their fuel is the
-- number of words, and each round takes one at least. An execution of the queue is a list of
-- actions: a submission, the close of `Shutdown`, or the next move of a worker, in the order in
-- which they take effect. A handler that panics ends like one that returns, since `execute`
-- recovers.
--
-- Not modelled: the expressions of internal/service/evidence.go that find the road words of the
-- raw text (their results are given to Validate, as is the phrase dictionary), the record that the
-- store queue takes, dropping and creating tables and the copy to Postgres, the trigram search,
-- the flags of the seeder, the HTTP layer, configuration, logging, telemetry, the sanitizer (a
-- call of a third-party policy) and cmd/server.
pub mod Prelude
pub mod GoMap
pub mod Model
pub mod Text
pub mod Normalizer
pub mod Itoa
pub mod Cache
pub mod Sort
pub mod Dedup
pub mod Builder
pub mod Enrich
pub mod Evaluate
pub mod Pipeline
pub mod Queue
pub mod Resolve
pub mod Chunks
pub mod Seeder
pub mod Database
pub mod Geocode
pub mod Evidence
pub mod Validate
pub mod Fuzzy
pub mod Tests
