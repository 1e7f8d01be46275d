-- ===== src/Seeder/Stored/Returns.antt =====
-- A run of the seeder in which no call of the driver fails.
use address_quality.Prelude.{nat_eq, string_eq, List, String, ◌==◌, ◌&&◌, Bool, any, is_some, not}
use address_quality.Database.{SourceRow}
use address_quality.Database.Returns.{Returns}
use address_quality.Database.Does.{Does}

-- The code and the version are there, and only soft-deleted.
abbrev pub is_source : String → String → SourceRow → Bool
is_source code version r = r.code == code && r.version == version

abbrev pub is_retired : String → String → List SourceRow → Bool
is_retired code version rows =
    any (is_source code version) rows
    && not (any (λ r. is_source code version r && not (is_some r.deleted_at)) rows)

abbrev is_live : String → String → SourceRow → Bool
is_live code version r = is_source code version r && not (is_some r.deleted_at)
