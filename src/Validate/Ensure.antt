-- ===== src/Validate/Ensure.antt =====
-- The loading of the caches behind their once-guards: the ensure functions of
-- internal/service/validate_helper.go, and ensureEntitiesCachesLoaded of internal/service/resolve.go.
pub mod Repeat
pub mod Clean
use mathlib.Core.List.{foldl}
use address_quality.Prelude.{
  ℕ, Bool, true, false, Option, none, some, List, [], ◌∷◌, String, if◌then◌else◌, nat_eq, string_eq,
}
use address_quality.GoMap.{RangeOrder, lookup, insert}
use address_quality.Cache.{
  Caches, load_provinces, load_cities, load_districts, load_sub_districts, load_hierarchy,
}
use address_quality.Database.{Conn, Query, ◌>>=◌, pure}
use address_quality.Database.Codes.{
  find_all_provinces, find_all_cities, find_all_districts, find_all_sub_districts,
}
use address_quality.Database.Hierarchy.{load_full_hierarchy}
use address_quality.Database.Priority.{find_all_city_priority}

-- The caches with a sync.Once.
pub data Guard : Type 0 where
  provinces cities districts sub_districts hierarchy city_priority : Guard

abbrev pub index : Guard → ℕ
index provinces = 0
index cities = 1
index districts = 2
index sub_districts = 3
index hierarchy = 4
index city_priority = 5

-- The caches of the service, and the guards that have run, each with whether it left no error.
pub record Service : Type 0 where
  pub caches : Caches
  pub city_priority_set : List (String × String)
  pub done : List (ℕ × Bool)

-- set[r.LowercaseNormalized] = r.CityType
abbrev pub priority_rows : List (String × String) → List (String × String)
priority_rows = foldl (λ set (r : String × String). insert r.0 r.1 set) []

module _ (order : RangeOrder) (source_id : ℕ) where
  -- The function that a guard calls.
  unfoldable pub load_guard : Guard → Service → Query Service
  load_guard provinces s = do
    rows ← find_all_provinces order
    pure (record s { caches = load_provinces (some rows) s.caches })
  load_guard cities s = do
    rows ← find_all_cities order
    pure (record s { caches = load_cities (some rows) s.caches })
  load_guard districts s = do
    rows ← find_all_districts order source_id
    pure (record s { caches = load_districts (some rows) s.caches })
  load_guard sub_districts s = do
    rows ← find_all_sub_districts order source_id
    pure (record s { caches = load_sub_districts (some rows) s.caches })
  load_guard hierarchy s = do
    h ← load_full_hierarchy order source_id
    pure (record s { caches = load_hierarchy (some h) s.caches })
  load_guard city_priority s = do
    rows ← find_all_city_priority order source_id
    pure (record s { city_priority_set = priority_rows rows })

  -- What a guard leaves after its function has run.
  unfoldable pub settle : Guard → Service → Option Service × Conn → Bool × Service × Conn
  settle g s (none, c) = (false, record s { done = (index g, false) ∷ s.done }, c)
  settle g s (some loaded, c) = (true, record loaded { done = (index g, true) ∷ s.done }, c)

  -- One ensure function: whether it returns no error.
  unfoldable pub ensure : Guard → Service → Conn → Bool × Service × Conn
  ensure g s c = elim (lookup (index g) s.done) [
    | some ok ↦ (ok, s, c)
    | none ↦ settle g s (load_guard g s c)
  ]

  unfoldable pub ensure_each : List Guard → Service → Conn → Bool × Service × Conn
  ensure_each [] s c = (true, s, c)
  ensure_each (g ∷ gs) s c =
      let (ok, s', c') = ensure g s c in
      let rest = ensure_each gs s' c' in if ok then rest else (false, s', c')

  unfoldable pub ensure_entities_caches_loaded : Service → Conn → Bool × Service × Conn
  ensure_entities_caches_loaded =
      ensure_each (provinces ∷ cities ∷ districts ∷ sub_districts ∷ hierarchy ∷ city_priority ∷ [])
