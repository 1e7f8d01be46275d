-- ===== src/Database/Valid/Truncate.antt =====
-- The deletions of `TruncateAll`, in the order in which they come: the hierarchy goes before the codes.
use address_quality.Prelude.{none, some, [], ◌≡◌, refl, inl, inr, ◌⊎◌, subst, sym}
use address_quality.Database.{LocationDb, Query, Conn, ◌>>=◌, ◌>>◌, exec}
use address_quality.Database.Does.{exec-Does, exec-IsAtomic}
use address_quality.Database.Keeps.{Keeps}
use address_quality.Database.Sources.{
  truncate_all, delete_hierarchy, delete_alias, delete_codes, delete_sources, delete_sequences,
}
use address_quality.Database.Valid.{IsValid}

-- From P the method fails with V or returns with R.
abbrev Ensures : (P V R : LocationDb → Type 0) → Query (Unit {0}) → Type 0
Ensures P V R m =
    (c : Conn) → P c.db → (((m c).0 ≡ none) × V (m c).1.db) ⊎ (((m c).0 ≡ some tt) × R (m c).1.db)

then-Ensures :
    (P V R S : LocationDb → Type 0) (m k : Query (Unit {0}))
    → Ensures P V R m
    → Ensures R V S k
    → Ensures P V S (m >> k)
then-Ensures P V R S m k hm hk c p = elim (hm c p) [
  | inl (failed, v) ↦ inl (rw (◌>>=◌, failed) (refl, v))
  | inr (returned, r) ↦ rw (◌>>=◌, returned) (hk (m c).1 r)
]

exec-Ensures :
    (P V R : LocationDb → Type 0) (f : LocationDb → LocationDb)
    → ((d : LocationDb) → P d → V d)
    → ((d : LocationDb) → P d → R (f d))
    → Ensures P V R (exec f)
exec-Ensures P V R f fails works c p = elim (exec-Does f c) [
  | inl (failed, fault) ↦ inl (failed, subst V (sym (exec-IsAtomic f c failed)) (fails c.db p))
  | inr (returned, left, clean) ↦ inr (returned, subst R (sym left) (works c.db p))
]

-- Without entries of the hierarchy, and without codes.
abbrev NoEntries : LocationDb → Type 0
NoEntries d = IsValid d × (d.location_hierarchy ≡ [])

abbrev NoCodes : LocationDb → Type 0
NoCodes d = IsValid d × (d.location_hierarchy ≡ []) × (d.location_codes ≡ [])

delete_hierarchy-IsValid : (d : LocationDb) → IsValid d → NoEntries (delete_hierarchy d)
unfolding delete_hierarchy
delete_hierarchy-IsValid d v = (
  record {
    versions = v.versions;
    ids = v.ids;
    next = v.next;
    kodes = v.kodes;
    subdistricts = tt;
    hierarchy = tt;
    priorities = v.priorities;
  },
  refl,
)

delete_alias-IsValid : (d : LocationDb) → NoEntries d → NoEntries (delete_alias d)
unfolding delete_alias
delete_alias-IsValid d (v, none_left) = (
  record {
    versions = v.versions;
    ids = v.ids;
    next = v.next;
    kodes = v.kodes;
    subdistricts = v.subdistricts;
    hierarchy = v.hierarchy;
    priorities = v.priorities;
  },
  none_left,
)

delete_codes-IsValid : (d : LocationDb) → NoEntries d → NoCodes (delete_codes d)
unfolding delete_codes
delete_codes-IsValid d (v, none_left) = (
  record {
    versions = v.versions;
    ids = tt;
    next = tt;
    kodes = tt;
    subdistricts = v.subdistricts;
    hierarchy = rw none_left tt;
    priorities = v.priorities;
  },
  none_left,
  refl,
)

delete_sources-IsValid : (d : LocationDb) → NoCodes d → NoCodes (delete_sources d)
unfolding delete_sources
delete_sources-IsValid d (v, none_left, no_codes) = (
  record {
    versions = tt;
    ids = v.ids;
    next = v.next;
    kodes = v.kodes;
    subdistricts = v.subdistricts;
    hierarchy = v.hierarchy;
    priorities = v.priorities;
  },
  none_left,
  no_codes,
)

delete_sequences-IsValid : (d : LocationDb) → NoCodes d → IsValid (delete_sequences d)
unfolding delete_sequences
delete_sequences-IsValid d (v, none_left, no_codes) = record {
  versions = v.versions;
  ids = v.ids;
  next = rw no_codes tt;
  kodes = v.kodes;
  subdistricts = v.subdistricts;
  hierarchy = v.hierarchy;
  priorities = v.priorities;
}

truncate_all-Ensures : Ensures IsValid IsValid IsValid truncate_all
unfolding truncate_all
truncate_all-Ensures =
    then-Ensures IsValid IsValid NoCodes IsValid
      (exec delete_hierarchy >> exec delete_alias >> exec delete_codes >> exec delete_sources)
      (exec delete_sequences)
      (then-Ensures IsValid IsValid NoCodes NoCodes
        (exec delete_hierarchy >> exec delete_alias >> exec delete_codes) (exec delete_sources)
        (then-Ensures IsValid IsValid NoEntries NoCodes (exec delete_hierarchy >> exec delete_alias)
          (exec delete_codes)
          (then-Ensures IsValid IsValid NoEntries NoEntries (exec delete_hierarchy)
            (exec delete_alias)
            (exec-Ensures IsValid IsValid NoEntries delete_hierarchy (λ d v. v)
              delete_hierarchy-IsValid)
            (exec-Ensures NoEntries IsValid NoEntries delete_alias (λ d v. v.0)
              delete_alias-IsValid))
          (exec-Ensures NoEntries IsValid NoCodes delete_codes (λ d v. v.0) delete_codes-IsValid))
        (exec-Ensures NoCodes IsValid NoCodes delete_sources (λ d v. v.0) delete_sources-IsValid))
      (exec-Ensures NoCodes IsValid IsValid delete_sequences (λ d v. v.0) delete_sequences-IsValid)

pub truncate_all-Keeps : Keeps IsValid truncate_all
truncate_all-Keeps c v = elim (truncate_all-Ensures c v) [
  | inl (failed, w) ↦ w
  | inr (returned, w) ↦ w
]
