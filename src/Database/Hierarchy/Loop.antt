-- ===== src/Database/Hierarchy/Loop.antt =====
-- The rows that `RebuildLocationHierarchy` inserts, and in how many statements.
use mathlib.Core.List.{foldl, foldl-append}
use address_quality.Prelude.{
  nat_eq, string_eq, none, some, [], ◌∷◌, refl, List, ℕ, String, ◌++◌, append-nil, Option-cases,
  inl, inr, append_assoc, Bool-cases, leb, length, sym,
}
use address_quality.GoMap.{RangeOrder}
use address_quality.Database.{LocationDb, ◌>>=◌, query, transaction}
use address_quality.Database.Does.{
  Does, Does-ext, bind-Does, pure-Does, exec-Does, query-Does, transaction-Does, IsAtomic,
  bind-IsAtomic, query-IsRead, transaction-IsAtomic,
}
use address_quality.Database.Hierarchy.{
  HierarchyInsert, hierarchy_of, insert_entry, flush, insert_loop, hchunk, kode_map, parent_rows,
  sub_rows, rebuild_location_hierarchy,
}

-- The rows for the sub-districts whose parents are there, without the batching.
unfoldable pub inserts : List (String × ℕ) → List (ℕ × String) → List HierarchyInsert
inserts kode_to_id [] = []
inserts kode_to_id (s ∷ subs) = elim (hierarchy_of kode_to_id s) [
  | none ↦ inserts kode_to_id subs
  | some h ↦ h ∷ inserts kode_to_id subs
]

-- What the whole rebuild writes.
unfoldable pub rebuilt : RangeOrder → ℕ → LocationDb → LocationDb
rebuilt order source_id d = foldl (insert_entry source_id) d (
    inserts (kode_map (order.visit _ (parent_rows source_id d)))
      (order.visit _ (sub_rows source_id d)))

flush-Does :
    (source_id : ℕ) (pending : List HierarchyInsert)
    → Does (flush source_id pending) (λ d. tt) (λ d. foldl (insert_entry source_id) d pending)
unfolding flush
flush-Does source_id [] = pure-Does tt
flush-Does source_id (h ∷ pending) = exec-Does (λ d. foldl (insert_entry source_id) d (h ∷ pending))

insert_loop-Does :
    (size source_id : ℕ) (kode_to_id : List (String × ℕ)) (pending : List HierarchyInsert)
    (subs : List (ℕ × String))
    → Does
        (insert_loop size source_id kode_to_id pending subs)
        (λ d. tt)
        (λ d. foldl (insert_entry source_id) d (pending ++ inserts kode_to_id subs))
unfolding insert_loop inserts
insert_loop-Does size source_id kode_to_id pending [] =
    rw (append-nil pending) (flush-Does source_id pending)
insert_loop-Does size source_id kode_to_id pending (s ∷ subs) =
    elim (Option-cases (hierarchy_of kode_to_id s)) [
      | inl skipped ↦
          rw (insert_loop, inserts, skipped)
            (insert_loop-Does size source_id kode_to_id pending subs)
      | inr (h, found) ↦
          rw
            (insert_loop, inserts, found, ← append_assoc pending (h ∷ []) (inserts kode_to_id subs))
            (elim (Bool-cases (leb size (length (pending ++ h ∷ [])))) [
              | inl full ↦ rw full (
                  Does-ext _ _ _ _ _
                    (bind-Does (flush source_id (pending ++ h ∷ []))
                      (λ a. insert_loop size source_id kode_to_id [] subs) (λ d. tt) _ (λ a d. tt)
                      (λ a. _) (flush-Does source_id (pending ++ h ∷ []))
                      (λ a. insert_loop-Does size source_id kode_to_id [] subs))
                    (λ d. refl)
                    (λ d. sym (
                      foldl-append (insert_entry source_id) d (pending ++ h ∷ [])
                        (inserts kode_to_id subs))))
              | inr room ↦
                  rw room (insert_loop-Does size source_id kode_to_id (pending ++ h ∷ []) subs)
            ])
    ]

pub rebuild_location_hierarchy-Does :
    (order : RangeOrder) (source_id : ℕ)
    → Does (rebuild_location_hierarchy order source_id) (λ d. tt) (rebuilt order source_id)
unfolding rebuild_location_hierarchy rebuilt
rebuild_location_hierarchy-Does order source_id =
    bind-Does (query order (parent_rows source_id)) _ _ (λ d. d) (λ p d. tt)
      (λ p d.
        foldl (insert_entry source_id) d
          (inserts (kode_map p) (order.visit _ (sub_rows source_id d))))
      (query-Does order (parent_rows source_id))
      (λ p.
        bind-Does (query order (sub_rows source_id)) _ _ (λ d. d) (λ s d. tt)
          (λ s d. foldl (insert_entry source_id) d (inserts (kode_map p) s))
          (query-Does order (sub_rows source_id))
          (λ s. transaction-Does _ _ _ (insert_loop-Does hchunk source_id (kode_map p) [] s)))

pub rebuild_location_hierarchy-IsAtomic :
    (order : RangeOrder) (source_id : ℕ) → IsAtomic (rebuild_location_hierarchy order source_id)
unfolding rebuild_location_hierarchy
rebuild_location_hierarchy-IsAtomic order source_id =
    bind-IsAtomic (query order (parent_rows source_id))
      (λ p. query order (sub_rows source_id) >>= λ s.
        transaction (insert_loop hchunk source_id (kode_map p) [] s))
      (query-IsRead order (parent_rows source_id))
      (λ p.
        bind-IsAtomic (query order (sub_rows source_id))
          (λ s. transaction (insert_loop hchunk source_id (kode_map p) [] s))
          (query-IsRead order (sub_rows source_id))
          (λ s. transaction-IsAtomic (insert_loop hchunk source_id (kode_map p) [] s)))
