-- ===== src/Validate/Ensure/Clean.antt =====
-- The loading of the caches when no call of the driver fails.
use address_quality.Prelude.{
  ℕ, Bool, true, false, Option, none, some, List, [], ◌∷◌, Bool-cases, not, any, ◌≡◌, refl, ◌==◌,
  Option-cases, inl, inr, some-eq, arith, string_eq, nat_eq,
}
use address_quality.GoMap.{RangeOrder, lookup}
use address_quality.Cache.{
  load_provinces, load_cities, load_districts, load_sub_districts, load_hierarchy,
}
use address_quality.Database.{Query, Conn, ◌>>=◌, pure}
use address_quality.Database.Does.{query-Does}
use address_quality.Database.Codes.{
  find_all_provinces, find_all_cities, find_all_districts, find_all_sub_districts,
}
use address_quality.Database.Hierarchy.{load_full_hierarchy}
use address_quality.Database.Hierarchy.Load.{load_full_hierarchy-Does}
use address_quality.Database.Priority.{find_all_city_priority}
use address_quality.Database.Returns.{Returns, bind-Returns, pure-Returns, Does-Returns}
use address_quality.Validate.Ensure.{
  priority_rows, Guard, provinces, cities, districts, sub_districts, hierarchy, city_priority,
  index, Service, load_guard, settle, ensure, ensure_each,
}

map-Returns : {A B : Type 0} (m : Query A) (f : A → B) → Returns m → Returns (m >>= λ a. pure (f a))
map-Returns m f h = bind-Returns m (λ a. pure (f a)) h (λ a. pure-Returns (f a))

module _ (order : RangeOrder) (source_id : ℕ) where
  load_guard-Returns : (g : Guard) (s : Service) → Returns (load_guard order source_id g s)
  unfolding load_guard find_all_provinces find_all_cities find_all_districts find_all_sub_districts
      find_all_city_priority
  load_guard-Returns provinces s =
      map-Returns (find_all_provinces order)
        (λ rows. record s { caches = load_provinces (some rows) s.caches })
        (Does-Returns _ _ _ (query-Does order _))
  load_guard-Returns cities s =
      map-Returns (find_all_cities order)
        (λ rows. record s { caches = load_cities (some rows) s.caches })
        (Does-Returns _ _ _ (query-Does order _))
  load_guard-Returns districts s =
      map-Returns (find_all_districts order source_id)
        (λ rows. record s { caches = load_districts (some rows) s.caches })
        (Does-Returns _ _ _ (query-Does order _))
  load_guard-Returns sub_districts s =
      map-Returns (find_all_sub_districts order source_id)
        (λ rows. record s { caches = load_sub_districts (some rows) s.caches })
        (Does-Returns _ _ _ (query-Does order _))
  load_guard-Returns hierarchy s =
      map-Returns (load_full_hierarchy order source_id)
        (λ h. record s { caches = load_hierarchy (some h) s.caches })
        (Does-Returns _ _ _ (load_full_hierarchy-Does order source_id))
  load_guard-Returns city_priority s =
      map-Returns (find_all_city_priority order source_id)
        (λ rows. record s { city_priority_set = priority_rows rows })
        (Does-Returns _ _ _ (query-Does order _))

-- No loading has left an error.
abbrev pub is_clean : Service → Bool
is_clean s = not (any (λ (d : ℕ × Bool). not d.1) s.done)

lookup-clean :
    (k : ℕ) (ok : Bool) (done : List (ℕ × Bool))
    → any (λ (d : ℕ × Bool). not d.1) done ≡ false
    → lookup k done ≡ some ok
    → ok ≡ true
unfolding lookup
lookup-clean k ok [] h found = cc
lookup-clean k ok ((i, b) ∷ done) h found = elim (Bool-cases (i == k)) [
  | inl same ↦ let e = some-eq _ _ (rw same at found) in ground (arith, h, e)
  | inr other ↦ lookup-clean k ok done (ground (arith, h)) (rw other at found)
]

module _ (order : RangeOrder) (source_id : ℕ) where
  ensure-clean :
      (g : Guard) (s : Service) (c : Conn)
      → is_clean s ≡ true
      → c.faults ≡ []
      → ((ensure order source_id g s c).0 ≡ true)
        × (is_clean (ensure order source_id g s c).1 ≡ true)
        × ((ensure order source_id g s c).2.faults ≡ [])
  unfolding ensure settle
  ensure-clean g s c h clean = elim (Option-cases (lookup (index g) s.done)) [
    | inr (ok, there) ↦
        rw (ensure, there) (lookup-clean (index g) ok s.done (ground (arith, h)) there, h, clean)
    | inl new ↦
        let (t, returned, still) = load_guard-Returns order source_id g s c clean in
        rw (ensure, new) (settled (load_guard order source_id g s c) t returned still)
  ]
    where
      settled :
          (r : Option Service × Conn) (t : Service)
          → r.0 ≡ some t
          → r.1.faults ≡ []
          → ((settle order source_id g s r).0 ≡ true)
            × (is_clean (settle order source_id g s r).1 ≡ true)
            × ((settle order source_id g s r).2.faults ≡ [])
      settled (none, c') t e f = cc
      settled (some u, c') t e f = (refl, h, f)

  pub ensure_each-clean :
      (gs : List Guard) (s : Service) (c : Conn)
      → is_clean s ≡ true
      → c.faults ≡ []
      → ((ensure_each order source_id gs s c).0 ≡ true)
        × ((ensure_each order source_id gs s c).2.faults ≡ [])
  unfolding ensure_each
  ensure_each-clean [] s c h clean = (refl, clean)
  ensure_each-clean (g ∷ gs) s c h clean =
      let first = ensure order source_id g s c in
      let (works, kept, still) = ensure-clean g s c h clean in
      rw (ensure_each, works) (ensure_each-clean gs first.1 first.2 kept still)
