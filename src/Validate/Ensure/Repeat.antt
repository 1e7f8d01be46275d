-- ===== src/Validate/Ensure/Repeat.antt =====
-- What the once-guards do when they have run before.
use address_quality.Prelude.{
  ℕ, Bool, true, false, Option, none, some, List, [], ◌∷◌, ◌≡◌, beq_self, Bool-cases, Option-cases,
  nat_eq, ◌==◌, inr, inl, beq→eq, refl,
}
use address_quality.GoMap.{RangeOrder, lookup}
use address_quality.Database.{Conn}
use address_quality.Validate.Ensure.{
  Guard, index, Service, load_guard, settle, ensure, ensure_each, ensure_entities_caches_loaded,
}

module _ (order : RangeOrder) where
  ensure-done :
      (source_id : ℕ) (g : Guard) (s : Service) (c : Conn) (ok : Bool)
      → lookup (index g) s.done ≡ some ok
      → ensure order source_id g s c ≡ (ok, s, c)
  unfolding ensure
  ensure-done source_id g s c ok h = rw (ensure, h) refl

  ensure-sets :
      (source_id : ℕ) (g : Guard) (s : Service) (c : Conn)
      → lookup (index g) (ensure order source_id g s c).1.done
        ≡ some (ensure order source_id g s c).0
  unfolding ensure settle lookup
  ensure-sets source_id g s c = elim (Option-cases (lookup (index g) s.done)) [
    | inr (ok, there) ↦ rw (ensure, there) there
    | inl new ↦ rw (ensure, new) (settled (load_guard order source_id g s c))
  ]
    where
      settled :
          (r : Option Service × Conn)
          → lookup (index g) (settle order source_id g s r).1.done
            ≡ some (settle order source_id g s r).0
      settled (none, c') = rw (beq_self (index g)) refl
      settled (some t, c') = rw (beq_self (index g)) refl

  lookup-other :
      (i k : ℕ) (ok b : Bool) (done : List (ℕ × Bool))
      → lookup i done ≡ none
      → lookup k done ≡ some b
      → lookup k ((i, ok) ∷ done) ≡ some b
  unfolding lookup
  lookup-other i k ok b done new h = elim (Bool-cases (i == k)) [
    | inl same ↦ cc (beq→eq i k same, new, h)
    | inr other ↦ rw other h
  ]

  -- A guard that has run stays as it is.
  ensure-keeps :
      (source_id k : ℕ) (b : Bool) (g : Guard) (s : Service) (c : Conn)
      → lookup k s.done ≡ some b
      → lookup k (ensure order source_id g s c).1.done ≡ some b
  unfolding ensure settle
  ensure-keeps source_id k b g s c h = elim (Option-cases (lookup (index g) s.done)) [
    | inr (ok, there) ↦ rw (ensure, there) h
    | inl new ↦ rw (ensure, new) (settled new (load_guard order source_id g s c))
  ]
    where
      settled :
          lookup (index g) s.done ≡ none
          → (r : Option Service × Conn) → lookup k (settle order source_id g s r).1.done ≡ some b
      settled new (none, c') = lookup-other (index g) k false b s.done new h
      settled new (some t, c') = lookup-other (index g) k true b s.done new h

  ensure_each-keeps :
      (source_id k : ℕ) (b : Bool) (gs : List Guard) (s : Service) (c : Conn)
      → lookup k s.done ≡ some b
      → lookup k (ensure_each order source_id gs s c).1.done ≡ some b
  unfolding ensure_each
  ensure_each-keeps source_id k b [] s c h = h
  ensure_each-keeps source_id k b (g ∷ gs) s c h =
      let first = ensure order source_id g s c in
      let kept = ensure-keeps source_id k b g s c h in
      elim (Bool-cases first.0) [
        | inr fails ↦ rw (ensure_each, fails) kept
        | inl works ↦
            rw (ensure_each, works) (ensure_each-keeps source_id k b gs first.1 first.2 kept)
      ]

  ensure_each-repeat :
      (source_id source_id' : ℕ) (gs : List Guard) (s : Service) (c c' : Conn)
      → ensure_each order source_id' gs (ensure_each order source_id gs s c).1 c'
        ≡ ((ensure_each order source_id gs s c).0, (ensure_each order source_id gs s c).1, c')
  unfolding ensure_each
  ensure_each-repeat source_id source_id' [] s c c' = refl
  ensure_each-repeat source_id source_id' (g ∷ gs) s c c' =
      let first = ensure order source_id g s c in
      let set = ensure-sets source_id g s c in
      elim (Bool-cases first.0) [
        | inr fails ↦
            rw (ensure_each, fails)
              (rw (ensure_each, ensure-done source_id' g first.1 c' false (rw fails at set)) refl)
        | inl works ↦
            let later = ensure_each order source_id gs first.1 first.2 in
            let kept : lookup (index g) later.1.done ≡ some true =
              ensure_each-keeps source_id (index g) true gs first.1 first.2 (rw works at set) in
            rw (ensure_each, works)
              (rw (ensure_each, ensure-done source_id' g later.1 c' true kept)
                (ensure_each-repeat source_id source_id' gs first.1 first.2 c'))
      ]

  -- What the first loading of the caches left is left for good: after it, a loading for any source
  -- and over any connection returns an error exactly if the first did, asks the database nothing and
  -- changes nothing.
  pub ensure_entities_caches_loaded-repeat :
      (source_id source_id' : ℕ) (s : Service) (c c' : Conn)
      → ensure_entities_caches_loaded order source_id'
          (ensure_entities_caches_loaded order source_id s c).1
          c'
        ≡ (
          (ensure_entities_caches_loaded order source_id s c).0,
          (ensure_entities_caches_loaded order source_id s c).1,
          c',
        )
  unfolding ensure_entities_caches_loaded
  ensure_entities_caches_loaded-repeat source_id source_id' s c c' =
      ensure_each-repeat source_id source_id'
        (Guard.provinces ∷ Guard.cities ∷ Guard.districts ∷ Guard.sub_districts ∷ Guard.hierarchy
          ∷ Guard.city_priority ∷ [])
        s c c'
