-- ===== src/Database/Normalized/Current.antt =====
-- The column lowercase_normalized after it has been computed anew.
use mathlib.Core.List.{foldl, Memᴰ}
use address_quality.Prelude.{
  nat_eq, string_eq, some, inl, inr, [], ◌∷◌, true, false, ◌≡◌, refl, List, String, Bool, ℕ, any,
  ◌==◌, not, ◌||◌, Bool-cases, arith, beq_self, subst, map, All, sym, ap, ◌∙◌, select,
}
use address_quality.GoMap.{RangeOrder}
use address_quality.Chunks.{chunks, chunks-concat}
use address_quality.Database.{LocationDb, CodeRow, Conn, exec, query, transaction}
use address_quality.Database.Does.{
  Does, bind-Does, exec-Does, pure-Does, query-Does, transaction-Does,
}
use address_quality.Database.Visited.{AllPass, AllPass-visit, any-visit, any-Mem}
use address_quality.Database.Sources.{is_active}
use address_quality.Database.Codes.{chunk_size}
use address_quality.Database.Valid.{NoRepeat, same_id, IsValid}
use address_quality.Database.Normalized.{
  update_row, update_chunk, update_chunks, active_names, rebuild_normalized,
}
use address_quality.Database.Normalized.Rows.{
  Codes, updated, is_current, agrees, names_row, update_row-names, updated-is_current, map-id,
  map-twice,
}

map-updated :
    (now : String) (groups : List Codes) (d : LocationDb)
    → (foldl (λ e g. update_chunk now g e) d groups).location_codes
      ≡ map (updated now groups) d.location_codes
unfolding update_chunk
map-updated now [] d = sym (map-id d.location_codes)
map-updated now (g ∷ groups) d =
    map-updated now groups (update_chunk now g d)
    ∙ map-twice (update_row now g) (updated now groups) d.location_codes

update_chunks-Does :
    (now : String) (groups : List Codes)
    → Does (update_chunks now groups) (λ d. tt) (λ d. foldl (λ e g. update_chunk now g e) d groups)
unfolding update_chunks
update_chunks-Does now [] = pure-Does tt
update_chunks-Does now (g ∷ groups) =
    bind-Does (exec (update_chunk now g)) (λ u. update_chunks now groups) (λ d. tt)
      (update_chunk now g) (λ u d. tt) (λ u d. foldl (λ e h. update_chunk now h e) d groups)
      (exec-Does (update_chunk now g)) (λ u. update_chunks-Does now groups)

other_ids :
    (r x : CodeRow) (codes : List CodeRow)
    → r ≡ x
    → any (same_id x) codes ≡ false
    → All (λ q. agrees r (q.id, q.name) ≡ true) codes
other_ids r x [] e h = tt
other_ids r x (q ∷ codes) e h =
    let i : r.id ≡ x.id = ap (λ (y : CodeRow). y.id) e in
    (rw i (ground (arith, h)), other_ids r x codes e (ground (arith, h)))

-- The rows of the table agree with each of them.
unique-agrees :
    (r : CodeRow) (codes : List CodeRow)
    → NoRepeat same_id codes
    → Memᴰ r codes
    → All (λ q. agrees r (q.id, q.name) ≡ true) codes
unique-agrees r [] u m = elim m [ ]
unique-agrees r (x ∷ codes) (first, u) (Memᴰ.head e) =
    (rw (e, beq_self x.id, beq_self x.name) refl, other_ids r x codes e first)
unique-agrees r (x ∷ codes) (first, u) (Memᴰ.tail m) = elim (Bool-cases (x.id == r.id)) [
  | inl same ↦ cc (any-Mem (same_id x) codes r m same, first)
  | inr other ↦ (rw other refl, unique-agrees r codes u m)
]

pairs-AllPass :
    (t : CodeRow → Bool) (p : ℕ × String → Bool) (codes : List CodeRow)
    → All (λ q. p (q.id, q.name) ≡ true) codes
    → AllPass p (map (λ (q : CodeRow). (q.id, q.name)) (select t codes))
pairs-AllPass t p [] h = tt
pairs-AllPass t p (q ∷ codes) (here, h) = elim (Bool-cases (t q)) [
  | inl kept ↦ rw kept (here, pairs-AllPass t p codes h)
  | inr dropped ↦ rw dropped (pairs-AllPass t p codes h)
]

pairs-any :
    (t : CodeRow → Bool) (r : CodeRow) (codes : List CodeRow)
    → Memᴰ r codes
    → t r ≡ true
    → any (names_row r) (map (λ (q : CodeRow). (q.id, q.name)) (select t codes)) ≡ true
pairs-any t r [] m h = elim m [ ]
pairs-any t r (q ∷ codes) (Memᴰ.head e) h = rw (← e, h, beq_self r.id) refl
pairs-any t r (q ∷ codes) (Memᴰ.tail m) h = elim (Bool-cases (t q)) [
  | inl kept ↦ rw kept (ground (arith, pairs-any t r codes m h))
  | inr dropped ↦ rw dropped (pairs-any t r codes m h)
]

All-over_Mem :
    {A B : Type 0} (P : B → Type 0) (f : A → B) (l : List A)
    → ((a : A) → Memᴰ a l → P (f a))
    → All P (map f l)
All-over_Mem P f [] h = tt
All-over_Mem P f (x ∷ l) h = (h x (Memᴰ.head refl), All-over_Mem P f l (λ a m. h a (Memᴰ.tail m)))

updated-deleted_at :
    (now : String) (groups : List Codes) (r : CodeRow)
    → (updated now groups r).deleted_at ≡ r.deleted_at
updated-deleted_at now [] r = refl
updated-deleted_at now (g ∷ groups) r =
    let (i, n, same) = update_row-names now g r in
    updated-deleted_at now groups (update_row now g r) ∙ same

-- An active row has the current name.
abbrev pub is_fresh : CodeRow → Bool
is_fresh r = not (is_active r.deleted_at) || is_current r

updated-is_fresh :
    (order : RangeOrder) (now : String) (d : LocationDb) (r : CodeRow)
    → IsValid d
    → Memᴰ r d.location_codes
    → is_fresh (updated now (chunks 4000 (order.visit _ (active_names d))) r) ≡ true
unfolding active_names
updated-is_fresh order now d r v m = elim (Bool-cases (is_active r.deleted_at)) [
  | inr inactive ↦
      rw (updated-deleted_at now (chunks 4000 (order.visit _ (active_names d))) r, inactive) refl
  | inl active ↦
      let codes = order.visit _ (active_names d) in
      let whole = chunks-concat 4000 codes (omega arith) in
      let agreeing : AllPass (agrees r) codes =
        AllPass-visit order (agrees r) (active_names d) (
          pairs-AllPass _ (agrees r) d.location_codes (unique-agrees r d.location_codes v.ids m)) in
      let named : any (names_row r) codes ≡ true =
        any-visit order (names_row r) (active_names d)
        ∙ pairs-any (λ q. is_active q.deleted_at) r d.location_codes m active in
      let current =
        updated-is_current now (chunks 4000 codes) r
          (subst (AllPass (agrees r)) (sym whole) agreeing) (rw (whole, named) (ground arith)) in
      ground (arith, current)
]

rebuild_normalized-Does :
    (order : RangeOrder) (now : String)
    → Does
        (rebuild_normalized order now)
        (λ d. tt)
        (λ d. foldl (λ e g. update_chunk now g e) d (chunks 4000 (order.visit _ (active_names d))))
unfolding rebuild_normalized chunk_size
rebuild_normalized-Does order now =
    bind-Does (query order active_names)
      (λ codes. transaction (update_chunks now (chunks 4000 codes)))
      (λ d. order.visit _ (active_names d)) (λ d. d) (λ codes d. tt)
      (λ codes d. foldl (λ e g. update_chunk now g e) d (chunks 4000 codes))
      (query-Does order active_names)
      (λ codes.
        transaction-Does (update_chunks now (chunks 4000 codes)) (λ d. tt)
          (λ d. foldl (λ e g. update_chunk now g e) d (chunks 4000 codes))
          (update_chunks-Does now (chunks 4000 codes)))

-- After a rebuild of the normalized names of a well-formed database that returns no error, every
-- active row has the normalized form of its own name in lowercase_normalized.
pub rebuild_normalized-is_fresh :
    (order : RangeOrder) (now : String) (c : Conn)
    → IsValid c.db
    → (rebuild_normalized order now c).0 ≡ some tt
    → All (λ r. is_fresh r ≡ true) (rebuild_normalized order now c).1.db.location_codes
unfolding rebuild_normalized chunk_size
rebuild_normalized-is_fresh order now c v succeeded = elim (rebuild_normalized-Does order now c) [
  | inl (failed, fault) ↦ cc
  | inr (returned, left, clean) ↦ rw left (
      rw (map-updated now (chunks 4000 (order.visit _ (active_names c.db))) c.db)
        (All-over_Mem _ _ c.db.location_codes (λ r m. updated-is_fresh order now c.db r v m)))
]
