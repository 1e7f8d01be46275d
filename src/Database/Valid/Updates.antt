-- ===== src/Database/Valid/Updates.antt =====
-- An update of one column keeps a database well-formed.
use address_quality.Prelude.{
  nat_eq, string_eq, [], ◌∷◌, ◌≡◌, refl, Bool, List, String, any, map, All, ℕ, ◌∙◌, Option-cases,
  inl, inr,
}
use address_quality.Database.{LocationDb, CodeRow}
use address_quality.Database.Codes.{of_source}
use address_quality.Database.Normalized.{case_id, update_row, update_chunk}
use address_quality.Database.Visited.{All-map_le}
use address_quality.Database.Valid.{NoRepeat, is_row, IsValid, same_id, same_kode}
use address_quality.Database.Valid.Inserts.{IsSound-grows}

any-map :
    {A B : Type 0} (p : B → Bool) (q : A → Bool) (f : A → B) (xs : List A)
    → ((a : A) → p (f a) ≡ q a)
    → any p (map f xs) ≡ any q xs
any-map p q f [] h = refl
any-map p q f (x ∷ xs) h = rw (h x, any-map p q f xs h) refl

NoRepeat-map :
    {A B : Type 0} (same : B → B → Bool) (same' : A → A → Bool) (f : A → B)
    → ((a b : A) → same (f a) (f b) ≡ same' a b)
    → (xs : List A) → NoRepeat same' xs
    → NoRepeat same (map f xs)
NoRepeat-map same same' f agree [] h = tt
NoRepeat-map same same' f agree (x ∷ xs) (first, h) =
    (any-map (same (f x)) (same' x) f xs (agree x) ∙ first, NoRepeat-map same same' f agree xs h)

All-over_map :
    {A B : Type 0} (P : B → Type 0) (Q : A → Type 0) (f : A → B)
    → ((a : A) → Q a → P (f a))
    → (xs : List A) → All Q xs
    → All P (map f xs)
All-over_map P Q f h [] all = tt
All-over_map P Q f h (x ∷ xs) (here, all) = (h x here, All-over_map P Q f h xs all)

-- The columns that an update leaves.
update_row-keeps :
    (now : String) (codes : List (ℕ × String)) (r : CodeRow)
    → ((update_row now codes r).id ≡ r.id)
      × ((update_row now codes r).location_source_id ≡ r.location_source_id)
      × ((update_row now codes r).kode ≡ r.kode)
unfolding update_row
update_row-keeps now codes r = elim (Option-cases (case_id codes r.id)) [
  | inl missing ↦ rw (update_row, missing) (refl, refl, refl)
  | inr (text, found) ↦ rw (update_row, found) (refl, refl, refl)
]

pub update_chunk-IsValid :
    (now : String) (codes : List (ℕ × String)) (d : LocationDb)
    → IsValid d
    → IsValid (update_chunk now codes d)
unfolding update_chunk is_row of_source
update_chunk-IsValid now codes d v =
    let keeps = update_row-keeps now codes in
    record {
      versions = v.versions;
      ids =
          NoRepeat-map _ same_id (update_row now codes) (λ a b. rw ((keeps a).0, (keeps b).0) refl)
            d.location_codes v.ids;
      next =
          All-over_map _ _ (update_row now codes) (λ a h. rw ((keeps a).0) h) d.location_codes
            v.next;
      kodes =
          NoRepeat-map _ same_kode (update_row now codes)
            (λ a b.
              let (ia, sa, ka) = keeps a in let (ib, sb, kb) = keeps b in rw (sa, sb, ka, kb) refl)
            d.location_codes v.kodes;
      subdistricts = v.subdistricts;
      hierarchy =
          All-map_le _ _
            (λ e h.
              IsSound-grows d.location_codes _ e
                (λ i id k found.
                  any-map _ (is_row i id k) (update_row now codes) d.location_codes
                    (λ r. let (ir, sr, kr) = keeps r in rw (ir, sr, kr) refl)
                  ∙ found)
                h)
            d.location_hierarchy v.hierarchy;
      priorities = v.priorities;
    }
