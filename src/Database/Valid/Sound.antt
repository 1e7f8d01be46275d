-- ===== src/Database/Valid/Sound.antt =====
-- The parents that a rebuild finds for a sub-district are rows whose codes are prefixes of its own.
use mathlib.Core.List.{foldl}
use Prim.Native.String
use text.Mathlib.TextLemmas.{append_assoc as text_assoc}
use address_quality.Prelude.{
  nat_eq, string_eq, some, [], ◌∷◌, true, ◌≡◌, refl, String, List, ℕ, Bool, any, All, arith, length,
  Option-cases, ◌==◌, Bool-cases, beq_self, sym, inl, ◌&&◌, beq→eq, ◌∙◌, inr, subst, ap, some-eq,
}
use address_quality.GoMap.{RangeOrder, lookup, insert}
use address_quality.GoMap.Laws.{lookup-insert_self, lookup-insert_ne}
use address_quality.Text.Split.{split, join-split}
use address_quality.Text.{join}
use address_quality.Database.{CodeRow, LocationDb}
use address_quality.Database.Codes.{of_source, prefix_kode}
use address_quality.Database.Visited.{
  any-visit, any-le, All-any, AllPass-visit, AllPass-select, All-map_le,
}
use address_quality.Database.Hierarchy.{
  HierarchyInsert, kode_map, parent_rows, sub_rows, parents_of, hierarchy_of, is_parent_row,
  new_entry,
}
use address_quality.Database.Hierarchy.Loop.{inserts}
use address_quality.Database.Valid.{HasRow, is_row, IsSound}

abbrev is_pair : String → ℕ → String × ℕ → Bool
is_pair kode id p = p.0 == kode && p.1 == id

-- Every entry of the map is one of the rows.
abbrev Backed : List (String × ℕ) → List (String × ℕ) → Type 0
Backed rows m = (k : String) (id : ℕ) → lookup k m ≡ some id → any (is_pair k id) rows ≡ true

Backed-insert :
    (rows m : List (String × ℕ)) (p : String × ℕ)
    → any (is_pair p.0 p.1) rows ≡ true
    → Backed rows m
    → Backed rows (insert p.0 p.1 m)
Backed-insert rows m (kode, i) here h k id found = elim (Bool-cases (kode == k)) [
  | inl same ↦ let e = beq→eq kode k same in cc (here, lookup-insert_self kode i m, found, e)
  | inr other ↦ h k id (rw (lookup-insert_ne kode k i m other) at found)
]

foldl-Backed :
    (rows m l : List (String × ℕ))
    → All (λ p. any (is_pair p.0 p.1) rows ≡ true) l
    → Backed rows m
    → Backed rows (foldl (λ n p. insert p.0 p.1 n) m l)
foldl-Backed rows m [] each h = h
foldl-Backed rows m (p ∷ l) (here, each) h =
    foldl-Backed rows (insert p.0 p.1 m) l each (Backed-insert rows m p here h)

kode_map-Backed : (rows : List (String × ℕ)) → Backed rows (kode_map rows)
unfolding kode_map lookup
kode_map-Backed rows =
    foldl-Backed rows [] rows
      (All-map_le _ _ (λ p h. h) rows
        (All-any (λ p q. is_pair p.0 p.1 q) (λ p. ground (arith, beq_self p.0, beq_self p.1)) rows))
      (λ k id found. cc)

-- An id that the map gives is that of a row.
pub kode_map-HasRow :
    (order : RangeOrder) (source_id : ℕ) (d : LocationDb) (k : String) (id : ℕ)
    → lookup k (kode_map (order.visit _ (parent_rows source_id d))) ≡ some id
    → HasRow d.location_codes source_id id k
unfolding parent_rows is_row is_parent_row
kode_map-HasRow order source_id d k id found =
    any-le _ (is_pair k id) (is_row source_id id k) (is_parent_row source_id) d.location_codes
      (λ r kept same. ground arith)
      (sym (any-visit order (is_pair k id) (parent_rows source_id d))
        ∙ kode_map-Backed (order.visit _ (parent_rows source_id d)) k id found)

four :
    (parts : List String)
    → length parts ≡ 4
    → (a : String) × (b : String) × (c : String) × (e : String) × (parts ≡ a ∷ b ∷ c ∷ e ∷ [])
four [] h = absurd (omega arith)
four (a ∷ []) h = absurd (omega arith)
four (a ∷ b ∷ []) h = absurd (omega arith)
four (a ∷ b ∷ c ∷ []) h = absurd (omega arith)
four (a ∷ b ∷ c ∷ e ∷ []) h = (a, b, c, e, refl)
four (a ∷ b ∷ c ∷ e ∷ f ∷ parts) h = absurd (omega arith)

text_ends :
    (a b c : String)
    → String.◌++◌ a (String.◌++◌ "." (String.◌++◌ b (String.◌++◌ "." c)))
      ≡ String.◌++◌ (String.◌++◌ a (String.◌++◌ "." b)) (String.◌++◌ "." c)
text_ends a b c = sym (
    text_assoc a (String.◌++◌ "." b) (String.◌++◌ "." c)
    ∙ ap (String.◌++◌ a) (text_assoc "." b (String.◌++◌ "." c)))

text_ends3 :
    (a b c e : String)
    → String.◌++◌ a
        (String.◌++◌ "." (String.◌++◌ b (String.◌++◌ "." (String.◌++◌ c (String.◌++◌ "." e)))))
      ≡ String.◌++◌
          (String.◌++◌ a (String.◌++◌ "." (String.◌++◌ b (String.◌++◌ "." c))))
          (String.◌++◌ "." e)
text_ends3 a b c e =
    ap (λ x. String.◌++◌ a (String.◌++◌ "." x)) (text_ends b c e)
    ∙ text_ends a (String.◌++◌ b (String.◌++◌ "." c)) e

four-IsSound :
    (codes : List CodeRow) (source_id id : ℕ) (kode_to_id : List (String × ℕ)) (a b c e : String)
    (h : HierarchyInsert)
    → ((k : String) (i : ℕ) → lookup k kode_to_id ≡ some i → HasRow codes source_id i k)
    → HasRow codes source_id id (join "." (a ∷ b ∷ c ∷ e ∷ []))
    → parents_of kode_to_id (a ∷ b ∷ c ∷ e ∷ []) id ≡ some h
    → IsSound codes (new_entry source_id h)
unfolding parents_of prefix_kode join
four-IsSound codes source_id id kode_to_id a b c e h backed own found =
    elim (Option-cases (lookup (prefix_kode 1 (a ∷ b ∷ c ∷ e ∷ [])) kode_to_id)) [
      | inl missing ↦ cc (rw missing at found)
      | inr (p, p_at) ↦
          elim (Option-cases (lookup (prefix_kode 2 (a ∷ b ∷ c ∷ e ∷ [])) kode_to_id)) [
            | inl missing ↦ cc (rw (p_at, missing) at found)
            | inr (q, q_at) ↦
                elim (Option-cases (lookup (prefix_kode 3 (a ∷ b ∷ c ∷ e ∷ [])) kode_to_id)) [
                  | inl missing ↦ cc (rw (p_at, q_at, missing) at found)
                  | inr (r, r_at) ↦
                      subst (λ x. IsSound codes (new_entry source_id x))
                        (some-eq _ _ (rw (p_at, q_at, r_at) at found))
                        (record {
                          province_kode = _;
                          city_kode = _;
                          district_kode = _;
                          subdistrict_kode = _;
                          province = backed _ p p_at;
                          city = backed _ q q_at;
                          district = backed _ r r_at;
                          subdistrict = own;
                          city_below = (b, refl);
                          district_below = (c, text_ends a b c);
                          subdistrict_below = (e, text_ends3 a b c e);
                        })
                ]
          ]
    ]

parents_of-IsSound :
    (codes : List CodeRow) (source_id id : ℕ) (kode_to_id : List (String × ℕ)) (parts : List String)
    (h : HierarchyInsert)
    → ((k : String) (i : ℕ) → lookup k kode_to_id ≡ some i → HasRow codes source_id i k)
    → HasRow codes source_id id (join "." parts)
    → parents_of kode_to_id parts id ≡ some h
    → IsSound codes (new_entry source_id h)
unfolding parents_of
parents_of-IsSound codes source_id id kode_to_id parts h backed own found =
    elim (Bool-cases (length parts == 4)) [
      | inr other ↦ cc (rw (parents_of, other) at found)
      | inl has_four ↦
          let (a, b, c, e, shape) = four parts (beq→eq (length parts) 4 has_four) in
          four-IsSound codes source_id id kode_to_id a b c e h backed
            (subst (λ l. HasRow codes source_id id (join "." l)) shape own)
            (subst (λ l. parents_of kode_to_id l id ≡ some h) shape found)
    ]

pub inserts-IsSound :
    (codes : List CodeRow) (source_id : ℕ) (kode_to_id : List (String × ℕ))
    (subs : List (ℕ × String))
    → ((k : String) (i : ℕ) → lookup k kode_to_id ≡ some i → HasRow codes source_id i k)
    → All (λ s. HasRow codes source_id s.0 s.1) subs
    → All (λ h. IsSound codes (new_entry source_id h)) (inserts kode_to_id subs)
unfolding inserts hierarchy_of
inserts-IsSound codes source_id kode_to_id [] backed own = tt
inserts-IsSound codes source_id kode_to_id ((id, kode) ∷ subs) backed (here, own) =
    elim (Option-cases (hierarchy_of kode_to_id (id, kode))) [
      | inl skipped ↦
          rw (inserts, skipped) (inserts-IsSound codes source_id kode_to_id subs backed own)
      | inr (h, found) ↦
          rw (inserts, found)
            (
              parents_of-IsSound codes source_id id kode_to_id (split 46 kode) h backed
                  (subst (HasRow codes source_id id) (sym (join-split "." kode)) here) found,
              inserts-IsSound codes source_id kode_to_id subs backed own,
            )
    ]

-- The sub-districts that are read are rows.
pub sub_rows-HasRow :
    (order : RangeOrder) (source_id : ℕ) (d : LocationDb)
    → All (λ s. HasRow d.location_codes source_id s.0 s.1) (order.visit _ (sub_rows source_id d))
unfolding sub_rows is_row of_source
sub_rows-HasRow order source_id d =
    AllPass-visit order (λ s. any (is_row source_id s.0 s.1) d.location_codes)
      (sub_rows source_id d)
      (AllPass-select _ (λ s. any (is_row source_id s.0 s.1) d.location_codes) _ d.location_codes
        (All-map_le _ _
          (λ r h kept.
            let same : (r.location_source_id == source_id) ≡ true = ground arith in
            subst (λ i. any (is_row i r.id r.kode) d.location_codes ≡ true)
              (beq→eq _ source_id same) h)
          d.location_codes
          (All-any (λ r q. is_row r.location_source_id r.id r.kode q)
            (λ r. ground (arith, beq_self r.location_source_id, beq_self r.id, beq_self r.kode))
            d.location_codes)))
