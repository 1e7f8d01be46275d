-- ===== src/Evidence/Distinct.antt =====
-- The place names among the evidence of a text.
use address_quality.Prelude.{
  nat_eq, string_eq, inl, inr, [], ◌∷◌, true, false, ◌≡◌, refl, Bool, List, String, map, contains,
  Bool-cases, All, select, ◌||◌, ◌++◌, ◌∙◌, arith, beq_self, ap, Option-cases, ◌==◌, beq→eq,
}
use address_quality.Text.{fields, to_lower, chars}
use address_quality.Model.{Evidence, EvidenceType}
use address_quality.Evidence.{
  find_postal_code, remove_prefixes, is_skipped, place_names, postal_evidence, extract_evidence,
}

unfoldable pub is_place_name : Evidence → Bool
is_place_name e = elim e.type [ EvidenceType.place_name ↦ true | _ ↦ false ]

-- The values, in lower case.
abbrev pub lower_values : List Evidence → List String
lower_values = map (λ e. to_lower e.value)

abbrev pub NoneAgain : List String → Type 0
NoneAgain [] = Unit
NoneAgain (x ∷ xs) = (contains xs x ≡ false) × NoneAgain xs

-- What is seen does not come again.
place_names-seen :
    (seen words : List String) (x : String)
    → contains seen x ≡ true
    → contains (lower_values (place_names seen words)) x ≡ false
unfolding place_names
place_names-seen seen [] x at = refl
place_names-seen seen (w ∷ words) x at =
    elim (Bool-cases (is_skipped w || contains seen (to_lower w))) [
      | inl skipped ↦ rw (place_names, skipped) (place_names-seen seen words x at)
      | inr kept ↦
          rw (place_names, kept)
            (let later = place_names-seen (to_lower w ∷ seen) words x (ground (arith, at)) in
              elim (Bool-cases (x == to_lower w)) [
                | inl same ↦
                    let new : contains seen (to_lower w) ≡ false = ground arith in
                    cc (beq→eq x (to_lower w) same, at, new)
                | inr other ↦ rw (other, later) refl
              ])
    ]

place_names-NoneAgain :
    (seen words : List String) → NoneAgain (lower_values (place_names seen words))
unfolding place_names
place_names-NoneAgain seen [] = tt
place_names-NoneAgain seen (w ∷ words) =
    elim (Bool-cases (is_skipped w || contains seen (to_lower w))) [
      | inl skipped ↦ rw (place_names, skipped) (place_names-NoneAgain seen words)
      | inr kept ↦
          rw (place_names, kept)
            (
              place_names-seen (to_lower w ∷ seen) words (to_lower w)
                  (rw (beq_self (to_lower w)) refl),
              place_names-NoneAgain (to_lower w ∷ seen) words,
            )
    ]

place_names-kept :
    (seen words : List String) → All (λ e. is_skipped e.value ≡ false) (place_names seen words)
unfolding place_names
place_names-kept seen [] = tt
place_names-kept seen (w ∷ words) = elim (Bool-cases (is_skipped w || contains seen (to_lower w))) [
  | inl skipped ↦ rw (place_names, skipped) (place_names-kept seen words)
  | inr kept ↦ rw (place_names, kept) (ground arith, place_names-kept (to_lower w ∷ seen) words)
]

select-place_names :
    (seen words : List String)
    → select is_place_name (place_names seen words) ≡ place_names seen words
unfolding place_names is_place_name
select-place_names seen [] = refl
select-place_names seen (w ∷ words) =
    elim (Bool-cases (is_skipped w || contains seen (to_lower w))) [
      | inl skipped ↦ rw (place_names, skipped) (select-place_names seen words)
      | inr kept ↦
          rw (place_names, kept)
            (ap (λ l. record { type = EvidenceType.place_name; value = w } ∷ l)
              (select-place_names (to_lower w ∷ seen) words))
    ]

select-append :
    {A : Type 0} (p : A → Bool) (xs ys : List A) → select p (xs ++ ys) ≡ select p xs ++ select p ys
select-append p [] ys = refl
select-append p (x ∷ xs) ys = elim (Bool-cases (p x)) [
  | inl kept ↦ rw kept (ap (λ l. x ∷ l) (select-append p xs ys))
  | inr dropped ↦ rw dropped (select-append p xs ys)
]

places :
    (normalized : String)
    → select is_place_name (extract_evidence normalized)
      ≡ place_names [] (fields (remove_prefixes 0 false (chars normalized)))
unfolding extract_evidence postal_evidence is_place_name
places normalized =
    select-append is_place_name (postal_evidence normalized)
      (place_names [] (fields (remove_prefixes 0 false (chars normalized))))
    ∙ elim (Option-cases (find_postal_code normalized)) [
      | inl missing ↦ rw (postal_evidence, missing) (select-place_names [] _)
      | inr (p, found) ↦ rw (postal_evidence, found) (select-place_names [] _)
    ]

-- The place names among the evidence of a text have values that differ in lower case, and none of
-- them holds a postal code or a road prefix.
pub extract_evidence-places :
    (normalized : String)
    → NoneAgain (lower_values (select is_place_name (extract_evidence normalized)))
      × All (λ e. is_skipped e.value ≡ false) (select is_place_name (extract_evidence normalized))
extract_evidence-places normalized = rw (places normalized) (
  place_names-NoneAgain [] (fields (remove_prefixes 0 false (chars normalized))),
  place_names-kept [] (fields (remove_prefixes 0 false (chars normalized))),
)
