-- ===== src/Resolve/Phrases/Longest.antt =====
-- `matchPhrases`: the length of the phrase that is found, and the fuel of the loop.
use address_quality.Prelude.{
  [], ◌∷◌, nat_eq, string_eq, inl, inr, none, some, ◌⊎◌, suc, Option, arith, subst, Bool-cases,
  zero, sym, length, ◌∷◌, ◌+◌, Option-cases, drop, length-drop, refl,
}
use address_quality.GoMap.{RangeOrder, lookup}
use address_quality.Resolve.Phrases.{
  PhraseDict, phrase_key, longest_match, add_phrase, match_from, Entity,
}
use address_quality.Prelude.{ℕ, List, String, is_some, ◌≡◌, take, some, true, ◌≤◌, ◌<◌, string_eq}

le-suc : (j n : ℕ) → j ≤ suc n → (j ≤ n) ⊎ (j ≡ suc n)
le-suc j n h = ground arith

module _ (order : RangeOrder) (dict : PhraseDict) (source_id : ℕ) where
  -- The first k words are a phrase of the dictionary.
  abbrev pub IsPhrase : List String → ℕ → Type 0
  IsPhrase words k = is_some (lookup (phrase_key order dict source_id (take k words)) dict) ≡ true

  -- What `longest_match` promises of its result for the first n prefixes.
  abbrev pub Promise : List String → ℕ → Option ℕ → Type 0
  Promise words n none = (j : ℕ) → 1 ≤ j → j ≤ n → IsPhrase words j → ⊥
  Promise words n (some k) =
      IsPhrase words k × (1 ≤ k) × (k ≤ n) × ((j : ℕ) → k < j → j ≤ n → IsPhrase words j → ⊥)

  Promise-suc :
      (words : List String) (n : ℕ) (r : Option ℕ)
      → (IsPhrase words (suc n) → ⊥)
      → Promise words n r
      → Promise words (suc n) r
  Promise-suc words n none fails h = λ j low high. elim (le-suc j n high) [
    | inl before ↦ h j low before
    | inr last ↦ subst (λ i. IsPhrase words i → ⊥) (sym last) fails
  ]
  Promise-suc words n (some k) fails (here, low, high, longest) = (here, low, omega arith, longer)
    where
      longer : (j : ℕ) → k < j → j ≤ suc n → IsPhrase words j → ⊥
      longer j above below = elim (le-suc j n below) [
        | inl before ↦ longest j above before
        | inr last ↦ subst (λ i. IsPhrase words i → ⊥) (sym last) fails
      ]

  -- Among the first n prefixes of the words, `longest_match` finds the longest that is a phrase of the
  -- dictionary, by its length; it finds none only if none of them is one.
  pub longest_match-IsLongest :
      (words : List String) (n : ℕ) → Promise words n (longest_match order dict source_id words n)
  unfolding longest_match
  longest_match-IsLongest words zero = λ j low high. λ yes. omega (arith, low, high)
  longest_match-IsLongest words (suc n) =
      elim (Bool-cases
        (is_some (lookup (phrase_key order dict source_id (take (suc n) words)) dict))) [
          | inl found ↦
              rw (found, longest_match)
                (
                  found,
                  omega arith,
                  omega arith,
                  λ j above below. λ yes. omega (arith, above, below),
                )
          | inr not_found ↦
              rw (not_found, longest_match)
                (Promise-suc words n (longest_match order dict source_id words n)
                  (λ yes. cc (yes, not_found)) (longest_match-IsLongest words n))
        ]

  fuel-suffices :
      (n n' : ℕ) (words : List String) (m : List (String × List Entity))
      → length words ≤ n
      → length words ≤ n'
      → match_from order dict source_id n words m ≡ match_from order dict source_id n' words m
  unfolding match_from
  fuel-suffices zero zero [] m h h' = refl
  fuel-suffices zero (suc n') [] m h h' = refl
  fuel-suffices (suc n) zero [] m h h' = refl
  fuel-suffices (suc n) (suc n') [] m h h' = refl
  fuel-suffices zero n' (w ∷ ws) m h h' = absurd (omega (arith, h))
  fuel-suffices (suc n) zero (w ∷ ws) m h h' = absurd (omega (arith, h'))
  fuel-suffices (suc n) (suc n') (w ∷ ws) m h h' =
      elim (Option-cases (longest_match order dict source_id (w ∷ ws) (length (w ∷ ws)))) [
        | inl nothing ↦
            rw (nothing, match_from) (fuel-suffices n n' ws m (omega arith) (omega arith))
        | inr (k, found) ↦
            let promise =
              subst (Promise (w ∷ ws) (length (w ∷ ws))) found
                (longest_match-IsLongest (w ∷ ws) (length (w ∷ ws))) in
            rw (found, match_from)
              (fuel-suffices n n' (drop k (w ∷ ws))
                (add_phrase order dict source_id (take k (w ∷ ws)) m)
                (omega (arith, length-drop k (w ∷ ws), promise.1))
                (omega (arith, length-drop k (w ∷ ws), promise.1)))
      ]

  -- The loop of `matchPhrases` ends within the fuel it is given: with as many rounds as there are words
  -- it gives what it gives with any greater number.
  pub match_from-fuel :
      (words : List String) (m : List (String × List Entity)) (extra : ℕ)
      → match_from order dict source_id (length words + extra) words m
        ≡ match_from order dict source_id (length words) words m
  match_from-fuel words m extra =
      fuel-suffices (length words + extra) (length words) words m (omega arith) (omega arith)
