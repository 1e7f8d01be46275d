-- ===== src/Fuzzy/Distance/Laws.antt =====
-- The distance and the similarity: what they are, and their range.
use address_quality.Prelude.{
  ℕ, zero, suc, ◌≤◌, ◌<◌, ◌≡◌, refl, ◌↔◌, List, [], ◌∷◌, max, arith, length, get_or, sym, ap, subst,
}
use address_quality.Fuzzy.Distance.{damerau_levenshtein, damerau_similarity}
use address_quality.Fuzzy.Distance.Alignment.{
  dist, dist-zero, dist-cost, Align, done, ins, del, keep, sub, swap, dist-le_of_Align, Align-dist,
}
use address_quality.Fuzzy.Distance.Rows.{damerau_levenshtein-eq-dist}

-- The distance of two texts is the cost of an alignment of them, and no alignment costs less.
pub damerau_levenshtein-IsLeast :
    (a b : List ℕ)
    → Align a b (length a) (length b) (damerau_levenshtein a b)
      × ((n : ℕ) → Align a b (length a) (length b) n → damerau_levenshtein a b ≤ n)
damerau_levenshtein-IsLeast a b =
    rw (damerau_levenshtein-eq-dist a b)
      (Align-dist a b (length a) (length b), λ n p. dist-le_of_Align a b p)

flip : {a b : List ℕ} {i j n : ℕ} → Align a b i j n → Align b a j i n
flip done = done
flip (ins p) = del (flip p)
flip (del p) = ins (flip p)
flip (keep e p) = keep (sym e) (flip p)
flip (sub p) = sub (flip p)
flip (swap e f p) = swap (sym f) (sym e) (flip p)

-- The distance does not depend on the order of the two texts.
pub damerau_levenshtein_comm : (a b : List ℕ) → damerau_levenshtein a b ≡ damerau_levenshtein b a
damerau_levenshtein_comm a b =
    let (p, least) = damerau_levenshtein-IsLeast a b in
    let (q, least') = damerau_levenshtein-IsLeast b a in
    omega (arith, least _ (flip q), least' _ (flip p))

module _ (a b : List ℕ) where
  dist-le-max : (i j : ℕ) → dist a b i j ≤ max i j
  dist-le-max zero j = unfold dist in omega arith
  dist-le-max (suc i) zero = omega (arith, dist-zero a b (suc i))
  dist-le-max (suc i) (suc j) = ground (arith, dist-cost a b i j, dist-le-max i j)

  damerau_levenshtein-le-max : damerau_levenshtein a b ≤ max (length a) (length b)
  damerau_levenshtein-le-max =
      rw (damerau_levenshtein-eq-dist a b) (dist-le-max (length a) (length b))

  -- An alignment at no cost keeps every rune.
  Align-free :
      {i j n : ℕ}
      → Align a b i j n
      → n ≡ 0
      → (i ≡ j) × ((k : ℕ) → k < i → get_or a k 0 ≡ get_or b k 0)
  Align-free done e = (refl, λ k h. absurd (omega arith))
  Align-free (ins p) e = absurd (omega arith)
  Align-free (del p) e = absurd (omega arith)
  Align-free (sub p) e = absurd (omega arith)
  Align-free (swap f g p) e = absurd (omega arith)
  Align-free (keep {i} {j} f p) e =
      let (same, below) = Align-free p e in (ap suc same, λ k h. ground (arith, below k))

eq-of_get_or :
    (a b : List ℕ)
    → length a ≡ length b
    → ((k : ℕ) → k < length a → get_or a k 0 ≡ get_or b k 0)
    → a ≡ b
eq-of_get_or [] [] e h = refl
eq-of_get_or [] (y ∷ b) e h = absurd (omega arith)
eq-of_get_or (x ∷ a) [] e h = absurd (omega arith)
eq-of_get_or (x ∷ a) (y ∷ b) e h =
    cc (h 0 (omega arith), eq-of_get_or a b (omega arith) (λ k q. h (suc k) (omega arith)))

Align-self : (a : List ℕ) (i : ℕ) → Align a a i i 0
Align-self a zero = done
Align-self a (suc i) = keep refl (Align-self a i)

damerau_levenshtein-eq-zero_iff : (a b : List ℕ) → (damerau_levenshtein a b ≡ 0) ↔ (a ≡ b)
damerau_levenshtein-eq-zero_iff a b = (
  (λ e.
      let (same, keeps) = Align-free a b (damerau_levenshtein-IsLeast a b).0 e in
      eq-of_get_or a b same keeps),
  (λ e.
      subst (λ t. damerau_levenshtein a t ≡ 0) e
        (omega (arith, (damerau_levenshtein-IsLeast a a).1 0 (Align-self a (length a))))),
)

similarity_parts :
    (a b : List ℕ)
    → ((damerau_similarity a b).num ≤ (damerau_similarity a b).den)
      × (0 < (damerau_similarity a b).den)
      × (((damerau_similarity a b).num ≡ (damerau_similarity a b).den)
          ↔ (damerau_levenshtein a b ≡ 0))
unfolding damerau_similarity
similarity_parts a b = ground (arith, damerau_levenshtein-le-max a b)

-- A similarity is a fraction between 0 and 1, and it is 1 exactly for equal texts.
pub damerau_similarity_range :
    (a b : List ℕ)
    → ((damerau_similarity a b).num ≤ (damerau_similarity a b).den)
      × (0 < (damerau_similarity a b).den)
      × (((damerau_similarity a b).num ≡ (damerau_similarity a b).den) ↔ (a ≡ b))
damerau_similarity_range a b =
    let (below, positive, same) = similarity_parts a b in
    let (equal, zero_at) = damerau_levenshtein-eq-zero_iff a b in
    (below, positive, (λ e. equal (same.0 e), λ e. same.1 (zero_at e)))
