-- ===== src/Fuzzy/Distance/Alignment.antt =====
-- What the distance means: the least cost of an alignment of two texts.
use address_quality.Prelude.{
  ℕ, zero, suc, ◌+◌, ◌≤◌, ◌≡◌, List, min, get_or, arith, if◌then◌else◌, ◌==◌, nat_eq, ◌&&◌, Bool,
  true, subst, ◌⊎◌, Bool-cases, ap, inl, inr, refl, beq→eq,
}

module _ (a b : List ℕ) where
  -- `Align i j n`: the first i runes of `a` become the first j runes of `b` at cost n. An insertion, a
  -- deletion, a substitution and the swap of two adjacent runes cost 1 each, and no rune takes part
  -- in two operations.
  pub data Align : ℕ → ℕ → ℕ → Type 0 where
    done : Align zero zero zero
    ins : {i j n : ℕ} → Align i j n → Align i (suc j) (suc n)
    del : {i j n : ℕ} → Align i j n → Align (suc i) j (suc n)
    keep : {i j n : ℕ} → get_or a i 0 ≡ get_or b j 0 → Align i j n → Align (suc i) (suc j) n
    sub : {i j n : ℕ} → Align i j n → Align (suc i) (suc j) (suc n)
    swap :
        {i j n : ℕ}
        → get_or a (suc i) 0 ≡ get_or b j 0
        → get_or a i 0 ≡ get_or b (suc j) 0
        → Align i j n
        → Align (suc (suc i)) (suc (suc j)) (suc n)

  -- The recursion that the rows tabulate.
  abbrev pub cost : ℕ → ℕ → ℕ
  cost i j = if get_or a i 0 == get_or b j 0 then 0 else 1

  abbrev pub is_swap : ℕ → ℕ → Bool
  is_swap i j = get_or a (suc i) 0 == get_or b j 0 && get_or a i 0 == get_or b (suc j) 0

  abbrev pub least3 : ℕ → ℕ → ℕ → ℕ
  least3 x y z = min (min x y) z

  unfoldable pub dist : ℕ → ℕ → ℕ
  dist zero j = j
  dist (suc i) zero = suc i
  dist (suc zero) (suc j) =
      least3 (suc (dist (suc zero) j)) (suc (dist zero (suc j))) (dist zero j + cost zero j)
  dist (suc (suc i)) (suc zero) =
      least3 (suc (dist (suc (suc i)) zero)) (suc (dist (suc i) (suc zero)))
        (dist (suc i) zero + cost (suc i) zero)
  dist (suc (suc i)) (suc (suc j)) =
      let m =
        least3 (suc (dist (suc (suc i)) (suc j))) (suc (dist (suc i) (suc (suc j))))
          (dist (suc i) (suc j) + cost (suc i) (suc j)) in
      if is_swap i j then min (suc (dist i j)) m else m

  pub dist-zero : (i : ℕ) → dist i zero ≡ i
  unfolding dist
  dist-zero zero = refl
  dist-zero (suc i) = refl

  dist_ins : (i j : ℕ) → dist i (suc j) ≤ suc (dist i j)
  unfolding dist
  dist_ins zero j = omega arith
  dist_ins (suc zero) j = ground arith
  dist_ins (suc (suc i)) zero = ground arith
  dist_ins (suc (suc i)) (suc j) = ground arith

  dist_del : (i j : ℕ) → dist (suc i) j ≤ suc (dist i j)
  unfolding dist
  dist_del i zero = ground (arith, dist-zero i)
  dist_del zero (suc j) = ground arith
  dist_del (suc i) (suc zero) = ground arith
  dist_del (suc i) (suc (suc j)) = ground arith

  pub dist-cost : (i j : ℕ) → dist (suc i) (suc j) ≤ dist i j + cost i j
  unfolding dist
  dist-cost zero j = ground arith
  dist-cost (suc i) zero = ground arith
  dist-cost (suc i) (suc j) = ground arith

  dist_swap : (i j : ℕ) → is_swap i j ≡ true → dist (suc (suc i)) (suc (suc j)) ≤ suc (dist i j)
  unfolding dist
  dist_swap i j h = ground arith

  -- No alignment is cheaper.
  pub dist-le_of_Align : {i j n : ℕ} → Align i j n → dist i j ≤ n
  dist-le_of_Align done = unfold dist in omega arith
  dist-le_of_Align (ins {i} {j} p) = omega (arith, dist_ins i j, dist-le_of_Align p)
  dist-le_of_Align (del {i} {j} p) = omega (arith, dist_del i j, dist-le_of_Align p)
  dist-le_of_Align (keep {i} {j} e p) = ground (arith, dist-cost i j, dist-le_of_Align p)
  dist-le_of_Align (sub {i} {j} p) = ground (arith, dist-cost i j, dist-le_of_Align p)
  dist-le_of_Align (swap {i} {j} e f p) = ground (arith, dist_swap i j, dist-le_of_Align p)

  Align-subst : {i j n m : ℕ} → Align i j n → n ≡ m → Align i j m
  Align-subst {i} {j} p e = subst (Align i j) e p

  least3_cases : (x y z : ℕ) → (x ≡ least3 x y z) ⊎ (y ≡ least3 x y z) ⊎ (z ≡ least3 x y z)
  least3_cases x y z = ground arith

  min_cases : (x y : ℕ) → (x ≡ min x y) ⊎ (y ≡ min x y)
  min_cases x y = ground arith

  Align-cost : {i j n : ℕ} → Align i j n → Align (suc i) (suc j) (n + cost i j)
  Align-cost {i} {j} {n} p = elim (Bool-cases (get_or a i 0 == get_or b j 0)) [
    | inl same ↦ Align-subst (keep (beq→eq _ _ same) p) (ground arith)
    | inr other ↦ Align-subst (sub p) (ground arith)
  ]

  Align-least3 :
      {i j x y z : ℕ} → Align i j x → Align i j y → Align i j z → Align i j (least3 x y z)
  Align-least3 {x} {y} {z} p q r = elim (least3_cases x y z) [
    | inl e ↦ Align-subst p e
    | inr d ↦ elim d [ inl e ↦ Align-subst q e | inr e ↦ Align-subst r e ]
  ]

  Align-swap_or :
      (i j t m : ℕ)
      → Align i j t
      → Align (suc (suc i)) (suc (suc j)) m
      → Align (suc (suc i)) (suc (suc j)) (if is_swap i j then min (suc t) m else m)
  Align-swap_or i j t m p q = elim (Bool-cases (is_swap i j)) [
    | inr e ↦ rw e q
    | inl e ↦ rw e (elim (min_cases (suc t) m) [
      | inl left ↦ Align-subst (swap (ground arith) (ground arith) p) left
      | inr right ↦ Align-subst q right
    ])
  ]

  -- The distance is the cost of an alignment.
  pub Align-dist : (i j : ℕ) → Align i j (dist i j)
  unfolding dist
  Align-dist zero zero = done
  Align-dist zero (suc j) = ins (Align-dist zero j)
  Align-dist (suc i) zero = Align-subst (del (Align-dist i zero)) (ap suc (dist-zero i))
  Align-dist (suc zero) (suc j) =
      Align-least3 (ins (Align-dist (suc zero) j)) (del (Align-dist zero (suc j)))
        (Align-cost (Align-dist zero j))
  Align-dist (suc (suc i)) (suc zero) =
      Align-least3 (ins (Align-dist (suc (suc i)) zero)) (del (Align-dist (suc i) (suc zero)))
        (Align-cost (Align-dist (suc i) zero))
  Align-dist (suc (suc i)) (suc (suc j)) = Align-swap_or i j _ _ (Align-dist i j) (
      Align-least3 (ins (Align-dist (suc (suc i)) (suc j))) (del (Align-dist (suc i) (suc (suc j))))
        (Align-cost (Align-dist (suc i) (suc j))))
