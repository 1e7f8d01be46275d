-- ===== src/Validate/Float/Near.antt =====
-- How far the comparison in float64 may differ from one of the numbers of ten-thousandths.
use address_quality.Prelude.{
  ℕ, ℤ, zero, suc, Bool, true, ◌+◌, ◌≤◌, ◌*◌, arith, ◌<◌, Bool-cases, ltb, inl, inr, ◌≡◌,
  if◌then◌else◌, subst, ap, ◌%◌, ◌/◌, pos_part, leb, ◌-◌, ◌∙◌, neg_part, ◌&&◌, ◌==◌, nat_eq,
}
use native.Mathlib.Nat.{add-mul, mul_comm, mul_assoc, mod-lt}
use native.Mathlib.Omega.{div_any}
use address_quality.Validate.Float.{spacing, round_even, float_of, is_close}

-- `unit` doubled n times
abbrev doubled : ℕ → ℕ → ℕ
doubled zero unit = unit
doubled (suc n) unit = doubled n (unit + unit)

le-doubled : (n unit : ℕ) → unit ≤ doubled n unit
le-doubled zero unit = omega arith
le-doubled (suc n) unit = omega (arith, le-doubled n (unit + unit))

spacing-le :
    (n fuel unit k : ℕ)
    → n ≤ fuel
    → k * 73786976294838206464 < doubled n unit * 90071992547409920000
    → spacing fuel unit k ≤ doubled n unit
unfolding spacing
spacing-le zero zero unit k g h = omega arith
spacing-le zero (suc fuel) unit k g h = ground (arith, h)
spacing-le (suc n) zero unit k g h = absurd (omega (arith, g))
spacing-le (suc n) (suc fuel) unit k g h =
    elim (Bool-cases (ltb (k * 73786976294838206464) (unit * 90071992547409920000))) [
      | inl here ↦ rw (spacing, here) (omega (arith, le-doubled (suc n) unit))
      | inr further ↦ rw (spacing, further) (spacing-le n fuel (unit + unit) k (omega (arith, g)) h)
    ]

next_multiple : (q b : ℕ) → (q + 1) * b ≡ q * b + b
next_multiple q b = omega (arith, add-mul q 1 b)

rounded :
    (q r b : ℕ) (even : Bool)
    → r < b
    → let v =
        if ltb (r + r) b then q else if ltb b (r + r) then q + 1 else if even then q else q + 1 in
      (2 * (v * b) ≤ 2 * (q * b + r) + b) × (2 * (q * b + r) ≤ 2 * (v * b) + b)
rounded q r b even h = elim (Bool-cases (ltb (r + r) b)) [
  | inl below ↦ rw below (ground arith, ground arith)
  | inr not_below ↦ elim (Bool-cases (ltb b (r + r))) [
    | inl above ↦ rw (not_below, above, next_multiple q b) (ground arith, ground arith)
    | inr half ↦ elim (Bool-cases even) [
      | inl stays ↦ rw (not_below, half, stays) (ground arith, ground arith)
      | inr goes ↦ rw (not_below, half, goes, next_multiple q b) (ground arith, ground arith)
    ]
  ]
]

round_even-near :
    (a b : ℕ)
    → 1 ≤ b
    → (2 * (round_even a b * b) ≤ 2 * a + b) × (2 * a ≤ 2 * (round_even a b * b) + b)
unfolding round_even
round_even-near a b h =
    subst (λ x. (2 * (round_even a b * b) ≤ 2 * x + b) × (2 * x ≤ 2 * (round_even a b * b) + b))
      (ap (λ y. y + a % b) (mul_comm (a / b) b) ∙ div_any a b)
      (rounded (a / b) (a % b) b (a / b % 2 == 0) (mod-lt a h))

ge-spacing : (fuel unit k : ℕ) → unit ≤ spacing fuel unit k
unfolding spacing
ge-spacing zero unit k = omega arith
ge-spacing (suc fuel) unit k = ground (arith, ge-spacing fuel (unit + unit) k)

-- The float64 next to k/10000 is less than 2^49 units off.
float_of-near :
    (k : ℕ)
    → k ≤ 1000000000000000
    → (2 * (float_of k * 10000) ≤ 2 * (k * 73786976294838206464) + 11258999068426240000)
      × (2 * (k * 73786976294838206464) ≤ 2 * (float_of k * 10000) + 11258999068426240000)
unfolding float_of
float_of-near k h =
    let unit = spacing 64 1 k in
    let least : 1 ≤ unit = ge-spacing 64 1 k in
    let most : unit ≤ 1125899906842624 = spacing-le 50 64 1 k (omega arith) (omega (arith, h)) in
    let (above, below) =
      round_even-near (k * 73786976294838206464) (unit * 10000) (omega (arith, least)) in
    let whole = mul_assoc (round_even (k * 73786976294838206464) (unit * 10000)) unit 10000 in
    (omega (arith, whole, above, most), omega (arith, whole, below, most))

-- The distance of two confidences, in ten-thousandths.
abbrev pub distance : ℤ → ℤ → ℕ
distance a b = let x = pos_part a + neg_part b in let y = pos_part b + neg_part a in x - y + (y - x)

-- A number of ten-thousandths that float64 tells apart from its neighbors.
abbrev pub is_moderate : ℤ → Bool
is_moderate a = leb (pos_part a) 1000000000000000 && leb (neg_part a) 1000000000000000

numbers_near :
    (p n p' n' f g f' g' : ℕ)
    → 2 * (f * 10000) ≤ 2 * (p * 73786976294838206464) + 11258999068426240000
    → 2 * (p * 73786976294838206464) ≤ 2 * (f * 10000) + 11258999068426240000
    → 2 * (g * 10000) ≤ 2 * (n * 73786976294838206464) + 11258999068426240000
    → 2 * (n * 73786976294838206464) ≤ 2 * (g * 10000) + 11258999068426240000
    → 2 * (f' * 10000) ≤ 2 * (p' * 73786976294838206464) + 11258999068426240000
    → 2 * (p' * 73786976294838206464) ≤ 2 * (f' * 10000) + 11258999068426240000
    → 2 * (g' * 10000) ≤ 2 * (n' * 73786976294838206464) + 11258999068426240000
    → 2 * (n' * 73786976294838206464) ≤ 2 * (g' * 10000) + 11258999068426240000
    → let d = p + n' - (p' + n) + (p' + n - (p + n')) in
      let e = f + g' - (f' + g) + (f' + g - (f + g')) in
      (d < 1000 → e < 7378697629483820544) × (e < 7378697629483820544 → d ≤ 1000)
numbers_near p n p' n' f g f' g' h1 h2 h3 h4 h5 h6 h7 h8 =
    (λ near. omega arith, λ close. omega arith)

-- Two confidences are close in float64 when they are less than 0.1 apart, and only when they are not
-- more than 0.1 apart.
pub is_close-distance :
    (a b : ℤ)
    → is_moderate a ≡ true
    → is_moderate b ≡ true
    → (ltb (distance a b) 1000 ≡ true → is_close a b ≡ true)
      × (is_close a b ≡ true → leb (distance a b) 1000 ≡ true)
unfolding is_close
is_close-distance a b ha hb =
    let (f1, f2) = float_of-near (pos_part a) (ground (arith, ha)) in
    let (g1, g2) = float_of-near (neg_part a) (ground (arith, ha)) in
    let (k1, k2) = float_of-near (pos_part b) (ground (arith, hb)) in
    let (l1, l2) = float_of-near (neg_part b) (ground (arith, hb)) in
    let (near, far) =
      numbers_near (pos_part a) (neg_part a) (pos_part b) (neg_part b) (float_of (pos_part a))
        (float_of (neg_part a)) (float_of (pos_part b)) (float_of (neg_part b)) f1 f2 g1 g2 k1 k2 l1
        l2 in
    (
      λ h. let close = near (ground (arith, h)) in ground (arith, close),
      λ h. let apart = far (ground (arith, h)) in ground (arith, apart),
    )
