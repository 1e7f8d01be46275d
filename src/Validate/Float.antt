-- ===== src/Validate/Float.antt =====
-- The comparison of two confidences in internal/service/validate_v1.go, in float64. A confidence is
-- `math.Round(score*10000) / 10000`, the float64 next to a multiple of one ten-thousandth. All these
-- numbers are multiples of 2^-66, the unit here.
pub mod Near
use address_quality.Prelude.{
  ℕ, ℤ, zero, suc, Bool, true, false, ◌+◌, if◌then◌else◌, ◌*◌, pos_part, ltb, neg_part, ◌%◌, ◌-◌,
  ◌/◌, ◌==◌, nat_eq,
}

-- The distance of two float64 numbers around k/10000: from 2^-66 on it doubles with each power of
-- two. 64 powers of two are more than any int64 k needs.
unfoldable pub spacing : ℕ → ℕ → ℕ → ℕ
spacing zero unit k = unit
spacing (suc more) unit k =
    let wider = spacing more (unit + unit) k in
    if ltb (k * 73786976294838206464) (unit * 90071992547409920000) then unit else wider

-- a / b, rounded to the next number, and half-way to the even one.
unfoldable pub round_even : ℕ → ℕ → ℕ
round_even a b =
    if ltb (a % b + a % b) b
    then a / b
    else if ltb b (a % b + a % b)
    then a / b + 1
    else if a / b % 2 == 0
    then a / b
    else a / b + 1

-- The float64 next to k/10000.
unfoldable pub float_of : ℕ → ℕ
float_of k =
    let unit = spacing 64 1 k in round_even (k * 73786976294838206464) (unit * 10000) * unit

-- math.Abs(top-second) < 0.1. The difference is rounded to a float64 before it is compared with the
-- float64 next to 0.1; it is rounded to a smaller one exactly when it is below the middle between
-- that and the float64 before it.
unfoldable pub is_close : ℤ → ℤ → Bool
is_close a b =
    let x = float_of (pos_part a) + float_of (neg_part b) in
    let y = float_of (pos_part b) + float_of (neg_part a) in
    ltb (x - y + (y - x)) 7378697629483820544
