-- ===== src/Base/Float/Order.antt =====
-- The order of Float.
use native.Mathlib.Nat.{le_trans, le_of_mul-le-mul_right, mul-le-mul_right}
use firmos.Base.{ℕ, ◌*◌, ◌^◌, ◌≤◌, ◌≡◌, true, false, arith}
use firmos.Base.Float.{Float, lt_float}
use firmos.Base.Float.Exact.{pow_pos}

scaled_trans : (a b c p q r : ℕ) → 1 ≤ q → a * q ≤ b * p → b * r ≤ c * q → a * r ≤ c * p
scaled_trans a b c p q r h ab bc =
    let first : a * r * q ≤ b * p * r = omega (arith, mul-le-mul_right r ab) in
    let second : b * p * r ≤ c * p * q = omega (arith, mul-le-mul_right p bc) in
    le_of_mul-le-mul_right (le_trans first second) h

-- No order is reversed along three floats.
pub lt_float-false_trans :
    (x y z : Float) → lt_float y x ≡ false → lt_float z y ≡ false → lt_float z x ≡ false
unfolding lt_float
lt_float-false_trans x y z h h' = ground (
  arith,
  scaled_trans x.mant y.mant z.mant (2 ^ x.shift) (2 ^ y.shift) (2 ^ z.shift) (pow_pos y.shift),
)

pub lt_float_asym : (x y : Float) → lt_float x y ≡ true → lt_float y x ≡ false
unfolding lt_float
lt_float_asym x y h = ground arith

pub lt_float_irrefl : (x : Float) → lt_float x x ≡ false
unfolding lt_float
lt_float_irrefl x = ground arith
