-- ===== src/Base/Float.antt =====
-- Python's floats as far as the engines use them: non-negative binary64 numbers.
pub mod Exact
pub mod Order
pub mod Scale
use Prim.Native.Nat.{ℕ, zero, suc, ◌+◌, ◌-◌, ◌*◌, ◌/◌, ◌%◌, ◌^◌}
use mathlib.Core.Path.{◌≡◌, refl}
use mathlib.Core.Bool.{Bool, true, false}
use firmos.Base.Int.{ℤ, pos, negsuc, ◌-ℤ◌}
use firmos.Base.Tests.{ltb, if◌then◌else◌}

-- The number mant / 2 ^ shift.
pub record Float : Type 0 where
  pub mant : ℕ
  pub shift : ℕ

-- a / b to the nearest integer, ties to the even one.
unfoldable pub round_half_even : ℕ → ℕ → ℕ
round_half_even a b =
    let q = a / b in
    let r = a % b in if ltb (2 * r) b then q else if ltb b (2 * r) then q + 1 else q + q % 2

-- How often n doubles below the bound, at most `fuel` times.
unfoldable pub doublings : ℕ → ℕ → ℕ → ℕ
doublings zero n bound = 0
doublings (suc f) n bound = elim (ltb (n * 2) bound) [
  | true ↦ suc (doublings f (n * 2) bound)
  | false ↦ 0
]

-- How often the bound has to double to pass n, at most `fuel` times.
unfoldable pub growths : ℕ → ℕ → ℕ → ℕ
growths zero n bound = 0
growths (suc f) n bound = elim (ltb n bound) [ true ↦ 0 | false ↦ suc (growths f n (bound * 2)) ]

-- Binary64: 53 bits of mantissa, no binary place beyond 1074, exponents up to 971.
unfoldable pub precision : ℕ
precision = 2 ^ 53

unfoldable pub max_shift : ℕ
max_shift = 1074

unfoldable pub max_growth : ℕ
max_growth = 971

-- The float nearest to n / d.
unfoldable pub round_ratio : ℕ → ℕ → Float
unfolding round_half_even doublings growths precision max_shift max_growth
round_ratio n d =
    let small = doublings max_shift n (d * precision) in
    let large = growths max_growth n (d * precision) in
    if ltb n (d * precision)
    then record { mant = round_half_even (n * 2 ^ small) d; shift = small }
    else record { mant = round_half_even n (d * 2 ^ large) * 2 ^ large; shift = 0 }

-- `int(x)` truncates.
unfoldable pub trunc : Float → ℕ
trunc x = x.mant / 2 ^ x.shift

-- `float(n)`, `x * y`, `x / y`, `x + y`.
unfoldable pub of_int : ℕ → Float
unfolding round_ratio
of_int n = round_ratio n 1

unfoldable pub mul : Float → Float → Float
unfolding round_ratio
mul x y = round_ratio (x.mant * y.mant) (2 ^ (x.shift + y.shift))

unfoldable pub div : Float → Float → Float
unfolding round_ratio
div x y = round_ratio (x.mant * 2 ^ y.shift) (y.mant * 2 ^ x.shift)

unfoldable pub add : Float → Float → Float
unfolding round_ratio
add x y = round_ratio (x.mant * 2 ^ y.shift + y.mant * 2 ^ x.shift) (2 ^ (x.shift + y.shift))

-- `max(0, x - y)`
unfoldable pub sub_or_zero : Float → Float → Float
unfolding round_ratio
sub_or_zero x y =
    round_ratio (x.mant * 2 ^ y.shift - y.mant * 2 ^ x.shift) (2 ^ (x.shift + y.shift))

-- `round(x, 2)`: the exact value to two decimals, ties to the even one.
unfoldable pub round2 : Float → Float
unfolding round_ratio round_half_even
round2 x = round_ratio (round_half_even (x.mant * 100) (2 ^ x.shift)) 100

-- `x < y`
unfoldable pub lt_float : Float → Float → Bool
lt_float x y = ltb (x.mant * 2 ^ y.shift) (y.mant * 2 ^ x.shift)

-- `int(n / d)` on integers n >= 0 and d > 0: one rounding, then truncation.
unfoldable pub int_div : ℕ → ℕ → ℕ
unfolding round_ratio trunc
int_div n d = trunc (round_ratio n d)

-- `int(paise * rate / 100)`: float division rounds by magnitude, and `int` cuts towards zero.
unfoldable pub int_percent : ℤ → ℕ → ℤ
unfolding int_div
int_percent (pos n) rate = pos (int_div (n * rate) 100)
int_percent (negsuc n) rate = pos 0 -ℤ pos (int_div (suc n * rate) 100)

int_div_test : int_div 12345678901 100 ≡ 123456789
unfolding int_div
int_div_test = refl
