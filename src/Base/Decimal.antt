-- ===== src/Base/Decimal.antt =====
-- Python's decimals as far as products and comparisons of them stay exact: an integer over a power of
-- ten.
use Prim.Native.Nat.{ℕ, suc, ◌+◌, ◌*◌, ◌/◌, ◌^◌}
use mathlib.Core.Bool.{Bool}
use firmos.Base.Int.{ℤ, pos, negsuc, ◌-ℤ◌, abs, scale_ℤ}
use firmos.Base.Tests.{ltb}

pub record Decimal : Type 0 where
  pub mant : ℤ
  pub places : ℕ

abbrev pub negate : ℕ → ℤ
negate n = pos 0 -ℤ pos n

abbrev pub mul_ℤ : ℤ → ℤ → ℤ
mul_ℤ a (pos n) = scale_ℤ a n
mul_ℤ a (negsuc n) = pos 0 -ℤ scale_ℤ a (suc n)

abbrev pub mul_decimal : Decimal → Decimal → Decimal
mul_decimal a b = record { mant = mul_ℤ a.mant b.mant; places = a.places + b.places }

abbrev pub sub_decimal : Decimal → Decimal → Decimal
sub_decimal a b = record {
  mant = scale_ℤ a.mant (10 ^ b.places) -ℤ scale_ℤ b.mant (10 ^ a.places);
  places = a.places + b.places;
}

-- `abs(a) > n`
abbrev pub beyond_decimal : Decimal → ℕ → Bool
beyond_decimal a n = ltb (n * 10 ^ a.places) (abs a.mant)

-- `int(a)` cuts towards zero.
abbrev pub trunc_decimal : Decimal → ℤ
trunc_decimal a = elim a.mant [
  | pos n ↦ pos (n / 10 ^ a.places)
  | negsuc n ↦ negate (suc n / 10 ^ a.places)
]
