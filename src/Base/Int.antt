-- ===== src/Base/Int.antt =====
-- Python's unbounded signed integers over the native numbers, under the library's names.
use Prim.Native.Nat.{ℕ, suc, ◌+◌, ◌-◌, ◌*◌, ◌/◌, ◌≤◌}
use mathlib.Core.Path.{◌≡◌}
use mathlib.Core.Bool.{Bool, true, false}
use native.Mathlib.Omega.{arith}
use firmos.Base.Tests.{ltb, leb, ◌==◌, if◌then◌else◌}

-- `negsuc n` is -(n + 1).
pub data ℤ : Type 0 where
  pos : ℕ → ℤ
  negsuc : ℕ → ℤ

abbrev pub pos_part : ℤ → ℕ
pos_part (pos n) = n
pos_part (negsuc _) = 0

abbrev pub neg_part : ℤ → ℕ
neg_part (pos _) = 0
neg_part (negsuc n) = suc n

-- a - b, as an integer.
abbrev pub sub_ℕ : ℕ → ℕ → ℤ
sub_ℕ a b = if leb b a then pos (a - b) else negsuc (b - a - 1)

infixl 65 ◌+ℤ◌ ◌-ℤ◌
infix 50 ◌≤ℤ◌
unfoldable pub ◌+ℤ◌ : ℤ → ℤ → ℤ
a +ℤ b = sub_ℕ (pos_part a + pos_part b) (neg_part a + neg_part b)

unfoldable pub ◌-ℤ◌ : ℤ → ℤ → ℤ
a -ℤ b = sub_ℕ (pos_part a + neg_part b) (neg_part a + pos_part b)

abbrev pub ◌≤ℤ◌ : ℤ → ℤ → Type 0
a ≤ℤ b = pos_part a + neg_part b ≤ pos_part b + neg_part a

abbrev pub ltb_ℤ : ℤ → ℤ → Bool
ltb_ℤ a b = ltb (pos_part a + neg_part b) (pos_part b + neg_part a)

abbrev pub leb_ℤ : ℤ → ℤ → Bool
leb_ℤ a b = leb (pos_part a + neg_part b) (pos_part b + neg_part a)

abbrev pub eqb_ℤ : ℤ → ℤ → Bool
eqb_ℤ a b = pos_part a + neg_part b == pos_part b + neg_part a

-- `abs(a)`, `max(0, a)`, `min(a, b)`; the first two are numbers.
abbrev pub abs : ℤ → ℕ
abs (pos n) = n
abs (negsuc n) = suc n

abbrev pub max0 : ℤ → ℕ
max0 a = pos_part a

abbrev pub min_ℤ : ℤ → ℤ → ℤ
min_ℤ a b = if ltb_ℤ b a then b else a

-- `a // 2`, which rounds down.
unfoldable pub half_ℤ : ℤ → ℤ
half_ℤ (pos n) = pos (n / 2)
half_ℤ (negsuc n) = negsuc (n / 2)

-- `a * k` and `a // d` by a natural number; the quotient rounds down.
unfoldable pub scale_ℤ : ℤ → ℕ → ℤ
unfolding ◌-ℤ◌
scale_ℤ (pos n) k = pos (n * k)
scale_ℤ (negsuc n) k = pos 0 -ℤ pos (suc n * k)

unfoldable pub floor_div_ℤ : ℤ → ℕ → ℤ
floor_div_ℤ (pos n) d = pos (n / d)
floor_div_ℤ (negsuc n) d = negsuc (n / d)

pub +ℤ_parts :
    (a b : ℤ)
    → pos_part (a +ℤ b) + neg_part a + neg_part b ≡ neg_part (a +ℤ b) + pos_part a + pos_part b
unfolding ◌+ℤ◌
+ℤ_parts a b = ground arith

pub -ℤ_parts :
    (a b : ℤ)
    → pos_part (a -ℤ b) + neg_part a + pos_part b ≡ neg_part (a -ℤ b) + pos_part a + neg_part b
unfolding ◌-ℤ◌
-ℤ_parts a b = ground arith

pub eq_of_parts : (a b : ℤ) → pos_part a + neg_part b ≡ pos_part b + neg_part a → a ≡ b
eq_of_parts a b h = ground arith

-- The half is exact up to one unit.
pub half_ℤ_bounds : (a : ℤ) → (half_ℤ a +ℤ half_ℤ a ≤ℤ a) × (a ≤ℤ half_ℤ a +ℤ half_ℤ a +ℤ pos 1)
unfolding half_ℤ ◌+ℤ◌
half_ℤ_bounds (pos n) = ground arith
half_ℤ_bounds (negsuc n) = ground arith

pub ruleset int_laws = (arith, +ℤ_parts, -ℤ_parts, eq_of_parts)

pub zero_left : (a : ℤ) → pos 0 +ℤ a ≡ a
zero_left a = grind int_laws

pub zero_right : (a : ℤ) → a +ℤ pos 0 ≡ a
zero_right a = grind int_laws

-- One conditional addition before the rest of a sum.
pub add_if :
    (b : Bool) (s a rest : ℤ)
    → (if b then s +ℤ a else s) +ℤ rest ≡ s +ℤ ((if b then a else pos 0) +ℤ rest)
add_if true s a rest = grind int_laws
add_if false s a rest = grind int_laws
