-- ===== src/Base/Float/Exact.antt =====
-- Where the division of Float is exact.
use native.Mathlib.Nat.{
  le_trans, pow-le-pow_right, mul-le-mul_right, mul-le-mul_left, le-div_iff_mul-le, div-mul-le_self,
  lt-div-mul-add, div-lt_iff_lt-mul, div-add-mod', pow-suc,
}
use firmos.Base.{
  ℕ, zero, suc, ◌+◌, ◌*◌, ◌/◌, ◌%◌, ◌^◌, ◌≤◌, ◌<◌, ◌≡◌, ap, inl, inr, true, false, arith, ltb,
  Bool-cases, ltb→lt, lt→ltb,
}
use firmos.Base.Int.{pos}
use firmos.Base.Float.{round_half_even, doublings, precision, max_shift, int_div, int_percent}

double_pow : (n k : ℕ) → n * 2 ^ suc k ≡ n * 2 * 2 ^ k
double_pow n k = rw pow-suc (grind arith)

pub pow_pos : (k : ℕ) → 1 ≤ 2 ^ k
pow_pos zero = omega arith
pow_pos (suc k) = rw pow-suc (omega (arith, pow_pos k))

doublings_more :
    (f n b : ℕ) → ltb (n * 2) b ≡ true → doublings (suc f) n b ≡ suc (doublings f (n * 2) b)
unfolding doublings
doublings_more f n b h = rw (h, doublings)

doublings_done : (f n b : ℕ) → ltb (n * 2) b ≡ false → doublings (suc f) n b ≡ 0
unfolding doublings
doublings_done f n b h = rw (h, doublings)

-- The doubled number stays below the bound.
pub doublings-lt : (f n b : ℕ) → n < b → n * 2 ^ doublings f n b < b
doublings-lt zero n b h = unfold doublings in omega arith
doublings-lt (suc f) n b h = elim (Bool-cases (ltb (n * 2) b)) [
  | inl more ↦
      rw (doublings_more f n b more, double_pow) (doublings-lt f (n * 2) b (ltb→lt _ _ more))
  | inr done ↦ rw (doublings_done f n b done) (omega arith)
]

-- Every doubling that fits is made.
pub le-doublings : (f n b k : ℕ) → k ≤ f → n * 2 ^ k < b → k ≤ doublings f n b
le-doublings f n b zero h lt = omega arith
le-doublings zero n b (suc k) h lt = absurd (omega arith)
le-doublings (suc f) n b (suc k) h lt =
    let fits : n * 2 * 2 ^ k < b = rw double_pow at lt in
    let one : n * 2 < b = grind (arith, pow_pos k) in
    rw (doublings_more f n b (lt→ltb _ _ one))
      (omega (arith, le-doublings f (n * 2) b k (omega arith) fits))

div_unique : (m p q : ℕ) → q * p ≤ m → m < q * p + p → m / p ≡ q
div_unique m p q lo hi = grind arith

module _ (n d p : ℕ) (dp : 0 < d) (dle : d ≤ p) where
  quotient-ge : n / d * p ≤ n * p / d
  quotient-ge = (le-div_iff_mul-le dp).1 (omega (arith, mul-le-mul_right p (div-mul-le_self n d)))

  scaled : n * p + p ≤ n / d * d * p + d * p
  scaled = omega (arith, mul-le-mul_right p (lt-div-mul-add {a = n} dp))

  quotient-lt : n * p / d < n / d * p + p
  quotient-lt = (div-lt_iff_lt-mul dp).1 (omega (arith, scaled))

  -- At the last integer below the next quotient nothing is left to round up.
  remainder-zero : n * p / d + 1 ≡ n / d * p + p → n * p % d ≡ 0
  remainder-zero e = omega (arith, scaled, div-add-mod' (n * p) d, ap (λ (t : ℕ). t * d) e)

  round-ge : n / d * p ≤ round_half_even (n * p) d
  unfolding round_half_even
  round-ge = ground (arith, quotient-ge)

  round-lt : round_half_even (n * p) d < n / d * p + p
  unfolding round_half_even
  round-lt = ground (arith, quotient-lt, remainder-zero)

  pub round-floor : round_half_even (n * p) d / p ≡ n / d
  round-floor = div_unique _ p _ round-ge round-lt

wide_enough : (d : ℕ) → d ≤ 100 → d ≤ 2 ^ 7
wide_enough d h = omega arith

-- A quotient below 2 ^ 46 by at most 100 truncates exactly.
pub int_div-exact : (n d : ℕ) → 0 < d → d ≤ 100 → n < d * 2 ^ 46 → int_div n d ≡ n / d
unfolding int_div precision max_shift
int_div-exact n d dp dle small =
    let s = doublings 1074 n (d * 2 ^ 53) in
    let wide : 7 ≤ s = le-doublings 1074 n (d * 2 ^ 53) 7 (omega arith) (omega arith) in
    rw (lt→ltb n (d * 2 ^ 53) (omega arith)) (
      round-floor n d (2 ^ s) dp
        (le_trans (wide_enough d dle) (pow-le-pow_right (omega arith) wide)))

pub int_div_percent :
    (n rate : ℕ) → n < 10 ^ 13 → rate ≤ 100 → int_div (n * rate) 100 ≡ n * rate / 100
int_div_percent n rate small le =
    let bound : n * rate ≤ n * 100 = mul-le-mul_left n le in
    int_div-exact (n * rate) 100 (omega arith) (omega arith) (omega arith)

-- So a percentage of at most 100 of less than 10 ^ 13 is exact.
pub int_percent-exact :
    (n rate : ℕ) → n < 10 ^ 13 → rate ≤ 100 → int_percent (pos n) rate ≡ pos (n * rate / 100)
unfolding int_percent
int_percent-exact n rate small le = ap pos (int_div_percent n rate small le)
