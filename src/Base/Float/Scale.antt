-- ===== src/Base/Float/Scale.antt =====
-- A quotient of floats depends on the ratio alone: what both sides are multiplied by cancels.
use native.Mathlib.Nat.{
  mul-div-mul_right, mul-lt-mul_of_pos_right, mul-le-mul_right, mul-le-mul_left, div-add-mod',
}
use firmos.Base.{
  Bool, ℕ, zero, suc, ◌+◌, ◌*◌, ◌/◌, ◌%◌, ◌^◌, ◌≤◌, ◌<◌, ◌≡◌, ◌∙◌, sym, ap, refl, inl, inr, true,
  false, arith, ltb, Bool-cases, ltb→lt, lt→ltb,
}
use firmos.Base.Float.{
  round_half_even, doublings, precision, max_shift, round_ratio, trunc, of_int, mul, div, int_div,
}
use firmos.Base.Float.Exact.{pow_pos, int_div_percent}

ltb_scale : (x y c : ℕ) → 0 < c → ltb (x * c) (y * c) ≡ ltb x y
ltb_scale x y c h = elim (Bool-cases (ltb x y)) [
  | inl below ↦ lt→ltb _ _ (mul-lt-mul_of_pos_right (ltb→lt _ _ below) h) ∙ sym below
  | inr above ↦
      let le : y ≤ x = ground arith in
      let more : y * c ≤ x * c = mul-le-mul_right c le in ground arith
]

rem_scale : (a b c : ℕ) → 0 < c → (a * c) % (b * c) ≡ a % b * c
rem_scale a b c h = grind (
  arith,
  div-add-mod' (a * c) (b * c),
  ap (λ (t : ℕ). t * c) (div-add-mod' a b),
  mul-div-mul_right {m = c} a b h,
)

round_half_even_scale : (a b c : ℕ) → 0 < c → round_half_even (a * c) (b * c) ≡ round_half_even a b
unfolding round_half_even
round_half_even_scale a b c h =
    let twice : 2 * (a % b * c) ≡ 2 * (a % b) * c = grind arith in
    rw
      (
        rem_scale a b c h,
        mul-div-mul_right {m = c} a b h,
        twice,
        ltb_scale (2 * (a % b)) b c h,
        ltb_scale b (2 * (a % b)) c h,
      )
      refl

doublings_scale : (f n b c : ℕ) → 0 < c → doublings f (n * c) (b * c) ≡ doublings f n b
unfolding doublings
doublings_scale zero n b c h = refl
doublings_scale (suc f) n b c h =
    let turn : n * c * 2 ≡ n * 2 * c = grind arith in
    let more : Bool → ℕ → ℕ = λ fits k. elim fits [ true ↦ suc k | false ↦ 0 ] in
    ap (λ m. more (ltb m (b * c)) (doublings f m (b * c))) turn
    ∙ ap (λ t. more t (doublings f (n * 2 * c) (b * c))) (ltb_scale (n * 2) b c h)
    ∙ ap (more (ltb (n * 2) b)) (doublings_scale f (n * 2) b c h)

pub round_ratio_scale :
    (n d c : ℕ) → 0 < c → n < d * 2 ^ 53 → round_ratio (n * c) (d * c) ≡ round_ratio n d
unfolding round_ratio precision
round_ratio_scale n d c h small =
    let turn : d * c * 2 ^ 53 ≡ d * 2 ^ 53 * c = grind arith in
    let fits = lt→ltb n (d * 2 ^ 53) small in
    let shift = doublings max_shift n (d * 2 ^ 53) in
    let above : n * c * 2 ^ shift ≡ n * 2 ^ shift * c = grind arith in
    rw
      (
        turn,
        ltb_scale n (d * 2 ^ 53) c h,
        fits,
        doublings_scale max_shift n (d * 2 ^ 53) c h,
        above,
        round_half_even_scale (n * 2 ^ shift) d c h,
      )
      refl

round_half_even-one : (a : ℕ) → round_half_even a 1 ≡ a
unfolding round_half_even
round_half_even-one a = ground arith

-- An integer below 2 ^ 53 is a float.
whole_ratio :
    (n : ℕ) → n < 2 ^ 53 → (s : ℕ) × (round_ratio n 1 ≡ record { mant = n * 2 ^ s; shift = s })
unfolding round_ratio precision
whole_ratio n small =
    let s = doublings max_shift n (1 * 2 ^ 53) in
    (s, rw (lt→ltb n (1 * 2 ^ 53) (omega arith), round_half_even-one (n * 2 ^ s)) refl)

-- The product with an integer, and the quotient by 100 of a product.
product_ratio :
    (n r s : ℕ) → n * r < 2 ^ 53 → round_ratio (n * 2 ^ s * r) (2 ^ (s + 0)) ≡ round_ratio (n * r) 1
product_ratio n r s small =
    let turn : n * 2 ^ s * r ≡ n * r * 2 ^ s = grind arith in
    let exponent : s + 0 ≡ s = omega arith in
    let one : 1 * 2 ^ s ≡ 2 ^ s = omega arith in
    let scaled = round_ratio_scale (n * r) 1 (2 ^ s) (pow_pos s) (omega arith) in
    rw (turn, exponent) (rw one at scaled)

quotient_ratio :
    (m s : ℕ) → m < 2 ^ 53 → round_ratio (m * 2 ^ s * 2 ^ 0) (100 * 2 ^ s) ≡ round_ratio m 100
quotient_ratio m s small =
    let turn : m * 2 ^ s * 2 ^ 0 ≡ m * 2 ^ s = omega arith in
    rw turn (round_ratio_scale m 100 (2 ^ s) (pow_pos s) (omega arith))

-- `int(n * r / 100)` with a float r that is an integer is the integer quotient.
pub percent-exact :
    (n r : ℕ)
    → n < 10 ^ 13
    → r ≤ 100
    → trunc
        (div (mul (of_int n) (record { mant = r; shift = 0 })) (record { mant = 100; shift = 0 }))
      ≡ n * r / 100
unfolding of_int mul div int_div
percent-exact n r small le =
    let bound : n * r ≤ n * 100 = mul-le-mul_left n le in
    let (s, first) = whole_ratio n (omega arith) in
    let (t, second) = whole_ratio (n * r) (omega arith) in
    let exact : int_div (n * r) 100 ≡ n * r / 100 = int_div_percent n r small le in
    rw (first, product_ratio n r s (omega arith), second, quotient_ratio (n * r) t (omega arith))
      exact
