-- ===== src/Money/Laws.antt =====
-- Theorems on firmos-backend/core/money.py.
use native.Mathlib.Nat.{
  div-mul-le_self, lt-div-mul-add, one-le-pow, le-div_iff_mul-le, mul-le-mul_right, le_trans,
  pow-suc,
}
use firmos.Base.{
  ℕ, zero, suc, ◌+◌, ◌*◌, ◌/◌, ◌^◌, ◌≤◌, ◌≡◌, ◌∙◌, ap, inl, inr, refl, Bool, true, false, ◌&&◌, not,
  if◌then◌else◌, ltb, ◌==◌, Bool-cases, arith, Option, some,
}
use firmos.Base.Int.{ℤ, pos, negsuc, ◌-ℤ◌, abs}
use firmos.Base.Decimal.{Decimal}
use firmos.Base.Float.{round_half_even}
use firmos.Base.Text.{Text}
use firmos.Money.{
  Number, finite, written, cleaned, parse_decimal, rupees_to_paise, Converted, converted, ◌>>=◌,
  money_parse_error, invalid_operation, hundredths, signed, quantize, is_exact, digits_limit,
  decimal_to_paise, paise_to_decimal, excess, significant, divide_by_100, quantize_even,
}

hundredths-two : (n : ℕ) → hundredths n 2 ≡ n
hundredths-two n = omega arith

signed-abs : (v : ℤ) → signed v (abs v) ≡ v
unfolding ◌-ℤ◌
signed-abs (pos n) = refl
signed-abs (negsuc n) = ground arith

abs-signed : (v : ℤ) (k : ℕ) → abs (signed v k) ≡ k
unfolding ◌-ℤ◌
abs-signed (pos n) k = refl
abs-signed (negsuc n) k = ground arith

hundredths-two_exact : (v : ℤ) → is_exact (record { mant = v; places = 2 }) ≡ true
hundredths-two_exact v = ground (arith, hundredths-two (abs v))

if_and_false {ℓ} : {A : Type ℓ} (b : Bool) (x y : A) → (if b && false then x else y) ≡ y
if_and_false true x y = refl
if_and_false false x y = refl

quantize-two :
    (v : ℤ)
    → ltb (abs v) (10 ^ digits_limit) ≡ true
    → quantize (record { mant = v; places = 2 }) ≡ converted v
unfolding quantize
quantize-two v small =
    ap (λ k. if ltb k (10 ^ digits_limit) then converted (signed v k) else invalid_operation)
      (hundredths-two (abs v))
    ∙ rw small (ap converted (signed-abs v))

decimal_to_paise-two :
    (strict_precision : Bool) (v : ℤ)
    → ltb (abs v) (10 ^ digits_limit) ≡ true
    → decimal_to_paise strict_precision (record { mant = v; places = 2 }) ≡ converted v
unfolding decimal_to_paise
decimal_to_paise-two strict_precision v small =
    let check : Bool → ℤ → Converted ℤ =
      λ e paise. if strict_precision && not e then money_parse_error else converted paise in
    ap (λ r. r >>= check (is_exact (record { mant = v; places = 2 }))) (quantize-two v small)
    ∙ ap (λ e. check e v) (hundredths-two_exact v)
    ∙ if_and_false strict_precision money_parse_error (converted v)

even-one : (n : ℕ) → round_half_even n 1 ≡ n
unfolding round_half_even
even-one n = ground arith

even-hundred : (n : ℕ) → round_half_even (n * 100) 100 ≡ n
unfolding round_half_even
even-hundred n = ground arith

excess_step : ℕ → ℕ → Bool → ℕ
excess_step fuel n fits = elim fits [ true ↦ 0 | false ↦ suc (excess fuel (n / 10)) ]

excess-fits : (fuel n : ℕ) → ltb n (10 ^ digits_limit) ≡ true → excess (suc fuel) n ≡ 0
unfolding excess excess_step
excess-fits fuel n fits = ap (excess_step fuel n) fits

excess-more :
    (fuel n : ℕ)
    → ltb n (10 ^ digits_limit) ≡ false
    → excess (suc fuel) n ≡ suc (excess fuel (n / 10))
unfolding excess excess_step
excess-more fuel n more = ap (excess_step fuel n) more

-- What has 28 digits at most is left as it is.
significant-fits : (n : ℕ) → ltb n (10 ^ digits_limit) ≡ true → significant n ≡ n
unfolding significant
significant-fits zero fits = unfold excess round_half_even in refl
significant-fits (suc n) fits = rw (excess-fits n (suc n) fits, even-one (suc n)) (omega arith)

excess-le : (fuel n : ℕ) → 10 ^ 27 ≤ n → 10 ^ excess fuel n * 10 ^ 27 ≤ n
excess-le zero n h = unfold excess in omega arith
excess-le (suc fuel) n h = elim (Bool-cases (ltb n (10 ^ digits_limit))) [
  | inl fits ↦ rw (excess-fits fuel n fits) (omega arith)
  | inr more ↦
      let big : 10 ^ 28 ≤ n = ground arith in
      rw (excess-more fuel n more, pow-suc) (omega (arith, excess-le fuel (n / 10) (omega arith)))
]

even-ge : (a b : ℕ) → a / b ≤ round_half_even a b
unfolding round_half_even
even-ge a b = ground arith

not_below : (a b : ℕ) → b ≤ a → ltb a b ≡ false
not_below a b h = ground arith

-- What has more stays at 10 ^ 28 or above.
significant-large :
    (n : ℕ) → ltb n (10 ^ digits_limit) ≡ false → ltb (significant n) (10 ^ digits_limit) ≡ false
unfolding significant
significant-large zero large = cc
significant-large (suc n) large =
    let e = excess n (suc n / 10) in
    let here : excess (suc n) (suc n) ≡ suc e = excess-more n (suc n) large in
    let unit = 10 ^ suc e in
    let big : 10 ^ 28 ≤ suc n = ground arith in
    let fits : unit * 10 ^ 27 ≤ suc n = rw here at (excess-le (suc n) (suc n) (omega arith)) in
    let ten : unit ≡ 10 ^ e * 10 = pow-suc 10 e in
    let positive = one-le-pow e 10 (omega arith) in
    let q : 10 ^ 27 ≤ suc n / unit =
      (le-div_iff_mul-le (omega (arith, ten, positive))).1 (omega arith) in
    let total : 10 ^ 27 * unit ≤ round_half_even (suc n) unit * unit =
      mul-le-mul_right unit (le_trans q (even-ge (suc n) unit)) in
    let above : 10 ^ 28 ≤ round_half_even (suc n) unit * unit =
      omega (arith, total, ten, positive) in
    rw here (not_below _ _ above)

-- The division and the quantization are exact where they do not raise.
paise_to_decimal-exact :
    (v : ℤ)
    → paise_to_decimal v ≡ (
        if ltb (abs v) (10 ^ digits_limit)
        then converted (record { mant = v; places = 2 })
        else invalid_operation)
unfolding paise_to_decimal quantize_even divide_by_100
paise_to_decimal-exact v =
    let k = significant (abs v) in
    let size : abs (signed v k) ≡ k = abs-signed v k in
    let hundred : round_half_even (abs (signed v k) * 100) (10 ^ 2) ≡ k =
      rw size (even-hundred k) in
    elim (Bool-cases (ltb (abs v) (10 ^ digits_limit))) [
      | inl small ↦
          let same = significant-fits (abs v) small in
          rw (hundred, same, small, signed-abs v, signed-abs v) refl
      | inr large ↦ rw (hundred, significant-large (abs v) large, large) refl
    ]

rupees_to_paise-finite :
    (decimal : Text → Option Number) (strict_precision : Bool) (text : Text) (d : Decimal)
    → decimal (cleaned text) ≡ some (finite d)
    → rupees_to_paise decimal strict_precision (written text) ≡ decimal_to_paise strict_precision d
unfolding rupees_to_paise parse_decimal
rupees_to_paise-finite decimal strict_precision text d h = rw h refl

-- An amount below 10^28 paise is the amount that rupees_to_paise, in strict mode and not, makes of the text
-- of the Decimal that paise_to_decimal makes of it, if `Decimal` reads that text, cleaned, as that
-- Decimal. A larger amount raises InvalidOperation.
pub rupees_to_paise-paise_to_decimal :
    (decimal : Text → Option Number) (str : Decimal → Text) (strict_precision : Bool) (v : ℤ)
    → ((d : Decimal)
        → paise_to_decimal v ≡ converted d
        → decimal (cleaned (str d)) ≡ some (finite d))
    → (paise_to_decimal v >>= λ d. rupees_to_paise decimal strict_precision (written (str d)))
      ≡ (if ltb (abs v) (10 ^ digits_limit) then converted v else invalid_operation)
rupees_to_paise-paise_to_decimal decimal str strict_precision v reads =
    let d : Decimal = record { mant = v; places = 2 } in
    elim (Bool-cases (ltb (abs v) (10 ^ digits_limit))) [
      | inl small ↦
          let done : paise_to_decimal v ≡ converted d = rw small at (paise_to_decimal-exact v) in
          rw (done, small)
            (rupees_to_paise-finite decimal strict_precision (str d) d (reads d done)
              ∙ decimal_to_paise-two strict_precision v small)
      | inr large ↦
          let raised : paise_to_decimal v ≡ invalid_operation =
            rw large at (paise_to_decimal-exact v) in
          rw (raised, large) refl
    ]

-- Half up: twice the distance to the quotient is at most one unit.
half_up-nearest :
    (a d : ℕ)
    → 1 ≤ d
    → (2 * a ≤ 2 * ((2 * a + d) / (2 * d) * d) + d) × (2 * ((2 * a + d) / (2 * d) * d) ≤ 2 * a + d)
half_up-nearest a d h =
    let above = div-mul-le_self (2 * a + d) (2 * d) in
    let below = lt-div-mul-add {a = 2 * a + d} {b = 2 * d} (omega arith) in
    (omega (arith, above, below), omega (arith, above, below))

-- What decimal_to_paise does with a quantized amount.
decide : Bool → ℤ → Converted ℤ
decide inexact paise = if inexact then money_parse_error else converted paise

quantize-converted :
    (d : Decimal) (inexact : Bool) (paise : ℤ)
    → (quantize d >>= decide inexact) ≡ converted paise
    → (paise ≡ signed d.mant (hundredths (abs d.mant) d.places)) × (inexact ≡ false)
unfolding quantize decide
quantize-converted d inexact paise e =
    let k = hundredths (abs d.mant) d.places in
    let small = ltb k (10 ^ digits_limit) in accepted small inexact e
  where
    accepted :
        (small inexact : Bool)
        → ((if small
              then converted (signed d.mant (hundredths (abs d.mant) d.places))
              else invalid_operation)
            >>= decide inexact)
          ≡ converted paise
        → (paise ≡ signed d.mant (hundredths (abs d.mant) d.places)) × (inexact ≡ false)
    accepted true true e = cc
    accepted true false e = (cc, refl)
    accepted false inexact e = cc

-- An amount that rupees_to_paise accepts is at most half a paisa from what was read, with its sign, and in
-- strict mode it is exactly what was read.
pub decimal_to_paise-nearest :
    (strict_precision : Bool) (d : Decimal) (paise : ℤ)
    → decimal_to_paise strict_precision d ≡ converted paise
    → (paise ≡ signed d.mant (abs paise))
      × (strict_precision && not (abs paise * 10 ^ d.places == abs d.mant * 100) ≡ false)
      × (2 * (abs d.mant * 100) ≤ 2 * (abs paise * 10 ^ d.places) + 10 ^ d.places)
      × (2 * (abs paise * 10 ^ d.places) ≤ 2 * (abs d.mant * 100) + 10 ^ d.places)
unfolding decimal_to_paise decide
decimal_to_paise-nearest strict_precision d paise e =
    let k = hundredths (abs d.mant) d.places in
    let (result, exact) = quantize-converted d (strict_precision && not (is_exact d)) paise e in
    let size : abs paise ≡ k = ap abs result ∙ abs-signed d.mant k in
    let (above, below) =
      half_up-nearest (abs d.mant * 100) (10 ^ d.places) (one-le-pow d.places 10 (omega arith)) in
    rw size (result, exact, above, below)
