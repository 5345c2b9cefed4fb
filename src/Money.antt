-- ===== src/Money.antt =====
-- firmos-backend/core/money.py. What Decimal(text) reads is a parameter: none where it raises, and a number
-- that may be an infinity or a NaN. The context has Python's 28 digits.
pub mod Laws
use mathlib.Core.List.{reverse}
use firmos.Base.{
  ℕ, zero, suc, ◌+◌, ◌*◌, ◌/◌, ◌%◌, ◌^◌, ◌≡◌, refl, Bool, true, false, ◌&&◌, ◌||◌, not, Option,
  none, some, List, [], ◌∷◌, if◌then◌else◌, ltb, ◌==◌,
}
use firmos.Base.Int.{ℤ, pos, negsuc, ◌-ℤ◌, abs}
use firmos.Base.Decimal.{Decimal, negate}
use firmos.Base.Float.{round_half_even}
use firmos.Base.Lists.{keep}
use firmos.Base.Text.{Text, codes, same_text, strip, upper, is_prefix}

-- A Decimal that was read, finite or not.
pub data Number : Type 0 where
  finite : Decimal → Number
  not_finite : Number

-- What a conversion does: an amount, a MoneyParseError, or the context's InvalidOperation.
pub data Converted {ℓ} (A : Type ℓ) : Type ℓ where
  converted : A → Converted A
  money_parse_error : Converted A
  invalid_operation : Converted A

infixl 5 ◌>>=◌
abbrev pub ◌>>=◌ {ℓ κ} : {A : Type ℓ} {B : Type κ} → Converted A → (A → Converted B) → Converted B
converted a >>= f = f a
money_parse_error >>= f = money_parse_error
invalid_operation >>= f = invalid_operation

-- A value is missing (None or a Boolean) or has a text, `str(value)`.
pub data Value : Type 0 where
  missing : Value
  written : Text → Value

abbrev pub rupee_sign : ℕ
rupee_sign = 8377

abbrev pub cleaned : Text → Text
cleaned s = keep (λ c. not (c == b',') && not (c == rupee_sign)) (strip s)

module _ (decimal : Text → Option Number) where
  abbrev pub checked : Option Number → Converted Decimal
  checked none = money_parse_error
  checked (some not_finite) = money_parse_error
  checked (some (finite d)) = converted d

  unfoldable pub parse_decimal : Value → Converted Decimal
  parse_decimal missing = money_parse_error
  parse_decimal (written s) = checked (decimal (cleaned s))

abbrev pub digits_limit : ℕ
digits_limit = 28

-- `quantize(PAISE, rounding=ROUND_HALF_UP)`, in hundredths: ties go away from zero, and a result with more
-- than 28 digits raises.
abbrev pub hundredths : ℕ → ℕ → ℕ
hundredths n places = (2 * (n * 100) + 10 ^ places) / (2 * 10 ^ places)

abbrev pub signed : ℤ → ℕ → ℤ
signed (pos n) k = pos k
signed (negsuc n) k = negate k

unfoldable pub quantize : Decimal → Converted ℤ
quantize d =
    let k = hundredths (abs d.mant) d.places in
    if ltb k (10 ^ digits_limit) then converted (signed d.mant k) else invalid_operation

-- `amount == amount.quantize(PAISE)`, whichever way the quantization rounds.
abbrev pub is_exact : Decimal → Bool
is_exact d = hundredths (abs d.mant) d.places * 10 ^ d.places == abs d.mant * 100

-- rupees_to_paise, from the Decimal on
unfoldable pub decimal_to_paise : Bool → Decimal → Converted ℤ
unfolding quantize
decimal_to_paise strict_precision d = quantize d >>= λ paise.
    if strict_precision && not (is_exact d) then money_parse_error else converted paise

unfoldable pub rupees_to_paise : (Text → Option Number) → Bool → Value → Converted ℤ
unfolding parse_decimal decimal_to_paise
rupees_to_paise decimal strict_precision value =
    parse_decimal decimal value >>= decimal_to_paise strict_precision

-- How many digits of n lie beyond the 28 of the context; n itself is more than enough fuel.
unfoldable pub excess : ℕ → ℕ → ℕ
excess zero n = 0
excess (suc fuel) n = elim (ltb n (10 ^ digits_limit)) [
  | true ↦ 0
  | false ↦ suc (excess fuel (n / 10))
]

-- `Decimal(value) / 100`: a quotient of more than 28 digits is rounded to 28, ties to the even one.
unfoldable pub significant : ℕ → ℕ
unfolding excess round_half_even
significant n = let unit = 10 ^ excess n n in round_half_even n unit * unit

unfoldable pub divide_by_100 : ℤ → Decimal
unfolding significant
divide_by_100 value = record { mant = signed value (significant (abs value)); places = 2 }

-- `quantize(PAISE)`, of which the rounding is to the even one, and its result as a Decimal.
unfoldable pub quantize_even : Decimal → Converted Decimal
unfolding round_half_even
quantize_even d =
    let k = round_half_even (abs d.mant * 100) (10 ^ d.places) in
    if ltb k (10 ^ digits_limit)
    then converted (record { mant = signed d.mant k; places = 2 })
    else invalid_operation

-- paise_to_decimal, on integers
unfoldable pub paise_to_decimal : ℤ → Converted Decimal
unfolding divide_by_100 quantize_even
paise_to_decimal value = quantize_even (divide_by_100 value)

-- parse_signed_amount
abbrev pub ends_with : Text → Text → Bool
ends_with suffix s = is_prefix (reverse suffix) (reverse s)

-- `text[:-2]`
abbrev pub without_two : Text → Text
without_two [] = []
without_two (a ∷ []) = []
without_two (a ∷ b ∷ []) = []
without_two (a ∷ b ∷ c ∷ s) = a ∷ without_two (b ∷ c ∷ s)

-- The suffix and the text without it.
unfoldable pub suffix_of : Text → Text → Text × Text
unfolding strip
suffix_of marker s =
    if ends_with (codes "DR") (upper s)
    then (codes "DR", strip (without_two s))
    else if ends_with (codes "CR") (upper s)
    then (codes "CR", strip (without_two s))
    else (upper (strip marker), s)

unfoldable pub parse_signed_amount : (Text → Option Number) → Text → Text → Converted ℤ
unfolding suffix_of rupees_to_paise strip
parse_signed_amount decimal value marker =
    let (suffix, text) = suffix_of marker (strip value) in
    rupees_to_paise decimal true (written text) >>= λ paise.
    converted (if same_text suffix (codes "DR") then negate (abs paise) else pos (abs paise))

-- currency_precision
unfoldable pub currency_precision : Text → ℕ
currency_precision currency =
    if same_text (upper currency) (codes "JPY") || same_text (upper currency) (codes "KRW")
    then 0
    else 2
