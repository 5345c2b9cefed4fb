-- ===== src/Invoices/Gstin.antt =====
-- firmos-backend/core/purchase_invoices/validation.py: the format and the check character of a GSTIN. A
-- text is the list of its code points.
pub mod Laws
use mathlib.Core.List.{reverse}
use Prim.Native.String.{String}
use Prim.Native.Char.{code}
use firmos.Base.{
  ℕ, ◌+◌, ◌-◌, ◌*◌, ◌/◌, ◌%◌, ◌≡◌, refl, Bool, true, false, ◌&&◌, ◌||◌, List, [], ◌∷◌,
  if◌then◌else◌, ltb, leb, ◌==◌,
}
use firmos.Base.Text.{Text, codes, is_digit, is_upper, is_alphanumeric}

-- `[1-9A-Z]` and `Z`
abbrev pub is_entity : ℕ → Bool
is_entity c = (leb b'1' c && leb c b'9') || is_upper c

abbrev pub is_z : ℕ → Bool
is_z c = c == b'Z'

-- `fullmatch` of a sequence of classes.
unfoldable pub full_match : List (ℕ → Bool) → Text → Bool
full_match [] [] = true
full_match (p ∷ ps) (c ∷ cs) = p c && full_match ps cs
full_match _ _ = false

abbrev pub gstin_pattern : List (ℕ → Bool)
gstin_pattern =
    is_digit ∷ is_digit ∷ is_upper ∷ is_upper ∷ is_upper ∷ is_upper ∷ is_upper ∷ is_digit ∷ is_digit
    ∷ is_digit ∷ is_digit ∷ is_upper ∷ is_entity ∷ is_z ∷ is_alphanumeric ∷ []

abbrev pub pan_pattern : List (ℕ → Bool)
pan_pattern =
    is_upper ∷ is_upper ∷ is_upper ∷ is_upper ∷ is_upper ∷ is_digit ∷ is_digit ∷ is_digit ∷ is_digit
    ∷ is_upper ∷ []

-- `GST_CHARS.index(char)` and `GST_CHARS[n]`, on the characters of GST_CHARS and below 36.
unfoldable pub gst_index : ℕ → ℕ
gst_index c = if is_digit c then c - b'0' else c - b'A' + 10

unfoldable pub gst_char : ℕ → ℕ
gst_char n = if ltb n 10 then n + b'0' else n - 10 + b'A'

abbrev pub next_factor : ℕ → ℕ
next_factor factor = if factor == 2 then 1 else 2

unfoldable pub weigh : ℕ → ℕ → ℕ
unfolding gst_index
weigh factor c = let product = factor * gst_index c in product / 36 + product % 36

-- The loop, over the reversed text.
unfoldable pub checksum_loop : Text → ℕ → ℕ → ℕ
checksum_loop [] factor total = total
checksum_loop (c ∷ cs) factor total = checksum_loop cs (next_factor factor) (total + weigh factor c)

-- `value[-1]` is the head of the reversed text, and `reversed(value[:-1])` its rest.
unfoldable pub check_reversed : Text → Bool
unfolding checksum_loop gst_char weigh
check_reversed [] = false
check_reversed (last ∷ body) = gst_char ((36 - checksum_loop body 2 0 % 36) % 36) == last

-- _gstin_checksum
unfoldable pub gstin_checksum : Text → Bool
unfolding full_match check_reversed
gstin_checksum value = full_match gstin_pattern value && check_reversed (reverse value)

real_gstin : gstin_checksum (codes "27AAPFU0939F1ZV") ≡ true
unfolding gstin_checksum
real_gstin = refl

wrong_gstin : gstin_checksum (codes "27AAPFU0939F1ZW") ≡ false
unfolding gstin_checksum
wrong_gstin = refl
