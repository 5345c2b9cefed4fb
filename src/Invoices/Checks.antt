-- ===== src/Invoices/Checks.antt =====
-- firmos-backend/core/purchase_invoices/validation.py: the small tests beside validate_invoice. A day is a
-- number, and `strptime` for each of the patterns a parameter.
use firmos.Base.{ℕ, ◌≡◌, refl, Bool, true, Option, none, some, if◌then◌else◌, leb}
use firmos.Base.Int.{ℤ, pos, ◌+ℤ◌, ◌-ℤ◌, abs}
use firmos.Base.Float.{Float, lt_float, round_ratio}
use firmos.Base.Text.{Text, codes, strip, drop_spaces}
use firmos.Invoices.Gstin.{full_match, gstin_pattern}
use firmos.Invoices.States.{cleaned}
use firmos.Invoices.Findings.{DatePattern, invoice_date}

unfoldable pub validate_gstin : Text → Bool
unfolding full_match cleaned
validate_gstin value = full_match gstin_pattern (cleaned value)

unfoldable pub validate_arithmetic : (taxable cgst sgst igst total : ℤ) → Bool
validate_arithmetic taxable cgst sgst igst total =
    leb (abs (taxable +ℤ cgst +ℤ sgst +ℤ igst -ℤ total)) 100

abbrev pub at_most : Option ℕ → ℕ → Bool
at_most none today = true
at_most (some day) today = leb day today

unfoldable pub validate_date_not_future : (DatePattern → Text → Option ℕ) → ℕ → Text → Bool
validate_date_not_future strptime today value = at_most (invoice_date strptime value) today

pub data FieldLevel : Type 0 where
  low review high : FieldLevel

unfoldable pub compute_field_level : Float → Bool → FieldLevel
compute_field_level confidence validation_passed =
    if validation_passed
    then if lt_float confidence (round_ratio 85 100)
      then if lt_float confidence (round_ratio 6 10) then low else review
      else high
    else low

accepted_format : validate_gstin (codes " 27aapfu0939f1zw") ≡ true
unfolding validate_gstin full_match cleaned strip drop_spaces
accepted_format = refl

within_tolerance : validate_arithmetic (pos 1000) (pos 90) (pos 90) (pos 0) (pos 1280) ≡ true
unfolding validate_arithmetic ◌+ℤ◌ ◌-ℤ◌
within_tolerance = refl
