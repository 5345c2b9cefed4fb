-- ===== src/Tests/Invoices.antt =====
-- A GSTIN and an invoice.
use firmos.Base.{ℕ, ◌≡◌, refl, some, none, [], ◌∷◌, Option}
use firmos.Base.Int.{pos, ◌+ℤ◌, ◌-ℤ◌, scale_ℤ}
use firmos.Base.Text.{Text, codes, strip, drop_spaces}
use firmos.Base.Decimal.{Decimal}
use firmos.Invoices.Gstin.{
  full_match, gst_index, gst_char, gstin_checksum, check_reversed, weigh, checksum_loop,
}
use firmos.Invoices.Gstin.Laws.{gstin_checksum_inj}
use firmos.Invoices.States.{cleaned, gst_state_code, find_code, normalized, squeeze}
use firmos.Invoices.Findings.{
  Invoice, DatePattern, year_month_day, amount, missing, line, gstin_findings, pan_findings,
  date_findings,
}
use firmos.Invoices.Validation.{
  Amounts, amounts, got, validate_invoice, validation_state, tax_findings, place_findings,
  line_loop, line_findings, kind_findings,
}
use firmos.Invoices.Validation.Laws.{Accepted, validate_invoice-Accepted}

abbrev stem : Text
stem = codes "27AAPFU0939F1Z"

abbrev last : ℕ
last = b'V'

gstin_checksum_inj_example : last ≡ last
unfolding gstin_checksum full_match check_reversed weigh checksum_loop gst_index gst_char
gstin_checksum_inj_example = gstin_checksum_inj stem [] last last refl refl

abbrev hundred : Decimal
hundred = record { mant = pos 10000; places = 0 }

-- An interstate supply of Rs. 100 with Rs. 18 of IGST.
abbrev supply : Invoice
supply = record {
  vendor_gstin = codes "27AAPFU0939F1ZV";
  client_gstin = [];
  vendor_pan = [];
  invoice_date = codes "2026-06-01";
  taxable = amount (pos 10000);
  cgst = missing;
  sgst = missing;
  igst = amount (pos 1800);
  other = missing;
  total = amount (pos 11800);
  place_of_supply = [];
  line_items = line (record { mant = pos 1; places = 0 }) hundred hundred ∷ [];
  document_type = codes "INVOICE";
  currency = codes "INR";
}

-- A reading of dates for which every text in the first pattern is day 500.
abbrev some_date : DatePattern → Text → Option ℕ
some_date year_month_day s = some 500
some_date _ s = none

supply_clean : validate_invoice some_date 100 510 supply ≡ some []
unfolding validate_invoice amounts gstin_findings pan_findings date_findings tax_findings
    place_findings line_loop line_findings kind_findings cleaned strip drop_spaces full_match
    gstin_checksum check_reversed weigh checksum_loop gst_index gst_char gst_state_code find_code
    normalized squeeze ◌+ℤ◌ ◌-ℤ◌ scale_ℤ
supply_clean = refl

validate_invoice-Accepted_example :
    (m : Amounts) × (amounts supply ≡ got m) × Accepted some_date 100 510 supply m
unfolding validation_state
validate_invoice-Accepted_example =
    validate_invoice-Accepted some_date 100 510 supply [] supply_clean (λ e. cc)
