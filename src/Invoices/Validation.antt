-- ===== src/Invoices/Validation.antt =====
-- firmos-backend/core/purchase_invoices/validation.py: the amounts and the lines of an invoice,
-- validate_invoice and validation_state.
pub mod Laws
use firmos.Base.{
  ℕ, suc, ◌+◌, ◌-◌, ◌*◌, Bool, true, false, ◌&&◌, ◌||◌, not, Option, none, some, List, [], ◌∷◌,
  ◌++◌, if◌then◌else◌, ltb, leb, ◌==◌,
}
use firmos.Base.Text.{Text, codes, same_text, upper, strip}
use firmos.Base.Lists.{length, any}
use firmos.Base.Int.{ℤ, pos, ◌+ℤ◌, ◌-ℤ◌, abs, ltb_ℤ, eqb_ℤ}
use firmos.Base.Decimal.{Decimal, mul_decimal, sub_decimal, beyond_decimal, trunc_decimal}
use firmos.Invoices.Gstin.{full_match, pan_pattern, gstin_checksum}
use firmos.Invoices.States.{cleaned, gst_state_code}
use firmos.Invoices.Findings.{
  Field, Money, LineItem, Invoice, Code, Finding, finding_if, is_empty, slice, gstin_findings,
  pan_of, pan_findings, DatePattern, first_date, invoice_date, date_findings, taxable_amount,
  cgst_amount, sgst_amount, igst_amount, other_charges, total_amount, missing, boolean, unreadable,
  infinite, amount, invalid_line, line, money_invalid, total_mismatch, cgst_sgst_inconsistent,
  mixed_gst_components, place_of_supply_invalid, igst_required, cgst_sgst_required,
  line_items_required, line_invalid, line_arithmetic_mismatch, line_total_mismatch,
  credit_note_sign, currency_unsupported, error, warning,
}

-- The amounts, in the order in which they are read.
pub record Amounts : Type 0 where
  pub taxable : ℤ
  pub cgst : ℤ
  pub sgst : ℤ
  pub igst : ℤ
  pub other : ℤ
  pub total : ℤ

-- What _money does: a number, the ValueError that names the key, or the OverflowError.
pub data Read {ℓ} (A : Type ℓ) : Type ℓ where
  got : A → Read A
  value_error : Field → Read A
  overflow_error : Read A

infixl 5 ◌>>=◌
abbrev pub ◌>>=◌ {ℓ κ} : {A : Type ℓ} {B : Type κ} → Read A → (A → Read B) → Read B
got a >>= f = f a
value_error k >>= f = value_error k
overflow_error >>= f = overflow_error

abbrev pub money : Field → Money → Read ℤ
money key missing = got (pos 0)
money key boolean = value_error key
money key unreadable = value_error key
money key infinite = overflow_error
money key (amount n) = got n

unfoldable pub amounts : Invoice → Read Amounts
amounts d = do
  taxable ← money taxable_amount d.taxable
  cgst ← money cgst_amount d.cgst
  sgst ← money sgst_amount d.sgst
  igst ← money igst_amount d.igst
  other ← money other_charges d.other
  total ← money total_amount d.total
  got (record {
    taxable = taxable;
    cgst = cgst;
    sgst = sgst;
    igst = igst;
    other = other;
    total = total;
  })

abbrev pub is_zero : ℤ → Bool
is_zero a = eqb_ℤ a (pos 0)

abbrev pub expected_total : Amounts → ℤ
expected_total m = m.taxable +ℤ m.cgst +ℤ m.sgst +ℤ m.igst +ℤ m.other

abbrev pub differ : Bool → Bool → Bool
differ a b = if a then not b else b

unfoldable pub tax_findings : ℕ → Amounts → List Finding
tax_findings tolerance m =
    finding_if (ltb tolerance (abs (expected_total m -ℤ m.total)))
      (total_mismatch (expected_total m) m.total)
    ++ (finding_if
          (differ (is_zero m.cgst) (is_zero m.sgst) || ltb tolerance (abs (m.cgst -ℤ m.sgst)))
          cgst_sgst_inconsistent
        ++ finding_if (not (is_zero m.igst) && (not (is_zero m.cgst) || not (is_zero m.sgst)))
            mixed_gst_components)

-- The state of supply: a finding, or the code of the state.
abbrev pub supply_state : Text → Text → Option Text
supply_state place client =
    if is_empty (strip place) then some (slice 0 2 client) else gst_state_code place

abbrev pub treatment_findings : Text → Amounts → Option Text → List Finding
treatment_findings supplier m none = error place_of_supply_invalid ∷ []
treatment_findings supplier m (some state) =
    let interstate = not (same_text (slice 0 2 supplier) state) in
    finding_if (interstate && is_zero m.igst) igst_required
    ++ finding_if (not interstate && not (is_zero m.igst)) cgst_sgst_required

unfoldable pub place_findings : Text → Text → Text → Amounts → List Finding
place_findings supplier client place m =
    if not (is_empty supplier) && not (is_empty client)
    then treatment_findings supplier m (supply_state place client)
    else []

-- The loop over the lines, from an index and the total so far.
unfoldable pub line_loop : ℕ → ℕ → List LineItem → ℤ → ℤ × List Finding
line_loop tolerance index [] total = (total, [])
line_loop tolerance index (invalid_line ∷ lines) total =
    let (sum, findings) = line_loop tolerance (index + 1) lines total in
    (sum, error (line_invalid (index + 1)) ∷ findings)
line_loop tolerance index (line quantity rate charged ∷ lines) total =
    let (sum, findings) = line_loop tolerance (index + 1) lines (total +ℤ trunc_decimal charged) in
    (
      sum,
      finding_if (beyond_decimal (sub_decimal (mul_decimal quantity rate) charged) tolerance)
            (line_arithmetic_mismatch (index + 1))
          ++ findings,
    )

abbrev pub line_total_findings : ℕ → ℤ → ℤ × List Finding → List Finding
line_total_findings tolerance taxable (sum, findings) =
    findings ++ finding_if (ltb tolerance (abs (sum -ℤ taxable))) (line_total_mismatch taxable sum)

unfoldable pub line_findings : ℕ → ℤ → List LineItem → List Finding
unfolding line_loop
line_findings tolerance taxable [] = error line_items_required ∷ []
line_findings tolerance taxable (l ∷ lines) =
    line_total_findings tolerance taxable (line_loop tolerance 0 (l ∷ lines) (pos 0))

unfoldable pub kind_findings : Text → Text → ℤ → List Finding
kind_findings document_type currency total =
    finding_if
      (differ (ltb_ℤ total (pos 0)) (same_text (upper document_type) (codes "CREDIT_NOTE")))
      credit_note_sign
    ++ finding_if
        (not
          (same_text (upper (if is_empty currency then codes "INR" else currency)) (codes "INR")))
        currency_unsupported

-- The findings on the texts of an invoice, which come before the amounts are read.
abbrev pub text_findings : (DatePattern → Text → Option ℕ) → ℕ → Invoice → List Finding
text_findings strptime today d =
    let supplier = cleaned d.vendor_gstin in
    let client = cleaned d.client_gstin in
    gstin_findings supplier client
    ++ (pan_findings (pan_of d.vendor_pan supplier)
        ++ date_findings (invoice_date strptime d.invoice_date) today)

abbrev pub amount_findings : ℕ → Invoice → Amounts → List Finding
amount_findings tolerance d m =
    tax_findings tolerance m
    ++ (place_findings (cleaned d.vendor_gstin) (cleaned d.client_gstin) d.place_of_supply m
        ++ (line_findings tolerance m.taxable d.line_items
            ++ kind_findings d.document_type d.currency m.total))

abbrev pub with_amounts : ℕ → Invoice → List Finding → Read Amounts → Option (List Finding)
with_amounts tolerance d first (got m) = some (first ++ amount_findings tolerance d m)
with_amounts tolerance d first (value_error key) = some (first ++ error (money_invalid key) ∷ [])
with_amounts tolerance d first overflow_error = none

-- `none` is the OverflowError.
unfoldable pub validate_invoice :
    (DatePattern → Text → Option ℕ) → (tolerance today : ℕ) → Invoice → Option (List Finding)
unfolding gstin_findings pan_findings date_findings amounts tax_findings place_findings
    line_findings kind_findings
validate_invoice strptime tolerance today d =
    with_amounts tolerance d (text_findings strptime today d) (amounts d)

pub data State : Type 0 where
  failed warned passed : State

abbrev pub is_error : Finding → Bool
is_error (error c) = true
is_error (warning c) = false

-- validation_state
unfoldable pub validation_state : List Finding → State
validation_state [] = passed
validation_state (f ∷ fs) = if any is_error (f ∷ fs) then failed else warned
