-- ===== src/Invoices/Findings.antt =====
-- firmos-backend/core/purchase_invoices/validation.py: an invoice, the findings on it, and those on its
-- texts and its date. A field of money is what `int(Decimal(str(value)))` makes of it; quantities and
-- rates are decimals, NaN and the infinities left out. `strptime` for each of the three patterns, a day
-- as a number, is a parameter.
use firmos.Base.{
  ℕ, suc, ◌-◌, ◌*◌, Bool, true, false, ◌&&◌, not, Option, none, some, List, [], ◌∷◌, ◌++◌,
  if◌then◌else◌, ltb, ◌==◌,
}
use firmos.Base.Text.{Text, upper, strip}
use firmos.Base.Lists.{length}
use firmos.Base.Int.{ℤ}
use firmos.Base.Decimal.{Decimal}
use firmos.Invoices.Gstin.{full_match, pan_pattern, gstin_checksum}

pub data Field : Type 0 where
  taxable_amount cgst_amount sgst_amount igst_amount other_charges total_amount : Field

-- A field of money: no key, a bool, a value that raises one of the exceptions that _money catches, an
-- infinity, whose OverflowError it does not catch, or a number.
pub data Money : Type 0 where
  missing boolean unreadable infinite : Money
  amount : ℤ → Money

pub data LineItem : Type 0 where
  invalid_line : LineItem
  line : (quantity rate charged : Decimal) → LineItem

pub record Invoice : Type 0 where
  pub vendor_gstin : Text
  pub client_gstin : Text
  pub vendor_pan : Text
  pub invoice_date : Text
  pub taxable : Money
  pub cgst : Money
  pub sgst : Money
  pub igst : Money
  pub other : Money
  pub total : Money
  pub place_of_supply : Text
  pub line_items : List LineItem
  pub document_type : Text
  pub currency : Text

pub data Code : Type 0 where
  gstin_invalid client_gstin_invalid pan_invalid : Code
  invoice_date_invalid invoice_date_future invoice_date_old : Code
  money_invalid : Field → Code
  total_mismatch : (expected actual : ℤ) → Code
  cgst_sgst_inconsistent mixed_gst_components place_of_supply_invalid : Code
  igst_required cgst_sgst_required line_items_required : Code
  line_invalid line_arithmetic_mismatch : ℕ → Code
  line_total_mismatch : (expected actual : ℤ) → Code
  credit_note_sign currency_unsupported : Code

-- A finding with its severity.
pub data Finding : Type 0 where
  error warning : Code → Finding

-- `if test: findings.append(...)`
abbrev pub finding_if : Bool → Code → List Finding
finding_if b c = if b then error c ∷ [] else []

abbrev pub is_empty : Text → Bool
is_empty [] = true
is_empty (c ∷ cs) = false

-- `text[a:b]`
abbrev pub slice : ℕ → ℕ → Text → Text
slice a b [] = []
slice ℕ.zero ℕ.zero (c ∷ cs) = []
slice ℕ.zero (suc b) (c ∷ cs) = c ∷ slice ℕ.zero b cs
slice (suc a) ℕ.zero (c ∷ cs) = []
slice (suc a) (suc b) (c ∷ cs) = slice a b cs

unfoldable pub gstin_findings : Text → Text → List Finding
gstin_findings supplier client =
    finding_if (not (is_empty supplier) && not (gstin_checksum supplier)) gstin_invalid
    ++ finding_if (not (is_empty client) && not (gstin_checksum client)) client_gstin_invalid

abbrev pub pan_of : Text → Text → Text
pan_of vendor_pan supplier = upper (
    if not (is_empty vendor_pan)
    then vendor_pan
    else if length supplier == 15
    then slice 2 12 supplier
    else [])

unfoldable pub pan_findings : Text → List Finding
pan_findings pan = finding_if (not (is_empty pan) && not (full_match pan_pattern pan)) pan_invalid

-- The patterns that _invoice_date tries, in order.
pub data DatePattern : Type 0 where
  year_month_day day_month_year_slashes day_month_year_dashes : DatePattern

abbrev pub first_date : Option ℕ → Option ℕ → Option ℕ
first_date (some d) other = some d
first_date none other = other

abbrev pub invoice_date : (DatePattern → Text → Option ℕ) → Text → Option ℕ
invoice_date strptime value =
    let text = strip value in
    first_date (strptime year_month_day text)
      (first_date (strptime day_month_year_slashes text) (strptime day_month_year_dashes text))

unfoldable pub date_findings : Option ℕ → ℕ → List Finding
date_findings none today = error invoice_date_invalid ∷ []
date_findings (some day) today =
    if ltb today day
    then error invoice_date_future ∷ []
    else if ltb (366 * 8) (today - day)
    then warning invoice_date_old ∷ []
    else []
