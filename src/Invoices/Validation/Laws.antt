-- ===== src/Invoices/Validation/Laws.antt =====
-- Theorems on validate_invoice of firmos-backend/core/purchase_invoices/validation.py.
use firmos.Base.{
  ℕ, ◌≤◌, ◌≡◌, ◌≢◌, ◌⊎◌, refl, Bool, true, false, Option, none, some, List, [], ◌∷◌, ◌++◌, arith,
}
use firmos.Base.Text.{Text}
use firmos.Base.Lists.{any, any-append}
use firmos.Base.Int.{ℤ, pos, ◌-ℤ◌, abs}
use firmos.Invoices.Gstin.{gstin_checksum}
use firmos.Invoices.States.{cleaned}
use firmos.Invoices.Findings.{
  Invoice, Finding, error, warning, Code, finding_if, is_empty, gstin_findings, pan_findings,
  DatePattern, invoice_date, date_findings, LineItem, money_invalid, pan_of,
}
use firmos.Invoices.Validation.{
  Amounts, Read, got, value_error, overflow_error, amounts, expected_total, is_zero, tax_findings,
  place_findings, line_loop, line_total_findings, line_findings, kind_findings, text_findings,
  amount_findings, with_amounts, validate_invoice, failed, is_error, validation_state,
}

-- No finding is an error.
abbrev pub Clean : List Finding → Type 0
Clean fs = any is_error fs ≡ false

not_failed : (fs : List Finding) → validation_state fs ≢ failed → Clean fs
unfolding validation_state
not_failed [] h = refl
not_failed (f ∷ fs) h = ground arith

any-finding_if : (b : Bool) (c : Code) → any is_error (finding_if b c) ≡ b
any-finding_if true c = refl
any-finding_if false c = refl

any-error : (c : Code) → any is_error (error c ∷ []) ≡ true
any-error c = refl

Clean-append : (xs ys : List Finding) → Clean (xs ++ ys) → Clean xs × Clean ys
Clean-append [] ys h = (refl, h)
Clean-append (error c ∷ xs) ys h = cc
Clean-append (warning c ∷ xs) ys h = Clean-append xs ys h

ruleset findings = (any-append, any-finding_if, any-error)

-- What holds of the amounts of an invoice without an error.
abbrev pub Balances : ℕ → Amounts → Type 0
Balances tolerance m =
    (abs (expected_total m -ℤ m.total) ≤ tolerance)
    × (abs (m.cgst -ℤ m.sgst) ≤ tolerance)
    × (is_zero m.cgst ≡ is_zero m.sgst)
    × ((is_zero m.igst ≡ true) ⊎ ((is_zero m.cgst ≡ true) × (is_zero m.sgst ≡ true)))

tax_findings-Balances :
    (tolerance : ℕ) (m : Amounts) → Clean (tax_findings tolerance m) → Balances tolerance m
unfolding tax_findings
tax_findings-Balances tolerance m h =
    let tests = simp findings at h in (ground arith, ground arith, ground arith, ground arith)

-- A GSTIN that is given passes its test.
abbrev pub Valid : Text → Type 0
Valid gstin = (is_empty gstin ≡ true) ⊎ (gstin_checksum gstin ≡ true)

gstin_findings-Valid :
    (supplier client : Text)
    → Clean (gstin_findings supplier client)
    → Valid supplier × Valid client
unfolding gstin_findings
gstin_findings-Valid supplier client h =
    let tests = simp findings at h in (ground arith, ground arith)

-- The date is read, and it is not in the future.
abbrev pub Dated : Option ℕ → ℕ → Type 0
Dated date today = (day : ℕ) × (date ≡ some day) × (day ≤ today)

date_findings-Dated :
    (date : Option ℕ) (today : ℕ) → Clean (date_findings date today) → Dated date today
unfolding date_findings
date_findings-Dated none today h = cc
date_findings-Dated (some day) today h = (day, refl, ground arith)

-- There are lines, and they add up to the taxable value.
abbrev pub Itemized : ℕ → ℤ → List LineItem → Type 0
Itemized tolerance taxable lines =
    (lines ≢ []) × (abs ((line_loop tolerance 0 lines (pos 0)).0 -ℤ taxable) ≤ tolerance)

line_total-bound :
    (tolerance : ℕ) (taxable : ℤ) (r : ℤ × List Finding)
    → Clean (line_total_findings tolerance taxable r)
    → abs (r.0 -ℤ taxable) ≤ tolerance
line_total-bound tolerance taxable (sum, found) h = let tests = simp findings at h in ground arith

line_findings-Itemized :
    (tolerance : ℕ) (taxable : ℤ) (lines : List LineItem)
    → Clean (line_findings tolerance taxable lines)
    → Itemized tolerance taxable lines
unfolding line_findings
line_findings-Itemized tolerance taxable [] h = cc
line_findings-Itemized tolerance taxable (l ∷ lines) h =
    ((λ e. cc), line_total-bound tolerance taxable (line_loop tolerance 0 (l ∷ lines) (pos 0)) h)

-- What is known of an invoice, read to the amounts `m`, that has no error.
abbrev pub Accepted : (DatePattern → Text → Option ℕ) → ℕ → ℕ → Invoice → Amounts → Type 0
Accepted strptime tolerance today d m =
    Balances tolerance m
    × Valid (cleaned d.vendor_gstin)
    × Valid (cleaned d.client_gstin)
    × Dated (invoice_date strptime d.invoice_date) today
    × Itemized tolerance m.taxable d.line_items

all-Clean :
    (strptime : DatePattern → Text → Option ℕ) (tolerance today : ℕ) (d : Invoice) (m : Amounts)
    → Clean (text_findings strptime today d ++ amount_findings tolerance d m)
    → Accepted strptime tolerance today d m
all-Clean strptime tolerance today d m h =
    let supplier = cleaned d.vendor_gstin in
    let client = cleaned d.client_gstin in
    let gstins = gstin_findings supplier client in
    let pan = pan_findings (pan_of d.vendor_pan supplier) in
    let dates = date_findings (invoice_date strptime d.invoice_date) today in
    let taxes = tax_findings tolerance m in
    let place = place_findings supplier client d.place_of_supply m in
    let lines = line_findings tolerance m.taxable d.line_items in
    let kind = kind_findings d.document_type d.currency m.total in
    let (texts, rest) =
      Clean-append (gstins ++ (pan ++ dates)) (taxes ++ (place ++ (lines ++ kind))) h in
    let (c0, c1) = Clean-append gstins (pan ++ dates) texts in
    let (c2, c3) = Clean-append pan dates c1 in
    let (c4, c5) = Clean-append taxes (place ++ (lines ++ kind)) rest in
    let (c6, c7) = Clean-append place (lines ++ kind) c5 in
    let (c8, c9) = Clean-append lines kind c7 in
    let valid = gstin_findings-Valid supplier client c0 in
    (
      tax_findings-Balances tolerance m c4,
      valid.0,
      valid.1,
      date_findings-Dated (invoice_date strptime d.invoice_date) today c3,
      line_findings-Itemized tolerance m.taxable d.line_items c8,
    )

-- An invoice that is not marked FAILED has readable amounts, and they balance: the total is the sum of
-- its parts, CGST is SGST and both are there or neither is, and IGST excludes them, all within the
-- tolerance; a GSTIN that is given has its format and check character, the date is not in the future,
-- and there are lines that add up to the taxable value.
pub validate_invoice-Accepted :
    (strptime : DatePattern → Text → Option ℕ) (tolerance today : ℕ) (d : Invoice)
    (fs : List Finding)
    → validate_invoice strptime tolerance today d ≡ some fs
    → validation_state fs ≢ failed
    → (m : Amounts) × (amounts d ≡ got m) × Accepted strptime tolerance today d m
unfolding validate_invoice
validate_invoice-Accepted strptime tolerance today d fs h ok = by_reading (amounts d) refl h
  where
    by_reading :
        (r : Read Amounts)
        → amounts d ≡ r
        → with_amounts tolerance d (text_findings strptime today d) r ≡ some fs
        → (m : Amounts) × (amounts d ≡ got m) × Accepted strptime tolerance today d m
    by_reading (got m) e h =
        let same : text_findings strptime today d ++ amount_findings tolerance d m ≡ fs = cc in
        (m, e, all-Clean strptime tolerance today d m (rw same (not_failed fs ok)))
    by_reading (value_error key) e h =
        let same : text_findings strptime today d ++ error (money_invalid key) ∷ [] ≡ fs = cc in
        let clean : Clean (text_findings strptime today d ++ error (money_invalid key) ∷ []) =
          rw same (not_failed fs ok) in
        let last =
          Clean-append (text_findings strptime today d) (error (money_invalid key) ∷ []) clean in
        cc
    by_reading overflow_error e h = cc
