-- ===== src/Tally/Voucher.antt =====
-- validate_purchase and validate_sales of firmos-backend/connectors/tally/canonical.py. A payload's texts are
-- what `str(payload.get(key) or "")` gives, its amounts what `int(payload.get(key, 0))` gives, `none` where
-- that raises. date.fromisoformat with strftime("%Y%m%d") is a parameter.
pub mod Laws
use firmos.Base.{
  ◌≡◌, Bool, true, false, not, ◌&&◌, ◌||◌, ◌==◌, Option, none, some, List, [], ◌∷◌, if◌then◌else◌,
}
use firmos.Base.Int.{ℤ, pos, abs, eqb_ℤ, leb_ℤ, ◌-ℤ◌}
use firmos.Base.Lists.{any, all, length, sum_by}
use firmos.Base.Result.{Result, ok, raised, ◌>>=◌, ◌>>◌, raise_if}
use firmos.Base.Text.{Text, codes, same_text, is_empty_text, strip, upper, is_digit}
use firmos.Tally.{Line, GstLine, same_line, sum_ℤ}

-- The ValueErrors in the order of the code, and an `int` that raises.
pub data Refusal : Type 0 where
  identity_required date_invalid total_not_positive same_ledgers entry_incomplete : Refusal
  unbalanced ledger_missing currency_unsupported gst_incomplete gst_unmatched : Refusal
  gst_total_mismatch int_raised : Refusal

abbrev pub Checked {ℓ} : Type ℓ → Type ℓ
Checked = Result Refusal

abbrev pub int : Option ℤ → Checked ℤ
int none = raised int_raised
int (some n) = ok n

-- An entry as it is given: `line.get("ledger_name") or line.get("ledger")`, stripped later.
pub record Entry : Type 0 where
  pub ledger : Text
  pub amount_paise : Option ℤ

pub record GstEntry : Type 0 where
  pub ledger_name : Text
  pub tax_type : Text
  pub amount_paise : Option ℤ

-- `date` and `tax_total_paise` are `none` where the key is missing.
pub record Purchase : Type 0 where
  pub tally_company : Text
  pub company_guid : Text
  pub party_ledger : Text
  pub purchase_ledger : Text
  pub date : Option Text
  pub total_paise : Option ℤ
  pub entries : List Entry
  pub currency : Text
  pub gst_details : List GstEntry
  pub tax_total_paise : Option (Option ℤ)
  pub narration : Text
  pub reference : Text
  pub voucher_number : Text

-- A voucher that was validated; `account_ledger` is the purchase or the sales ledger.
pub record Voucher : Type 0 where
  pub date : Text
  pub company_guid : Text
  pub company_name : Text
  pub party_ledger : Text
  pub account_ledger : Text
  pub total_paise : ℤ
  pub narration : Text
  pub reference : Text
  pub currency : Text
  pub entries : List Line
  pub voucher_number : Text
  pub gst_details : List GstLine
  pub tax_total_paise : ℤ

abbrev pub is_blank : Text → Bool
is_blank s = is_empty_text (strip s)

-- The comprehensions that read the lines.
unfoldable pub read_entries : List Entry → Checked (List Line)
unfolding strip ◌>>=◌
read_entries [] = ok []
read_entries (e ∷ es) = int e.amount_paise >>= λ amount. read_entries es >>= λ rest.
    ok (record { ledger_name = strip e.ledger; amount_paise = amount } ∷ rest)

unfoldable pub read_gst : List GstEntry → Checked (List GstLine)
unfolding strip ◌>>=◌
read_gst [] = ok []
read_gst (g ∷ gs) = int g.amount_paise >>= λ amount. read_gst gs >>= λ rest. ok (
    record {
      ledger_name = strip g.ledger_name;
      tax_type = upper (strip g.tax_type);
      amount_paise = amount;
    }
    ∷ rest)

-- `payload.get("entries") or [...]`
unfoldable pub given_entries : Purchase → ℤ → List Entry
unfolding ◌-ℤ◌
given_entries p total = elim p.entries [
  | [] ↦
      record { ledger = p.party_ledger; amount_paise = some total }
      ∷ record { ledger = p.purchase_ledger; amount_paise = some (pos 0 -ℤ total) }
      ∷ []
  | e ∷ es ↦ e ∷ es
]

abbrev pub is_zero : ℤ → Bool
is_zero n = eqb_ℤ n (pos 0)

abbrev pub is_incomplete : Line → Bool
is_incomplete l = is_empty_text l.ledger_name || is_zero l.amount_paise

abbrev pub names_ledger : Text → List Line → Bool
names_ledger name = any λ l. same_text l.ledger_name name

abbrev pub is_tax : Text → Bool
is_tax t =
    same_text t (codes "CGST")
    || (same_text t (codes "SGST") || (same_text t (codes "IGST") || same_text t (codes "CESS")))

abbrev pub is_incomplete_gst : GstLine → Bool
is_incomplete_gst g =
    is_empty_text g.ledger_name || (not (is_tax g.tax_type) || is_zero g.amount_paise)

-- `(item["ledger_name"], item["amount_paise"]) in entry_values`
abbrev pub is_posted : List Line → GstLine → Bool
is_posted lines g =
    any (same_line (record { ledger_name = g.ledger_name; amount_paise = g.amount_paise })) lines

abbrev pub tax_sum : List GstLine → ℤ
tax_sum gs = pos (sum_by (λ g. abs g.amount_paise) gs)

abbrev pub tax_total : Option (Option ℤ) → List GstLine → Checked ℤ
tax_total none gs = ok (tax_sum gs)
tax_total (some given) gs = int given

abbrev pub date_of : (Text → Option Text) → Option Text → Checked Text
date_of compact_date none = raised date_invalid
date_of compact_date (some s) = elim (compact_date s) [ none ↦ raised date_invalid | some d ↦ ok d ]

abbrev pub or_inr : Text → Text
or_inr s = if is_empty_text s then codes "INR" else s

unfoldable pub validate_purchase : (Text → Option Text) → Purchase → Checked Voucher
unfolding strip given_entries
validate_purchase compact_date p = do
  raise_if
      (is_blank p.tally_company
        || (is_blank p.company_guid || (is_blank p.party_ledger || is_blank p.purchase_ledger)))
      identity_required
  parsed ← date_of compact_date p.date
  total ← int p.total_paise
  raise_if (leb_ℤ total (pos 0)) total_not_positive
  raise_if (same_text (strip p.party_ledger) (strip p.purchase_ledger)) same_ledgers
  entries ← read_entries (given_entries p total)
  raise_if (any is_incomplete entries) entry_incomplete
  raise_if (not (is_zero (sum_ℤ (λ (l : Line). l.amount_paise) entries))) unbalanced
  raise_if (not (names_ledger p.party_ledger entries && names_ledger p.purchase_ledger entries))
      ledger_missing
  raise_if (not (same_text (upper (or_inr p.currency)) (codes "INR"))) currency_unsupported
  gst ← read_gst p.gst_details
  raise_if (any is_incomplete_gst gst) gst_incomplete
  raise_if (any (λ g. not (is_posted entries g)) gst) gst_unmatched
  taxes ← tax_total p.tax_total_paise gst
  raise_if (not (eqb_ℤ taxes (tax_sum gst))) gst_total_mismatch
  ok (record {
    date = parsed;
    company_guid = p.company_guid;
    company_name = p.tally_company;
    party_ledger = p.party_ledger;
    account_ledger = p.purchase_ledger;
    total_paise = total;
    narration = p.narration;
    reference = p.reference;
    currency = upper (or_inr p.currency);
    entries = entries;
    voucher_number = p.voucher_number;
    gst_details = gst;
    tax_total_paise = taxes;
  })

pub record Sale : Type 0 where
  pub company_name : Text
  pub company_guid : Text
  pub party_ledger : Text
  pub sales_ledger : Text
  pub date : Text
  pub total_paise : Option ℤ
  pub entries : List Entry  -- `x.get("ledger_name")` alone
  pub tax_total_paise : Option ℤ
  pub narration : Text
  pub reference : Text
  pub voucher_number : Text

-- The codes of a sale have no currency and no tax lines.
unfoldable pub validate_sales : Sale → Checked Voucher
unfolding strip
validate_sales p = do
  raise_if
      (is_blank p.company_name
        || (is_blank p.company_guid || (is_blank p.party_ledger || is_blank p.sales_ledger)))
      identity_required
  raise_if (not (length p.date == 8) || not (all is_digit p.date)) date_invalid
  total ← int p.total_paise
  raise_if (leb_ℤ total (pos 0)) total_not_positive
  entries ← read_entries p.entries
  raise_if
      (any is_incomplete entries || not (is_zero (sum_ℤ (λ (l : Line). l.amount_paise) entries)))
      unbalanced
  raise_if (not (names_ledger p.party_ledger entries && names_ledger p.sales_ledger entries))
      ledger_missing
  taxes ← int p.tax_total_paise
  ok (record {
    date = p.date;
    company_guid = p.company_guid;
    company_name = p.company_name;
    party_ledger = p.party_ledger;
    account_ledger = p.sales_ledger;
    total_paise = total;
    narration = p.narration;
    reference = p.reference;
    currency = [];
    entries = entries;
    voucher_number = p.voucher_number;
    gst_details = [];
    tax_total_paise = taxes;
  })
