-- ===== src/Tally/Compare.antt =====
-- compare_purchase and compare_sales of firmos-backend/connectors/tally/canonical.py: the read-back of a voucher
-- against the payload that was approved. A text of the read-back is `str(actual.get(key) or "")`.
pub mod Laws
pub mod Own
use firmos.Base.{Bool, not, List, [], ◌∷◌, ◌++◌, map, if◌then◌else◌, Option}
use firmos.Base.Int.{ℤ}
use firmos.Base.Lists.{keep}
use firmos.Base.Result.{ok, ◌>>=◌}
use firmos.Base.Text.{Text, codes, same_text, is_empty_text, upper}
use firmos.Base.Sorting.{sorted, same_list}
use firmos.Tally.{Line, GstLine, same_line, leb_line, same_gst, leb_gst, str_ℤ}
use firmos.Tally.Voucher.{
  Checked, int, Entry, GstEntry, Purchase, Sale, Voucher, validate_purchase, validate_sales,
}

pub data Field : Type 0 where
  remote_id company_guid voucher_type date party_ledger total_paise : Field
  reference narration voucher_number : Field

pub record Readback : Type 0 where
  pub guid : Text
  pub remote_id : Text
  pub company_guid : Text
  pub voucher_type : Text
  pub date : Text
  pub party_ledger : Text
  pub total_paise : Text
  pub reference : Text
  pub narration : Text
  pub voucher_number : Text
  pub entries : List Entry
  pub gst_details : List GstEntry

unfoldable pub field : Readback → Field → Text
field r Field.remote_id = r.remote_id
field r Field.company_guid = r.company_guid
field r Field.voucher_type = r.voucher_type
field r Field.date = r.date
field r Field.party_ledger = r.party_ledger
field r Field.total_paise = r.total_paise
field r Field.reference = r.reference
field r Field.narration = r.narration
field r Field.voucher_number = r.voucher_number

-- An entry of the dict of mismatches: expected, then actual.
pub data Mismatch : Type 0 where
  text_differs : Field → Text → Text → Mismatch
  entries_differ : List Line → List Line → Mismatch
  gst_differs : List GstLine → List GstLine → Mismatch

-- `if wanted[key]: checks[key] = wanted[key]`
abbrev pub if_wanted : Field → Text → List (Field × Text)
if_wanted key wanted = if is_empty_text wanted then [] else (key, wanted) ∷ []

abbrev pub fixed_checks : Text → Text → Voucher → List (Field × Text)
fixed_checks kind remote wanted =
    (Field.remote_id, remote)
    ∷ (Field.company_guid, wanted.company_guid)
    ∷ (Field.voucher_type, kind)
    ∷ (Field.date, wanted.date)
    ∷ (Field.party_ledger, wanted.party_ledger)
    ∷ (Field.total_paise, str_ℤ wanted.total_paise)
    ∷ []

abbrev pub optional_checks : Voucher → List (Field × Text)
optional_checks wanted =
    if_wanted Field.reference wanted.reference
    ++ (if_wanted Field.narration wanted.narration
        ++ if_wanted Field.voucher_number wanted.voucher_number)

unfoldable pub checks : Text → Text → Voucher → List (Field × Text)
checks kind remote wanted = fixed_checks kind remote wanted ++ optional_checks wanted

unfoldable pub text_mismatches : Readback → List (Field × Text) → List Mismatch
text_mismatches actual cs =
    map (λ c. text_differs c.0 c.1 (field actual c.0))
      (keep (λ c. not (same_text (field actual c.0) c.1)) cs)

unfoldable pub entries_mismatch : List Line → List Line → List Mismatch
unfolding sorted same_list
entries_mismatch wanted actual =
    if same_list same_line (sorted leb_line actual) (sorted leb_line wanted)
    then []
    else entries_differ (sorted leb_line wanted) (sorted leb_line actual) ∷ []

unfoldable pub gst_mismatch : List GstLine → List GstLine → List Mismatch
unfolding sorted same_list
gst_mismatch wanted actual =
    if same_list same_gst (sorted leb_gst actual) (sorted leb_gst wanted)
    then []
    else gst_differs (sorted leb_gst wanted) (sorted leb_gst actual) ∷ []

-- The lines of a read-back are taken as they are, not stripped.
unfoldable pub actual_entries : List Entry → Checked (List Line)
unfolding ◌>>=◌
actual_entries [] = ok []
actual_entries (e ∷ es) = int e.amount_paise >>= λ amount. actual_entries es >>= λ rest.
    ok (record { ledger_name = e.ledger; amount_paise = amount } ∷ rest)

unfoldable pub actual_gst : List GstEntry → Checked (List GstLine)
unfolding ◌>>=◌
actual_gst [] = ok []
actual_gst (g ∷ gs) = int g.amount_paise >>= λ amount. actual_gst gs >>= λ rest. ok (
    record { ledger_name = g.ledger_name; tax_type = upper g.tax_type; amount_paise = amount }
    ∷ rest)

unfoldable pub compare_purchase :
    (Text → Option Text) → Purchase → Readback → Text → Checked (List Mismatch)
unfolding validate_purchase checks text_mismatches entries_mismatch gst_mismatch
compare_purchase compact_date expected actual remote = do
  wanted ← validate_purchase compact_date expected
  entries ← actual_entries actual.entries
  gst ← actual_gst actual.gst_details
  ok (
      text_mismatches actual (checks (codes "Purchase") remote wanted)
      ++ (entries_mismatch wanted.entries entries ++ gst_mismatch wanted.gst_details gst))

unfoldable pub compare_sales : Sale → Readback → Text → Checked (List Mismatch)
unfolding validate_sales checks text_mismatches entries_mismatch
compare_sales expected actual remote = do
  wanted ← validate_sales expected
  entries ← actual_entries actual.entries
  ok (
      text_mismatches actual (checks (codes "Sales") remote wanted)
      ++ entries_mismatch wanted.entries entries)
