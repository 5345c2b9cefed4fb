-- ===== src/Tests/Tally.antt =====
-- Vouchers and the actions of a Tally device at concrete inputs.
use mathlib.Core.List.{Perm}
use firmos.Base.{◌≡◌, refl, Option, none, some, List, [], ◌∷◌}
use firmos.Base.Int.{pos, negsuc, ◌+ℤ◌, ◌-ℤ◌}
use firmos.Base.Text.{Text, codes, strip, drop_spaces}
use firmos.Base.Result.{ok, raised, ◌>>=◌, raise_if}
use firmos.Base.Sorting.{sorted, insert, same_list}
use firmos.Tally.{Line, GstLine, str_ℤ, digits}
use firmos.Tally.Voucher.{
  Purchase, Voucher, validate_purchase, read_entries, read_gst, given_entries, Refusal,
}
use firmos.Tally.Compare.{
  Readback, compare_purchase, checks, text_mismatches, entries_mismatch, gst_mismatch,
  actual_entries, actual_gst, field,
}
use firmos.Tally.Compare.Laws.{IsCopy, compare_purchase-IsCopy}
use firmos.Tally.Compare.Own.{readback_of, compare_purchase-own}

abbrev pub iso : Text → Option Text
iso s = some (codes "20260630")

abbrev pub invoice : Purchase
invoice = record {
  tally_company = codes "Acme";
  company_guid = codes "g1";
  party_ledger = codes "Vendor";
  purchase_ledger = codes "Purchases";
  date = some (codes "2026-06-30");
  total_paise = some (pos 118);
  entries =
      record { ledger = codes "Vendor "; amount_paise = some (pos 118) }
      ∷ record { ledger = codes "Purchases"; amount_paise = some (negsuc 99) }
      ∷ record { ledger = codes "IGST"; amount_paise = some (negsuc 17) }
      ∷ [];
  currency = [];
  gst_details =
      record {
        ledger_name = codes "IGST";
        tax_type = codes "igst";
        amount_paise = some (negsuc 17);
      }
      ∷ [];
  tax_total_paise = some (some (pos 18));
  narration = [];
  reference = codes "R7";
  voucher_number = [];
}

abbrev pub voucher : Voucher
voucher = record {
  date = codes "20260630";
  company_guid = codes "g1";
  company_name = codes "Acme";
  party_ledger = codes "Vendor";
  account_ledger = codes "Purchases";
  total_paise = pos 118;
  narration = [];
  reference = codes "R7";
  currency = codes "INR";
  entries =
      record { ledger_name = codes "Vendor"; amount_paise = pos 118 }
      ∷ record { ledger_name = codes "Purchases"; amount_paise = negsuc 99 }
      ∷ record { ledger_name = codes "IGST"; amount_paise = negsuc 17 }
      ∷ [];
  voucher_number = [];
  gst_details =
      record { ledger_name = codes "IGST"; tax_type = codes "IGST"; amount_paise = negsuc 17 } ∷ [];
  tax_total_paise = pos 18;
}

invoice_valid : validate_purchase iso invoice ≡ ok voucher
unfolding validate_purchase strip drop_spaces given_entries read_entries read_gst ◌>>=◌ raise_if
    ◌+ℤ◌ ◌-ℤ◌
invoice_valid = refl

-- Ledgers with spaces around them: the default entries are stripped, the ledgers are not.
abbrev spaced : Purchase
spaced = record invoice {
  party_ledger = codes " Vendor";
  entries = [];
  gst_details = [];
  tax_total_paise = none;
}

spaced_refused : validate_purchase iso spaced ≡ raised Refusal.ledger_missing
unfolding validate_purchase strip drop_spaces given_entries read_entries read_gst ◌>>=◌ raise_if
    ◌+ℤ◌ ◌-ℤ◌
spaced_refused = refl

abbrev pub remote : Text
remote = codes "firmos:1"

-- The lines come back in another order.
abbrev pub shown : Readback
shown = record (readback_of (codes "T1") (codes "Purchase") remote voucher) {
  entries =
      record { ledger = codes "IGST"; amount_paise = some (negsuc 17) }
      ∷ record { ledger = codes "Vendor"; amount_paise = some (pos 118) }
      ∷ record { ledger = codes "Purchases"; amount_paise = some (negsuc 99) }
      ∷ [];
}

shown_clean : compare_purchase iso invoice shown remote ≡ ok []
unfolding compare_purchase validate_purchase strip drop_spaces given_entries read_entries read_gst
    ◌>>=◌ raise_if ◌+ℤ◌ ◌-ℤ◌ actual_entries actual_gst checks text_mismatches entries_mismatch
    gst_mismatch field sorted insert same_list str_ℤ digits
shown_clean = refl

compare_purchase-IsCopy_example :
    (v : Voucher) × (lines : List Line) × (gst : List GstLine) × (validate_purchase iso invoice
      ≡ ok v)
    × (actual_entries shown.entries ≡ ok lines)
    × (actual_gst shown.gst_details ≡ ok gst)
    × IsCopy (codes "Purchase") remote v shown lines
    × Perm gst v.gst_details
compare_purchase-IsCopy_example = compare_purchase-IsCopy iso invoice shown remote shown_clean

compare_purchase-own_example :
    compare_purchase iso invoice (readback_of (codes "T1") (codes "Purchase") remote voucher) remote
    ≡ ok []
compare_purchase-own_example =
    compare_purchase-own iso invoice voucher (codes "T1") remote invoice_valid
