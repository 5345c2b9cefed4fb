-- ===== src/Tally/Compare/Own.antt =====
-- The read-back of a voucher as it was written, against its own payload: compare_purchase and compare_sales of
-- firmos-backend/connectors/tally/canonical.py.
use firmos.Base.{
  ◌≡◌, refl, true, false, List, [], ◌∷◌, inl, inr, Bool-cases, arith, map, Option, some,
}
use firmos.Base.Lists.{any, All, All-append}
use firmos.Base.Result.{ok, ◌>>=◌}
use firmos.Base.Text.{Text, codes, same_text, eq_of_same_text, is_empty_text, upper}
use firmos.Base.Sorting.{sorted, same_list_refl}
use firmos.Tally.{Line, GstLine, same_line, leb_line, same_gst, leb_gst, str_ℤ}
use firmos.Tally.Voucher.{
  Entry, GstEntry, Purchase, Sale, Voucher, validate_purchase, validate_sales, is_incomplete_gst,
  is_tax,
}
use firmos.Tally.Voucher.Laws.{validate_purchase-IsPostable}
use firmos.Tally.Compare.{
  Field, Readback, field, if_wanted, checks, text_mismatches, entries_mismatch, gst_mismatch,
  actual_entries, actual_gst, compare_purchase, compare_sales,
}
use firmos.Tally.Compare.Laws.{texts-none, same_line_refl, same_gst_refl}

-- What Tally shows of a voucher that was written as it is.
abbrev pub entry_of : Line → Entry
entry_of l = record { ledger = l.ledger_name; amount_paise = some l.amount_paise }

abbrev pub gst_entry_of : GstLine → GstEntry
gst_entry_of g = record {
  ledger_name = g.ledger_name;
  tax_type = g.tax_type;
  amount_paise = some g.amount_paise;
}

abbrev pub readback_of : Text → Text → Text → Voucher → Readback
readback_of guid kind remote v = record {
  guid = guid;
  remote_id = remote;
  company_guid = v.company_guid;
  voucher_type = kind;
  date = v.date;
  party_ledger = v.party_ledger;
  total_paise = str_ℤ v.total_paise;
  reference = v.reference;
  narration = v.narration;
  voucher_number = v.voucher_number;
  entries = map entry_of v.entries;
  gst_details = map gst_entry_of v.gst_details;
}

actual_entries-own : (ls : List Line) → actual_entries (map entry_of ls) ≡ ok ls
unfolding actual_entries ◌>>=◌
actual_entries-own [] = refl
actual_entries-own (l ∷ ls) = rw (actual_entries-own ls) refl

upper_tax : (t : Text) → is_tax t ≡ true → upper t ≡ t
upper_tax t h = elim (Bool-cases (same_text t (codes "CGST"))) [
  | inl e ↦ rw (eq_of_same_text t _ e) refl
  | inr n1 ↦ elim (Bool-cases (same_text t (codes "SGST"))) [
    | inl e ↦ rw (eq_of_same_text t _ e) refl
    | inr n2 ↦ elim (Bool-cases (same_text t (codes "IGST"))) [
      | inl e ↦ rw (eq_of_same_text t _ e) refl
      | inr n3 ↦ rw (eq_of_same_text t (codes "CESS") (ground arith)) refl
    ]
  ]
]

actual_gst-own :
    (gs : List GstLine)
    → any is_incomplete_gst gs ≡ false
    → actual_gst (map gst_entry_of gs) ≡ ok gs
unfolding actual_gst ◌>>=◌
actual_gst-own [] h = refl
actual_gst-own (g ∷ gs) h =
    let tax : is_tax g.tax_type ≡ true = ground arith in
    rw (actual_gst-own gs (ground arith)) (rw (upper_tax g.tax_type tax) refl)

own_optional :
    (r : Readback) (key : Field) (wanted : Text)
    → field r key ≡ wanted
    → All (λ c. field r c.0 ≡ c.1) (if_wanted key wanted)
own_optional r key wanted h = elim (Bool-cases (is_empty_text wanted)) [
  | inl blank ↦ rw blank tt
  | inr there ↦ rw there (h, tt)
]

own_texts :
    (guid kind remote : Text) (v : Voucher)
    → text_mismatches (readback_of guid kind remote v) (checks kind remote v) ≡ []
unfolding checks field
own_texts guid kind remote v =
    let r = readback_of guid kind remote v in
    let agrees = λ (c : Field × Text). field r c.0 ≡ c.1 in
    let optional = All-append agrees _ _ (own_optional r Field.reference v.reference refl) (
      All-append agrees _ _ (own_optional r Field.narration v.narration refl)
        (own_optional r Field.voucher_number v.voucher_number refl)) in
    texts-none r (checks kind remote v) (refl, (refl, (refl, (refl, (refl, (refl, optional))))))

own_entries : (ls : List Line) → entries_mismatch ls ls ≡ []
unfolding entries_mismatch
own_entries ls = rw (same_list_refl same_line same_line_refl (sorted leb_line ls)) refl

own_gst : (gs : List GstLine) → gst_mismatch gs gs ≡ []
unfolding gst_mismatch
own_gst gs = rw (same_list_refl same_gst same_gst_refl (sorted leb_gst gs)) refl

-- A payload that validates has no mismatch with the read-back of its own voucher.
pub compare_purchase-own :
    (compact_date : Text → Option Text) (p : Purchase) (v : Voucher) (guid remote : Text)
    → validate_purchase compact_date p ≡ ok v
    → compare_purchase compact_date p (readback_of guid (codes "Purchase") remote v) remote ≡ ok []
unfolding compare_purchase ◌>>=◌
compare_purchase-own compact_date p v guid remote h =
    let complete = (validate_purchase-IsPostable compact_date p v h).1.tax_complete in
    rw
      (
        h,
        actual_entries-own v.entries,
        actual_gst-own v.gst_details complete,
        own_texts guid (codes "Purchase") remote v,
        own_entries v.entries,
        own_gst v.gst_details,
      )
      refl

pub compare_sales-own :
    (p : Sale) (v : Voucher) (guid remote : Text)
    → validate_sales p ≡ ok v
    → compare_sales p (readback_of guid (codes "Sales") remote v) remote ≡ ok []
unfolding compare_sales ◌>>=◌
compare_sales-own p v guid remote h =
    rw
      (
        h,
        actual_entries-own v.entries,
        own_texts guid (codes "Sales") remote v,
        own_entries v.entries,
      )
      refl
