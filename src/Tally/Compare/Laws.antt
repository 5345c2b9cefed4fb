-- ===== src/Tally/Compare/Laws.antt =====
-- What a comparison without a mismatch says of the read-back: firmos-backend/connectors/tally/canonical.py.
use mathlib.Core.List.{Perm}
use firmos.Base.{
  ◌≡◌, refl, sym, true, List, [], ◌∷◌, ◌++◌, inl, inr, Bool-cases, arith, Option, ◌∙◌,
}
use firmos.Base.Int.{pos_part, neg_part}
use firmos.Base.Lists.{All}
use firmos.Base.Result.{ok, bind-ok, ok_injective}
use firmos.Base.Text.{Text, codes, same_text, same_text_refl, eq_of_same_text}
use firmos.Base.Sorting.{sorted, eq_of_same_list, perm_of_sorted, sum_of_sorted}
use firmos.Tally.{Line, GstLine, same_line, leb_line, same_gst, leb_gst, str_ℤ}
use firmos.Tally.Voucher.{Purchase, Sale, Voucher, validate_purchase, validate_sales}
use firmos.Tally.Voucher.Laws.{
  debits, credits, IsPostable, validate_purchase-IsPostable, validate_sales-IsPostable,
}
use firmos.Tally.Compare.{
  Field, Readback, field, Mismatch, checks, text_mismatches, entries_mismatch, gst_mismatch,
  actual_entries, actual_gst, compare_purchase, compare_sales,
}

append_nil : (xs ys : List Mismatch) → xs ++ ys ≡ [] → (xs ≡ []) × (ys ≡ [])
append_nil [] ys h = (refl, h)
append_nil (x ∷ xs) ys h = cc

eq_of_same_line : (a b : Line) → same_line a b ≡ true → a ≡ b
eq_of_same_line a b h =
    let names : a.ledger_name ≡ b.ledger_name =
      eq_of_same_text a.ledger_name b.ledger_name (ground arith) in
    let amounts : a.amount_paise ≡ b.amount_paise = ground arith in
    λ i. record { ledger_name = names i; amount_paise = amounts i }

pub same_line_refl : (a : Line) → same_line a a ≡ true
same_line_refl a = ground (arith, same_text_refl a.ledger_name)

eq_of_same_gst : (a b : GstLine) → same_gst a b ≡ true → a ≡ b
eq_of_same_gst a b h =
    let names : a.ledger_name ≡ b.ledger_name =
      eq_of_same_text a.ledger_name b.ledger_name (ground arith) in
    let kinds : a.tax_type ≡ b.tax_type = eq_of_same_text a.tax_type b.tax_type (ground arith) in
    let amounts : a.amount_paise ≡ b.amount_paise = ground arith in
    λ i. record { ledger_name = names i; tax_type = kinds i; amount_paise = amounts i }

pub same_gst_refl : (a : GstLine) → same_gst a a ≡ true
same_gst_refl a = ground (arith, same_text_refl a.ledger_name, same_text_refl a.tax_type)

entries-sorted :
    (wanted actual : List Line)
    → entries_mismatch wanted actual ≡ []
    → sorted leb_line actual ≡ sorted leb_line wanted
unfolding entries_mismatch
entries-sorted wanted actual h = eq_of_same_list same_line eq_of_same_line _ _ (ground arith)

gst-perm : (wanted actual : List GstLine) → gst_mismatch wanted actual ≡ [] → Perm actual wanted
unfolding gst_mismatch
gst-perm wanted actual h =
    perm_of_sorted leb_gst actual wanted
      (eq_of_same_list same_gst eq_of_same_gst _ _ (ground arith))

texts-agree :
    (r : Readback) (cs : List (Field × Text))
    → text_mismatches r cs ≡ []
    → All (λ c. field r c.0 ≡ c.1) cs
unfolding text_mismatches
texts-agree r [] h = tt
texts-agree r (c ∷ cs) h = elim (Bool-cases (same_text (field r c.0) c.1)) [
  | inl same ↦ (eq_of_same_text (field r c.0) c.1 same, texts-agree r cs (ground (arith, same)))
  | inr other ↦ ground (arith, other)
]

pub texts-none :
    (r : Readback) (cs : List (Field × Text))
    → All (λ c. field r c.0 ≡ c.1) cs
    → text_mismatches r cs ≡ []
unfolding text_mismatches
texts-none r [] h = refl
texts-none r (c ∷ cs) h =
    let same : same_text (field r c.0) c.1 ≡ true = rw h.0 (same_text_refl c.1) in
    rw same (texts-none r cs h.1)

-- A read-back that shows the voucher: its texts, its lines in some order, and so its balance.
pub record IsCopy (kind remote : Text) (v : Voucher) (r : Readback) (lines : List Line)
    : Type 0 where
  pub same_remote : r.remote_id ≡ remote
  pub same_company : r.company_guid ≡ v.company_guid
  pub same_kind : r.voucher_type ≡ kind
  pub same_date : r.date ≡ v.date
  pub same_party : r.party_ledger ≡ v.party_ledger
  pub same_total : r.total_paise ≡ str_ℤ v.total_paise
  pub same_lines : Perm lines v.entries
  pub is_balanced : debits lines ≡ credits lines

checks-agree :
    (kind remote : Text) (v : Voucher) (r : Readback) (lines : List Line)
    → IsPostable v
    → text_mismatches r (checks kind remote v) ≡ []
    → entries_mismatch v.entries lines ≡ []
    → IsCopy kind remote v r lines
unfolding checks field
checks-agree kind remote v r lines sound ht he =
    let agreed = texts-agree r (checks kind remote v) ht in
    let same = entries-sorted v.entries lines he in
    record {
      same_remote = agreed.0;
      same_company = agreed.1.0;
      same_kind = agreed.1.1.0;
      same_date = agreed.1.1.1.0;
      same_party = agreed.1.1.1.1.0;
      same_total = agreed.1.1.1.1.1.0;
      same_lines = perm_of_sorted leb_line lines v.entries same;
      is_balanced =
          sum_of_sorted leb_line (λ (l : Line). neg_part l.amount_paise) lines v.entries same
          ∙ sound.is_balanced
          ∙ sym
              (sum_of_sorted leb_line (λ (l : Line). pos_part l.amount_paise) lines v.entries same);
    }

-- A purchase's read-back in which `compare_purchase` finds no mismatch is readable and, for the voucher
-- that the approved payload validates to, has its remote id, company, type, date, party, total, its
-- lines and its tax lines in some order, and debits that equal its credits.
pub compare_purchase-IsCopy :
    (compact_date : Text → Option Text) (p : Purchase) (r : Readback) (remote : Text)
    → compare_purchase compact_date p r remote ≡ ok []
    → (v : Voucher) × (lines : List Line) × (gst : List GstLine) × (validate_purchase compact_date p
        ≡ ok v)
      × (actual_entries r.entries ≡ ok lines)
      × (actual_gst r.gst_details ≡ ok gst)
      × IsCopy (codes "Purchase") remote v r lines
      × Perm gst v.gst_details
unfolding compare_purchase
compare_purchase-IsCopy compact_date p r remote h =
    let (v, hv, h1) = bind-ok (validate_purchase compact_date p) _ [] h in
    let (lines, hl, h2) = bind-ok (actual_entries r.entries) _ [] h1 in
    let (gst, hg, h3) = bind-ok (actual_gst r.gst_details) _ [] h2 in
    let (texts, rest) = append_nil _ _ (ok_injective h3) in
    let (entries, taxes) = append_nil _ _ rest in
    (
      v,
      lines,
      gst,
      hv,
      hl,
      hg,
      checks-agree _ remote v r lines (validate_purchase-IsPostable compact_date p v hv).0 texts
          entries,
      gst-perm v.gst_details gst taxes,
    )

pub compare_sales-IsCopy :
    (p : Sale) (r : Readback) (remote : Text)
    → compare_sales p r remote ≡ ok []
    → (v : Voucher) × (lines : List Line) × (validate_sales p ≡ ok v)
      × (actual_entries r.entries ≡ ok lines)
      × IsCopy (codes "Sales") remote v r lines
unfolding compare_sales
compare_sales-IsCopy p r remote h =
    let (v, hv, h1) = bind-ok (validate_sales p) _ [] h in
    let (lines, hl, h2) = bind-ok (actual_entries r.entries) _ [] h1 in
    let (texts, entries) = append_nil _ _ (ok_injective h2) in
    (
      v,
      lines,
      hv,
      hl,
      checks-agree _ remote v r lines (validate_sales-IsPostable p v hv) texts entries,
    )
