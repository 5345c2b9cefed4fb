-- ===== src/Tests/Workpapers.antt =====
-- Rows of a GST return and of an income-tax draft.
use firmos.Base.{ℕ, ◌≡◌, refl, true, not, ◌&&◌, some, none, List, [], ◌∷◌, if◌then◌else◌}
use firmos.Base.Int.{ℤ, pos, negsuc, ◌+ℤ◌}
use firmos.Base.Text.{codes}
use firmos.Base.Dict.{Dict, lookup, update, is_some}
use firmos.Workpapers.{Source, sales_register, system_calculated, Review}
use firmos.Workpapers.Rows.{itc_table}
use firmos.Workpapers.Rows.Laws.{is_claim, refused, open_question, itc_table-policy}
use firmos.Workpapers.Summary.{
  Adjustment, TableTotal, summarize_tables, component_of, add_rows, add_row, add_adjustments,
  adjust,
}
use firmos.Workpapers.Summary.Totalled.{expected, is_named, summarize_tables-lookup}
use firmos.IncomeTax.Drafting.{Row, amount, aggregate_sources}
use firmos.IncomeTax.Drafting.Laws.{sum_rows, aggregate_sources-sum}

-- A purchase under reverse charge without a record of the payment.
abbrev unpaid : Review
unpaid = record {
  customer_gstin = [];
  place_of_supply = [];
  reverse_charge = true;
  itc_classification = [];
  match_decision = codes "ACCEPTED";
  ims_decision = [];
  document_type = codes "INVOICE";
}

itc_table-policy_example :
    (is_claim (itc_table unpaid).0 ≡ not (refused unpaid) && not (open_question unpaid))
    × (is_some (itc_table unpaid).1.1 ≡ not (refused unpaid) && open_question unpaid)
itc_table-policy_example = itc_table-policy unpaid

abbrev sale : ℤ → Source
sale a = record {
  table_key = codes "3.1";
  source_kind = sales_register;
  source_id = 1;
  version = codes "1";
  amount = a;
  treatment = system_calculated;
  details = none;
  copied = none;
}

abbrev correction : Adjustment
correction = record { table_key = codes "3.1"; component = codes "cgst_paise"; amount = negsuc 49 }

abbrev sales : List Source
sales = sale (pos 700) ∷ sale (pos 300) ∷ []

abbrev totals_of : List Source → List Adjustment → Dict TableTotal
totals_of rows items = elim (summarize_tables rows items) [ none ↦ [] | some d ↦ d ]

summarize_tables-lookup_example : lookup (codes "3.1") (totals_of sales (correction ∷ [])) ≡ (
    if is_named (codes "3.1") sales (correction ∷ [])
    then some (expected (codes "3.1") sales (correction ∷ []))
    else none)
unfolding summarize_tables add_rows add_row add_adjustments adjust component_of update lookup ◌+ℤ◌
summarize_tables-lookup_example =
    summarize_tables-lookup sales (correction ∷ []) (totals_of sales (correction ∷ []))
      (codes "3.1") refl

abbrev form16 : ℕ → Row
form16 id = record {
  id = id;
  source_type = codes "FORM16";
  source_version = codes "1";
  extracted_values = (codes "tds_paise", pos 250) ∷ (codes "pan", pos 9) ∷ [];
}

aggregate_sources-sum_example :
    amount (codes "FORM16") (codes "tds_paise") (aggregate_sources (form16 1 ∷ form16 2 ∷ []))
    ≡ sum_rows (codes "FORM16") (codes "tds_paise") (form16 1 ∷ form16 2 ∷ [])
aggregate_sources-sum_example =
    aggregate_sources-sum (form16 1 ∷ form16 2 ∷ []) (codes "FORM16") (codes "tds_paise")
