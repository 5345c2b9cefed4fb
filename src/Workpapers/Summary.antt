-- ===== src/Workpapers/Summary.antt =====
-- firmos-backend/core/gst_workpapers/calculation.py: summarize_tables. The three dicts are association
-- lists, and none is the ValueError.
pub mod Laws
pub mod Totalled
use firmos.Base.{
  Bool, true, false, ◌||◌, Option, none, some, List, [], ◌∷◌, map, if◌then◌else◌, ◌≡◌, refl,
}
use firmos.Base.Int.{ℤ, pos, ◌+ℤ◌}
use firmos.Base.Text.{Text, codes, same_text, is_empty_text}
use firmos.Base.Dict.{Dict, get_or, update}
use firmos.Workpapers.{
  Component, taxable_paise, igst_paise, cgst_paise, sgst_paise, cess_paise, Amounts, Source,
}

-- An adjustment, with the empty text for a missing table or component and zero for a missing amount.
pub record Adjustment : Type 0 where
  pub table_key : Text
  pub component : Text
  pub amount : ℤ

pub record Totals : Type 0 where
  pub totals : Dict Amounts
  pub source_totals : Dict ℤ
  pub adjustment_totals : Dict ℤ

pub record TableTotal : Type 0 where
  pub values : Amounts
  pub source_total : ℤ
  pub adjustment : ℤ
  pub total : ℤ

abbrev pub no_amounts : Amounts
no_amounts c = pos 0

abbrev pub same_component : Component → Component → Bool
same_component taxable_paise taxable_paise = true
same_component igst_paise igst_paise = true
same_component cgst_paise cgst_paise = true
same_component sgst_paise sgst_paise = true
same_component cess_paise cess_paise = true
same_component _ _ = false

abbrev pub add_at : Component → ℤ → Amounts → Amounts
add_at c a amounts c' = if same_component c c' then amounts c' +ℤ a else amounts c'

-- `row.get("details") or {...}`
abbrev pub details_of : Source → Amounts
details_of row = elim row.details [
  | none ↦ add_at taxable_paise row.amount no_amounts
  | some details ↦ details
]

unfoldable pub add_row : Source → Totals → Totals
add_row row t = record {
  totals = update no_amounts (λ values c. values c +ℤ details_of row c) row.table_key t.totals;
  source_totals = update (pos 0) (λ s. s +ℤ row.amount) row.table_key t.source_totals;
  adjustment_totals = t.adjustment_totals;
}

unfoldable pub add_rows : List Source → Totals → Totals
unfolding add_row
add_rows [] t = t
add_rows (row ∷ rows) t = add_rows rows (add_row row t)

abbrev pub table_of : Adjustment → Text
table_of item = if is_empty_text item.table_key then codes "Adjustments" else item.table_key

-- The component of an adjustment, unless it is not one of COMPONENTS.
unfoldable pub component_of : Adjustment → Option Component
component_of item =
    if is_empty_text item.component || same_text item.component (codes "taxable_paise")
    then some taxable_paise
    else if same_text item.component (codes "igst_paise")
    then some igst_paise
    else if same_text item.component (codes "cgst_paise")
    then some cgst_paise
    else if same_text item.component (codes "sgst_paise")
    then some sgst_paise
    else if same_text item.component (codes "cess_paise")
    then some cess_paise
    else none

unfoldable pub adjust : Component → Adjustment → Totals → Totals
adjust c item t = record {
  totals = update no_amounts (add_at c item.amount) (table_of item) t.totals;
  source_totals = t.source_totals;
  adjustment_totals = update (pos 0) (λ s. s +ℤ item.amount) (table_of item) t.adjustment_totals;
}

unfoldable pub add_adjustments : List Adjustment → Totals → Option Totals
unfolding component_of adjust
add_adjustments [] t = some t
add_adjustments (item ∷ items) t = elim (component_of item) [
  | none ↦ none
  | some c ↦ add_adjustments items (adjust c item t)
]

abbrev pub no_totals : Totals
no_totals = record { totals = []; source_totals = []; adjustment_totals = [] }

abbrev pub table_total : Totals → Text → Amounts → TableTotal
table_total t table values =
    let source_total = get_or (pos 0) table t.source_totals in
    let adjustment = get_or (pos 0) table t.adjustment_totals in
    record {
      values = values;
      source_total = source_total;
      adjustment = adjustment;
      total = source_total +ℤ adjustment;
    }

abbrev pub table_totals : Totals → Dict TableTotal
table_totals t = map (λ e. (e.0, table_total t e.0 e.1)) t.totals

abbrev pub totalled : Option Totals → Option (Dict TableTotal)
totalled none = none
totalled (some t) = some (table_totals t)

unfoldable pub summarize_tables : List Source → List Adjustment → Option (Dict TableTotal)
unfolding add_rows add_adjustments
summarize_tables rows adjustments = totalled (add_adjustments adjustments (add_rows rows no_totals))
