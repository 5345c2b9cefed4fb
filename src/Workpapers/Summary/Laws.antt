-- ===== src/Workpapers/Summary/Laws.antt =====
-- Theorems on summarize_tables of firmos-backend/core/gst_workpapers/calculation.py.
use firmos.Base.{
  ◌≡◌, refl, sym, ap, ◌∙◌, Bool, true, false, ◌||◌, Option, none, some, List, [], ◌∷◌,
  if◌then◌else◌, arith,
}
use firmos.Base.Int.{ℤ, pos, ◌+ℤ◌, zero_right, add_if}
use firmos.Base.Lists.{any}
use firmos.Base.Text.{Text, same_text}
use firmos.Base.Dict.{get_or, has_key, get_or-update, has_key-update}
use firmos.Workpapers.{Component, Amounts, Source}
use firmos.Workpapers.Summary.{
  Adjustment, Totals, no_amounts, same_component, details_of, add_row, add_rows, table_of,
  component_of,
}

-- The amounts of a table, by the rows and the adjustments that name it.
abbrev pub if_table : Text → Text → ℤ → ℤ
if_table table t a = if same_text t table then a else pos 0

unfoldable pub rows_amount : Text → List Source → ℤ
rows_amount table [] = pos 0
rows_amount table (row ∷ rows) = if_table table row.table_key row.amount +ℤ rows_amount table rows

unfoldable pub rows_component : Component → Text → List Source → ℤ
rows_component c table [] = pos 0
rows_component c table (row ∷ rows) =
    if_table table row.table_key (details_of row c) +ℤ rows_component c table rows

unfoldable pub adjusted : Text → List Adjustment → ℤ
adjusted table [] = pos 0
adjusted table (item ∷ items) = if_table table (table_of item) item.amount +ℤ adjusted table items

abbrev pub amount_if : Option Component → Component → ℤ → ℤ
amount_if none c a = pos 0
amount_if (some c') c a = if same_component c' c then a else pos 0

abbrev pub of_component : Component → Adjustment → ℤ
of_component c item = amount_if (component_of item) c item.amount

unfoldable pub adjusted_component : Component → Text → List Adjustment → ℤ
adjusted_component c table [] = pos 0
adjusted_component c table (item ∷ items) =
    if_table table (table_of item) (of_component c item) +ℤ adjusted_component c table items

pub add_rows-source_total :
    (table : Text) (rows : List Source) (t : Totals)
    → get_or (pos 0) table (add_rows rows t).source_totals
      ≡ get_or (pos 0) table t.source_totals +ℤ rows_amount table rows
unfolding add_rows add_row rows_amount
add_rows-source_total table [] t = sym (zero_right (get_or (pos 0) table t.source_totals))
add_rows-source_total table (row ∷ rows) t =
    add_rows-source_total table rows (add_row row t)
    ∙ ap (◌+ℤ rows_amount table rows)
        (get_or-update (pos 0) (λ s. s +ℤ row.amount) row.table_key table t.source_totals)
    ∙ add_if (same_text row.table_key table) (get_or (pos 0) table t.source_totals) row.amount
        (rows_amount table rows)

pub add_rows-adjustment :
    (rows : List Source) (t : Totals) → (add_rows rows t).adjustment_totals ≡ t.adjustment_totals
unfolding add_rows add_row
add_rows-adjustment [] t = refl
add_rows-adjustment (row ∷ rows) t = add_rows-adjustment rows (add_row row t)

pub at_if :
    (b : Bool) (f g : Amounts) (c : Component) → (if b then f else g) c ≡ (if b then f c else g c)
at_if true f g c = refl
at_if false f g c = refl

pub add_rows-component :
    (c : Component) (table : Text) (rows : List Source) (t : Totals)
    → get_or no_amounts table (add_rows rows t).totals c
      ≡ get_or no_amounts table t.totals c +ℤ rows_component c table rows
unfolding add_rows add_row rows_component
add_rows-component c table [] t = sym (zero_right (get_or no_amounts table t.totals c))
add_rows-component c table (row ∷ rows) t =
    let add : Amounts → Amounts = λ values c'. values c' +ℤ details_of row c' in
    let before = get_or no_amounts table t.totals in
    add_rows-component c table rows (add_row row t)
    ∙ ap (◌+ℤ rows_component c table rows) (
        ap (λ f. f c) (get_or-update no_amounts add row.table_key table t.totals)
        ∙ at_if (same_text row.table_key table) (add before) before c)
    ∙ add_if (same_text row.table_key table) (before c) (details_of row c)
        (rows_component c table rows)

pub add_rows-has_key :
    (table : Text) (rows : List Source) (t : Totals)
    → has_key table (add_rows rows t).totals
      ≡ any (λ r. same_text r.table_key table) rows || has_key table t.totals
unfolding add_rows add_row
add_rows-has_key table [] t = refl
add_rows-has_key table (row ∷ rows) t =
    let add : Amounts → Amounts = λ values c. values c +ℤ details_of row c in
    let there = has_key-update no_amounts add row.table_key table t.totals in
    ground (arith, add_rows-has_key table rows (add_row row t), there)
