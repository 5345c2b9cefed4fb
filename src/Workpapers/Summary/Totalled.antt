-- ===== src/Workpapers/Summary/Totalled.antt =====
-- Theorems on the result of summarize_tables of firmos-backend/core/gst_workpapers/calculation.py.
use mathlib.Core.Path.{subst, ap₂}
use mathlib.Core.Option
use firmos.Base.{
  ◌≡◌, inl, inr, refl, sym, ap, ◌∙◌, Bool, true, false, ◌||◌, Option, none, some, List, [], ◌∷◌,
  if◌then◌else◌, arith, Bool-cases, Option-cases,
}
use firmos.Base.Int.{ℤ, pos, ◌+ℤ◌, zero_left, zero_right, add_if}
use firmos.Base.Lists.{any, all}
use firmos.Base.Text.{Text, same_text}
use firmos.Base.Dict.{
  Dict, lookup, get_or, has_key, is_some, get_or-update, has_key-update, lookup-map, lookup-get_or,
}
use firmos.Workpapers.{Component, Amounts, Source}
use firmos.Workpapers.Summary.{
  Adjustment, Totals, TableTotal, no_amounts, same_component, add_at, add_rows, table_of,
  component_of, adjust, add_adjustments, no_totals, table_total, table_totals, totalled,
  summarize_tables,
}
use firmos.Workpapers.Summary.Laws.{
  if_table, rows_amount, rows_component, adjusted, amount_if, of_component, adjusted_component,
  at_if, add_rows-source_total, add_rows-adjustment, add_rows-component, add_rows-has_key,
}

-- What the adjustments add to one table.
record AdjustedBy (table : Text) (items : List Adjustment) (t t' : Totals) : Type 0 where
  adjustment :
      get_or (pos 0) table t'.adjustment_totals
      ≡ get_or (pos 0) table t.adjustment_totals +ℤ adjusted table items
  component :
      (c : Component)
      → get_or no_amounts table t'.totals c
        ≡ get_or no_amounts table t.totals c +ℤ adjusted_component c table items
  source : t'.source_totals ≡ t.source_totals
  named :
      has_key table t'.totals
      ≡ any (λ i. same_text (table_of i) table) items || has_key table t.totals

add_at-if :
    (c c' : Component) (a : ℤ) (f : Amounts)
    → add_at c a f c' ≡ f c' +ℤ (if same_component c c' then a else pos 0)
add_at-if c c' a f = elim (Bool-cases (same_component c c')) [
  | inl same ↦ rw same refl
  | inr far ↦ rw far (sym (zero_right (f c')))
]

adjust-component :
    (c c' : Component) (table : Text) (item : Adjustment) (t : Totals) (rest : ℤ)
    → component_of item ≡ some c
    → get_or no_amounts table (adjust c item t).totals c' +ℤ rest
      ≡ get_or no_amounts table t.totals c'
        +ℤ (if_table table (table_of item) (of_component c' item) +ℤ rest)
unfolding adjust
adjust-component c c' table item t rest e =
    let before = get_or no_amounts table t.totals in
    let same = same_text (table_of item) table in
    rw (ap (λ o. amount_if o c' item.amount) e) (
      ap (λ f. f c' +ℤ rest)
        (get_or-update no_amounts (add_at c item.amount) (table_of item) table t.totals)
      ∙ ap (◌+ℤ rest) (at_if same (add_at c item.amount before) before c')
      ∙ ap (λ a. (if same then a else before c') +ℤ rest) (add_at-if c c' item.amount before)
      ∙ add_if same (before c') (if same_component c c' then item.amount else pos 0) rest)

add_adjustments-bad :
    (item : Adjustment) (items : List Adjustment) (t : Totals)
    → component_of item ≡ none
    → add_adjustments (item ∷ items) t ≡ none
unfolding add_adjustments
add_adjustments-bad item items t e = rw (e, add_adjustments) refl

add_adjustments-good :
    (c : Component) (item : Adjustment) (items : List Adjustment) (t : Totals)
    → component_of item ≡ some c
    → add_adjustments (item ∷ items) t ≡ add_adjustments items (adjust c item t)
unfolding add_adjustments
add_adjustments-good c item items t e = rw (e, add_adjustments) refl

adjust-adjustment :
    (c : Component) (table : Text) (item : Adjustment) (t : Totals) (rest : ℤ)
    → get_or (pos 0) table (adjust c item t).adjustment_totals +ℤ rest
      ≡ get_or (pos 0) table t.adjustment_totals
        +ℤ (if_table table (table_of item) item.amount +ℤ rest)
unfolding adjust
adjust-adjustment c table item t rest =
    ap (◌+ℤ rest)
      (get_or-update (pos 0) (λ s. s +ℤ item.amount) (table_of item) table t.adjustment_totals)
    ∙ add_if (same_text (table_of item) table) (get_or (pos 0) table t.adjustment_totals)
        item.amount rest

adjust-source :
    (c : Component) (item : Adjustment) (t : Totals)
    → (adjust c item t).source_totals ≡ t.source_totals
unfolding adjust
adjust-source c item t = refl

adjust-named :
    (c : Component) (table : Text) (item : Adjustment) (items : List Adjustment) (t : Totals)
    → any (λ i. same_text (table_of i) table) items || has_key table (adjust c item t).totals
      ≡ any (λ i. same_text (table_of i) table) (item ∷ items) || has_key table t.totals
unfolding adjust
adjust-named c table item items t =
    ground (arith, has_key-update no_amounts (add_at c item.amount) (table_of item) table t.totals)

add_adjustments-AdjustedBy :
    (table : Text) (items : List Adjustment) (t t' : Totals)
    → add_adjustments items t ≡ some t'
    → AdjustedBy table items t t'
unfolding add_adjustments adjusted adjusted_component
add_adjustments-AdjustedBy table [] t t' e =
    let same : t ≡ t' = cc in
    subst (AdjustedBy table [] t) same (record {
      adjustment = sym (zero_right (get_or (pos 0) table t.adjustment_totals));
      component = λ c. sym (zero_right (get_or no_amounts table t.totals c));
      source = refl;
      named = refl;
    })
add_adjustments-AdjustedBy table (item ∷ items) t t' e = elim (Option-cases (component_of item)) [
  | inl bad ↦ let absurd : none ≡ some t' = sym (add_adjustments-bad item items t bad) ∙ e in cc
  | inr (c, good) ↦
      let rest =
        add_adjustments-AdjustedBy table items (adjust c item t) t'
          (sym (add_adjustments-good c item items t good) ∙ e) in
      record {
        adjustment = rest.adjustment ∙ adjust-adjustment c table item t (adjusted table items);
        component = λ c'.
            rest.component c'
            ∙ adjust-component c c' table item t (adjusted_component c' table items) good;
        source = rest.source ∙ adjust-source c item t;
        named = rest.named ∙ adjust-named c table item items t;
      }
]

-- The entry that a table's rows and adjustments make up.
unfoldable pub expected : Text → List Source → List Adjustment → TableTotal
expected table rows items = record {
  values = λ c. rows_component c table rows +ℤ adjusted_component c table items;
  source_total = rows_amount table rows;
  adjustment = adjusted table items;
  total = rows_amount table rows +ℤ adjusted table items;
}

abbrev pub is_named : Text → List Source → List Adjustment → Bool
is_named table rows items =
    any (λ i. same_text (table_of i) table) items || any (λ r. same_text r.table_key table) rows

total_of : Amounts → ℤ → ℤ → TableTotal
total_of values s a = record { values = values; source_total = s; adjustment = a; total = s +ℤ a }

totals-expected :
    (table : Text) (rows : List Source) (items : List Adjustment) (t : Totals)
    → AdjustedBy table items (add_rows rows no_totals) t
    → table_total t table (get_or no_amounts table t.totals) ≡ expected table rows items
unfolding expected total_of ◌+ℤ◌ rows_component lookup
totals-expected table rows items t h =
    let values : (c : Component)
        → get_or no_amounts table t.totals c
          ≡ rows_component c table rows +ℤ adjusted_component c table items =
      λ c.
        h.component c
        ∙ ap (◌+ℤ adjusted_component c table items)
            (add_rows-component c table rows no_totals ∙ zero_left (rows_component c table rows)) in
    let source : get_or (pos 0) table t.source_totals ≡ rows_amount table rows =
      ap (get_or (pos 0) table) h.source
      ∙ add_rows-source_total table rows no_totals
      ∙ zero_left (rows_amount table rows) in
    let adjustment : get_or (pos 0) table t.adjustment_totals ≡ adjusted table items =
      h.adjustment
      ∙ ap (λ d. get_or (pos 0) table d +ℤ adjusted table items)
          (add_rows-adjustment rows no_totals)
      ∙ zero_left (adjusted table items) in
    λ i. total_of (λ c. values c i) (source i) (adjustment i)

totals-named :
    (table : Text) (rows : List Source) (items : List Adjustment) (t : Totals)
    → AdjustedBy table items (add_rows rows no_totals) t
    → has_key table t.totals ≡ is_named table rows items
unfolding lookup
totals-named table rows items t h = ground (arith, h.named, add_rows-has_key table rows no_totals)

map-if :
    (f : Amounts → TableTotal) (b : Bool) (x : Amounts)
    → Option.map f (if b then some x else none) ≡ (if b then some (f x) else none)
map-if f true x = refl
map-if f false x = refl

totalled-is_some : (o : Option Totals) → is_some (totalled o) ≡ is_some o
totalled-is_some none = refl
totalled-is_some (some t) = refl

add_adjustments-is_some :
    (items : List Adjustment) (t : Totals)
    → is_some (add_adjustments items t) ≡ all (λ i. is_some (component_of i)) items
unfolding add_adjustments
add_adjustments-is_some [] t = refl
add_adjustments-is_some (item ∷ items) t = elim (Option-cases (component_of item)) [
  | inl bad ↦ rw bad (ap is_some (add_adjustments-bad item items t bad))
  | inr (c, good) ↦ rw good (
      ap is_some (add_adjustments-good c item items t good)
      ∙ add_adjustments-is_some items (adjust c item t))
]

-- Where summarize_tables returns, it has an entry for exactly the tables that some row or adjustment names,
-- and the entry holds the sums of their amounts and of each GST component, however the rows are ordered.
pub summarize_tables-lookup :
    (rows : List Source) (items : List Adjustment) (d : Dict TableTotal) (table : Text)
    → summarize_tables rows items ≡ some d
    → lookup table d
      ≡ (if is_named table rows items then some (expected table rows items) else none)
unfolding summarize_tables
summarize_tables-lookup rows items d table e =
    elim (Option-cases (add_adjustments items (add_rows rows no_totals))) [
      | inl bad ↦ let absurd : none ≡ some d = sym (ap totalled bad) ∙ e in cc
      | inr (t, good) ↦
          let whole : some (table_totals t) ≡ some d = sym (ap totalled good) ∙ e in
          let equal : table_totals t ≡ d = cc in
          let h = add_adjustments-AdjustedBy table items (add_rows rows no_totals) t good in
          ap (lookup table) (sym equal)
          ∙ lookup-map (table_total t) table t.totals
          ∙ ap (Option.map (table_total t table)) (lookup-get_or no_amounts table t.totals)
          ∙ map-if (table_total t table) (has_key table t.totals) (get_or no_amounts table t.totals)
          ∙ ap₂ (λ b x. if b then some x else none) (totals-named table rows items t h)
              (totals-expected table rows items t h)
    ]

-- summarize_tables raises exactly if some adjustment names a component that is not one of the five.
pub summarize_tables-raises :
    (rows : List Source) (items : List Adjustment)
    → is_some (summarize_tables rows items) ≡ all (λ i. is_some (component_of i)) items
unfolding summarize_tables
summarize_tables-raises rows items =
    totalled-is_some (add_adjustments items (add_rows rows no_totals))
    ∙ add_adjustments-is_some items (add_rows rows no_totals)
