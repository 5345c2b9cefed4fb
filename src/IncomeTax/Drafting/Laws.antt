-- ===== src/IncomeTax/Drafting/Laws.antt =====
-- Theorems on firmos-backend/core/itr_drafting.py.
use firmos.Base.{
  ◌≡◌, ◌∙◌, sym, ap, inl, inr, refl, Bool, true, false, ◌&&◌, List, [], ◌∷◌, if◌then◌else◌,
  Bool-cases,
}
use firmos.Base.Int.{ℤ, pos, ◌+ℤ◌, zero_left, zero_right, add_if}
use firmos.Base.Text.{Text, same_text}
use firmos.Base.Dict.{Dict, lookup, get_or, update, get_or-update}
use firmos.IncomeTax.Drafting.{Row, is_paise, add_values, aggregate_loop, aggregate_sources, amount}

-- The values of the rows of a type, under one key.
unfoldable pub sum_values : Text → Dict ℤ → ℤ
sum_values key [] = pos 0
sum_values key (entry ∷ values) =
    (if is_paise entry.0 && same_text entry.0 key then entry.1 else pos 0) +ℤ sum_values key values

unfoldable pub sum_rows : Text → Text → List Row → ℤ
unfolding sum_values
sum_rows kind key [] = pos 0
sum_rows kind key (row ∷ rows) =
    (if same_text row.source_type kind then sum_values key row.extracted_values else pos 0)
    +ℤ sum_rows kind key rows

add_values-sum :
    (key : Text) (values bucket : Dict ℤ)
    → get_or (pos 0) key (add_values values bucket)
      ≡ get_or (pos 0) key bucket +ℤ sum_values key values
unfolding add_values sum_values
add_values-sum key [] bucket = sym (zero_right (get_or (pos 0) key bucket))
add_values-sum key (entry ∷ values) bucket = elim (Bool-cases (is_paise entry.0)) [
  | inl counted ↦
      let next = update (pos 0) (λ a. a +ℤ entry.1) entry.0 bucket in
      rw counted (
        add_values-sum key values next
        ∙ ap (◌+ℤ sum_values key values)
            (get_or-update (pos 0) (λ a. a +ℤ entry.1) entry.0 key bucket)
        ∙ add_if (same_text entry.0 key) (get_or (pos 0) key bucket) entry.1
            (sum_values key values))
  | inr other ↦ rw other (
      add_values-sum key values bucket
      ∙ ap (get_or (pos 0) key bucket +ℤ◌) (sym (zero_left (sum_values key values))))
]

add_values_if :
    (b : Bool) (key : Text) (values bucket : Dict ℤ)
    → get_or (pos 0) key (if b then add_values values bucket else bucket) ≡ (
        if b then get_or (pos 0) key bucket +ℤ sum_values key values else get_or (pos 0) key bucket)
add_values_if true key values bucket = add_values-sum key values bucket
add_values_if false key values bucket = refl

aggregate_loop-sum :
    (kind key : Text) (rows : List Row) (totals : Dict (Dict ℤ))
    → amount kind key (aggregate_loop rows totals)
      ≡ amount kind key totals +ℤ sum_rows kind key rows
unfolding aggregate_loop sum_rows
aggregate_loop-sum kind key [] totals = sym (zero_right (amount kind key totals))
aggregate_loop-sum kind key (row ∷ rows) totals =
    let before = get_or [] kind totals in
    let same = same_text row.source_type kind in
    aggregate_loop-sum kind key rows
      (update [] (add_values row.extracted_values) row.source_type totals)
    ∙ ap (◌+ℤ sum_rows kind key rows) (
        ap (get_or (pos 0) key)
          (get_or-update [] (add_values row.extracted_values) row.source_type kind totals)
        ∙ add_values_if same key row.extracted_values before)
    ∙ add_if same (get_or (pos 0) key before) (sum_values key row.extracted_values)
        (sum_rows kind key rows)

-- What by_type holds of a type and a key after aggregate_sources is the sum of the values under that key over
-- all rows of the type, whatever their order, for keys that end in _paise.
pub aggregate_sources-sum :
    (rows : List Row) (kind key : Text)
    → amount kind key (aggregate_sources rows) ≡ sum_rows kind key rows
unfolding aggregate_sources lookup
aggregate_sources-sum rows kind key =
    aggregate_loop-sum kind key rows [] ∙ zero_left (sum_rows kind key rows)
