-- ===== src/Gst/ProviderSplit.antt =====
-- firmos-backend/engines/gst_components.py. A provider's record has the values that the code takes from it,
-- each the one under the first of its names that is present (or the default 0).
pub mod Laws
use firmos.Base.{ℕ, Bool, true, false, ◌&&◌, ◌||◌, not, Option, List, [], ◌∷◌, ◌++◌, if◌then◌else◌}
use firmos.Base.Int.{ℤ, pos, ◌+ℤ◌, ◌-ℤ◌, eqb_ℤ, leb_ℤ}
use firmos.Base.Text.{Text, codes, upper, contains}
use firmos.Money.{Number, Value, Converted, converted, ◌>>=◌, rupees_to_paise}

pub record Tax : Type 0 where
  pub tax_type : Text
  pub tax_name : Text
  pub tax_specification : Text
  pub tax_amount : Value

pub record Provided : Type 0 where
  pub taxes : List Tax
  pub tax_total : Value
  pub sub_total : Value
  pub total : Value

pub record Split : Type 0 where
  pub igst : ℤ
  pub cgst : ℤ
  pub sgst : ℤ
  pub cess : ℤ
  pub taxable : ℤ
  pub components_verified : Bool

-- Where an amount goes; a label that is not known goes nowhere.
pub data Label : Type 0 where
  igst_label cgst_label sgst_label cess_label unknown_label : Label

unfoldable pub label_of : Tax → Label
label_of tax =
    let label =
      upper
        (tax.tax_type ++ (codes " " ++ (tax.tax_name ++ (codes " " ++ tax.tax_specification)))) in
    if contains (codes "IGST") label
    then igst_label
    else if contains (codes "CGST") label
    then cgst_label
    else if contains (codes "SGST") label || contains (codes "UTGST") label
    then sgst_label
    else if contains (codes "CESS") label
    then cess_label
    else unknown_label

abbrev pub is_known_label : Label → Bool
is_known_label igst_label = true
is_known_label cgst_label = true
is_known_label sgst_label = true
is_known_label cess_label = true
is_known_label unknown_label = false

abbrev pub is_known : Tax → Bool
is_known tax = is_known_label (label_of tax)

abbrev pub add_part : Label → ℤ → Split → Split
add_part igst_label a s = record {
  igst = s.igst +ℤ a;
  cgst = s.cgst;
  sgst = s.sgst;
  cess = s.cess;
  taxable = s.taxable;
  components_verified = s.components_verified;
}
add_part cgst_label a s = record {
  igst = s.igst;
  cgst = s.cgst +ℤ a;
  sgst = s.sgst;
  cess = s.cess;
  taxable = s.taxable;
  components_verified = s.components_verified;
}
add_part sgst_label a s = record {
  igst = s.igst;
  cgst = s.cgst;
  sgst = s.sgst +ℤ a;
  cess = s.cess;
  taxable = s.taxable;
  components_verified = s.components_verified;
}
add_part cess_label a s = record {
  igst = s.igst;
  cgst = s.cgst;
  sgst = s.sgst;
  cess = s.cess +ℤ a;
  taxable = s.taxable;
  components_verified = s.components_verified;
}
add_part unknown_label a s = record {
  igst = s.igst;
  cgst = s.cgst;
  sgst = s.sgst;
  cess = s.cess;
  taxable = s.taxable;
  components_verified = false;
}

abbrev pub is_empty : List Tax → Bool
is_empty [] = true
is_empty (tax ∷ taxes) = false

-- `known` starts as `bool(taxes)`.
abbrev pub no_parts : List Tax → Split
no_parts taxes = record {
  igst = pos 0;
  cgst = pos 0;
  sgst = pos 0;
  cess = pos 0;
  taxable = pos 0;
  components_verified = not (is_empty taxes);
}

abbrev pub parts_total : Split → ℤ
parts_total s = s.igst +ℤ s.cgst +ℤ s.sgst +ℤ s.cess

abbrev pub finish : ℤ → Split → ℤ → Split
finish total_tax s taxable = record {
  igst = s.igst;
  cgst = s.cgst;
  sgst = s.sgst;
  cess = s.cess;
  taxable = taxable;
  components_verified = s.components_verified && eqb_ℤ (parts_total s) total_tax;
}

module _ (decimal : Text → Option Number) where
  abbrev pub paise : Value → Converted ℤ
  paise value = rupees_to_paise decimal true value

  -- The loop; `components_verified` has the flag `known`.
  unfoldable pub parts_loop : List Tax → Split → Converted Split
  unfolding label_of
  parts_loop [] s = converted s
  parts_loop (tax ∷ taxes) s =
      paise tax.tax_amount >>= λ a. parts_loop taxes (add_part (label_of tax) a s)

  abbrev pub taxable_of : Value → ℤ → ℤ → Converted ℤ
  taxable_of total total_tax sub_total =
      if eqb_ℤ sub_total (pos 0)
      then (paise total >>= λ t.
          converted (if leb_ℤ total_tax t then t -ℤ total_tax else sub_total))
      else converted sub_total

  unfoldable pub extract_components : Provided → Converted Split
  unfolding parts_loop
  extract_components r = paise r.tax_total >>= λ total_tax.
      parts_loop r.taxes (no_parts r.taxes) >>= λ s. paise r.sub_total >>= λ sub_total.
      taxable_of r.total total_tax sub_total >>= λ taxable. converted (finish total_tax s taxable)
