-- ===== src/Workpapers/Rows.antt =====
-- firmos-backend/core/gst_workpapers/calculation.py: the source rows of a return. The digest of a decision,
-- twelve digits of its SHA-256, is a parameter.
pub mod Laws
use Prim.Native.String.{String}
use firmos.Base.{
  Bool, true, false, ◌&&◌, ◌||◌, not, Option, none, some, List, [], ◌∷◌, ◌++◌, if◌then◌else◌, ℕ,
  ◌≡◌, refl,
}
use firmos.Base.Int.{ℤ, pos}
use firmos.Base.Lists.{any}
use firmos.Base.Text.{Text, codes, same_text, is_empty_text, contains, upper}
use firmos.Workpapers.{
  Component, taxable_paise, Amounts, SourceKind, sales_register, purchase_register, Treatment,
  system_calculated, imported, reviewer_adjusted, Review, Register, Source,
}

pub data ReturnType : Type 0 where
  gstr1 gstr3b : ReturnType

abbrev pub ineligible : List String
ineligible = "INELIGIBLE" ∷ "BLOCKED" ∷ "17_5" ∷ "17(5)" ∷ []

abbrev pub reversal : List String
reversal = "REVERSAL" ∷ "REVERSED" ∷ "RULE_38" ∷ "RULE_42" ∷ "RULE_43" ∷ []

abbrev pub itc_reversed : String
itc_reversed = "4(B) ITC reversed"

abbrev pub itc_ineligible : String
itc_ineligible = "4(D) Ineligible ITC"

abbrev pub itc_rcm : String
itc_rcm = "4(A)(3) RCM ITC"

abbrev pub itc_other : String
itc_other = "4(A)(5) Other ITC"

pub data Warning : Type 0 where
  itc_decision_required rcm_payment_evidence_required : Warning

abbrev pub labelled : List String → Text → Bool
labelled labels classification = any (λ label. contains (codes label) classification) labels

abbrev pub is_text : String → Text → Bool
is_text label s = same_text s (codes label)

abbrev pub imported_if : Text → Treatment
imported_if decision = if is_empty_text decision then system_calculated else imported

abbrev pub is_rejected : Review → Bool
is_rejected r = is_text "REJECTED" r.match_decision || is_text "REJECT" r.ims_decision

abbrev pub is_pending : Review → Bool
is_pending r =
    is_text "PENDING" r.ims_decision
    || (is_empty_text r.match_decision || is_text "PENDING" r.match_decision)

-- _itc_table
unfoldable pub itc_table : Review → String × (Treatment × Option Warning)
itc_table r =
    let classification = upper r.itc_classification in
    if labelled reversal classification
    then (itc_reversed, (reviewer_adjusted, none))
    else if labelled ineligible classification || is_rejected r
    then (itc_ineligible, (imported_if r.match_decision, none))
    else if is_pending r
    then (itc_ineligible, (imported_if r.match_decision, some itc_decision_required))
    else if r.reverse_charge
    then if contains (codes "RCM_PAID") classification
      then (itc_rcm, (reviewer_adjusted, none))
      else (itc_ineligible, (system_calculated, some rcm_payment_evidence_required))
    else (itc_other, (imported, none))

module _ (digest : Text → Text) where
  -- The text that the digest is of.
  abbrev pub decision_text : Review → Text
  decision_text r =
      r.match_decision
      ++ codes "|"
      ++ r.ims_decision
      ++ codes "|"
      ++ r.itc_classification
      ++ codes "|"
      ++ (if r.reverse_charge then codes "True" else [])

  abbrev pub version_of : SourceKind → Register → Text
  version_of sales_register row =
      if is_empty_text row.source_version then codes "1" else row.source_version
  version_of purchase_register row =
      (if is_empty_text row.source_version then codes "1" else row.source_version)
      ++ codes ":"
      ++ digest (decision_text row.review)

  -- _source
  unfoldable pub source : Register → String → SourceKind → Treatment → Source
  source row table kind treatment = record {
    table_key = codes table;
    source_kind = kind;
    source_id = row.id;
    version = version_of kind row;
    amount = row.amounts taxable_paise;
    treatment = treatment;
    details = some row.amounts;
    copied = some row.review;
  }

  abbrev pub sales_table : ReturnType → Register → String
  sales_table gstr1 sale =
      if is_empty_text sale.review.customer_gstin then "GSTR-1 B2C" else "GSTR-1 B2B"
  sales_table gstr3b sale = "3.1(a) Outward taxable"

  unfoldable pub sales_loop : ReturnType → List Register → List Source
  unfolding source
  sales_loop return_type [] = []
  sales_loop return_type (sale ∷ sales) =
      source sale (sales_table return_type sale) sales_register system_calculated
      ∷ sales_loop return_type sales

  abbrev pub reverse_charge_rows : Register → List Source
  reverse_charge_rows purchase =
      if purchase.review.reverse_charge
      then source purchase "3.1(d) Reverse charge" purchase_register system_calculated ∷ []
      else []

  abbrev pub itc_row : Register → Source
  itc_row purchase =
      let (table, (treatment, warning)) = itc_table purchase.review in
      source purchase table purchase_register treatment

  abbrev pub exceptions_of : Register → List (Warning × ℕ)
  exceptions_of purchase = elim (itc_table purchase.review).1.1 [
    | none ↦ []
    | some warning ↦ (warning, purchase.id) ∷ []
  ]

  unfoldable pub purchase_loop : List Register → List Source × List (Warning × ℕ)
  unfolding source itc_table
  purchase_loop [] = ([], [])
  purchase_loop (purchase ∷ purchases) =
      let (rows, exceptions) = purchase_loop purchases in
      (
        reverse_charge_rows purchase ++ (itc_row purchase ∷ rows),
        exceptions_of purchase ++ exceptions,
      )

  unfoldable pub build_source_rows :
      List Register → List Register → ReturnType → List Source × List (Warning × ℕ)
  unfolding sales_loop purchase_loop
  build_source_rows sales purchases gstr1 = (sales_loop gstr1 sales, [])
  build_source_rows sales purchases gstr3b =
      let (rows, exceptions) = purchase_loop purchases in
      (sales_loop gstr3b sales ++ rows, exceptions)
