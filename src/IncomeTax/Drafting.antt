-- ===== src/IncomeTax/Drafting.antt =====
-- firmos-backend/core/itr_drafting.py. A row has its extracted values as a dict of integers, with zero for a
-- null; the json.loads of a stored text happens before.
pub mod Laws
use firmos.Base.{ℕ, ◌≡◌, refl, Bool, true, false, ◌&&◌, List, [], ◌∷◌, map, if◌then◌else◌}
use mathlib.Core.List.{reverse}
use Prim.Native.String.{String}
use firmos.Base.Int.{ℤ, pos, ◌+ℤ◌, ltb_ℤ}
use firmos.Base.Lists.{keep}
use firmos.Base.Text.{Text, codes, same_text, is_prefix}
use firmos.Base.Dict.{Dict, get_or, update}

pub record Row : Type 0 where
  pub id : ℕ
  pub source_type : Text
  pub source_version : Text
  pub extracted_values : Dict ℤ

abbrev pub is_paise : Text → Bool
is_paise key = is_prefix (reverse (codes "_paise")) (reverse key)

-- The inner loop, on one bucket.
unfoldable pub add_values : Dict ℤ → Dict ℤ → Dict ℤ
add_values [] bucket = bucket
add_values (entry ∷ values) bucket =
    let next =
      if is_paise entry.0 then update (pos 0) (λ a. a +ℤ entry.1) entry.0 bucket else bucket in
    add_values values next

unfoldable pub aggregate_loop : List Row → Dict (Dict ℤ) → Dict (Dict ℤ)
unfolding add_values
aggregate_loop [] totals = totals
aggregate_loop (row ∷ rows) totals =
    aggregate_loop rows (update [] (add_values row.extracted_values) row.source_type totals)

unfoldable pub aggregate_sources : List Row → Dict (Dict ℤ)
unfolding aggregate_loop
aggregate_sources rows = aggregate_loop rows []

-- `by_type.get(kind, {}).get(key, 0)`
abbrev pub amount : Text → Text → Dict (Dict ℤ) → ℤ
amount kind key by_type = get_or (pos 0) key (get_or [] kind by_type)

abbrev pub of_type : String → String → Dict (Dict ℤ) → ℤ
of_type kind key = amount (codes kind) (codes key)

abbrev pub form_tds : Dict (Dict ℤ) → ℤ
form_tds d = of_type "FORM16" "tds_paise" d +ℤ of_type "FORM16A" "tds_paise" d

-- The two sides of a pair, by the names of their sources.
unfoldable pub reconciliation_pairs : Dict (Dict ℤ) → List (String × ((String × ℤ) × (String × ℤ)))
reconciliation_pairs d =
    (
      "REPORTED_INCOME",
      (
        ("AIS", of_type "AIS" "reported_income_paise" d),
        ("BOOKS", of_type "BOOKS" "reported_income_paise" d),
      ),
    )
    ∷ ("TDS", (("26AS", of_type "26AS" "tds_paise" d), ("FORMS", form_tds d)))
    ∷ (
      "BANK_CREDITS",
      (
        ("BANK", of_type "BANK" "bank_credits_paise" d),
        ("AIS", of_type "AIS" "bank_credits_paise" d),
      ),
    )
    ∷ []

pub record Draft : Type 0 where
  pub salary_income : ℤ
  pub business_income : ℤ
  pub other_income : ℤ
  pub capital_gains : ℤ
  pub deductions : ℤ
  pub tax_credits : ℤ

abbrev pub max_ℤ : ℤ → ℤ → ℤ
max_ℤ a b = if ltb_ℤ a b then b else a

unfoldable pub draft_amounts : Dict (Dict ℤ) → Draft
draft_amounts d = record {
  salary_income = of_type "FORM16" "salary_income_paise" d;
  business_income = of_type "BOOKS" "business_income_paise" d;
  other_income = of_type "AIS" "other_income_paise" d;
  capital_gains = of_type "AIS" "capital_gains_paise" d;
  deductions = of_type "FORM16" "deductions_paise" d +ℤ of_type "BOOKS" "deductions_paise" d;
  tax_credits =
      max_ℤ (of_type "26AS" "tds_paise" d) (form_tds d)
      +ℤ of_type "26AS" "tcs_paise" d
      +ℤ (of_type "BOOKS" "advance_tax_paise" d +ℤ of_type "BOOKS" "self_assessment_tax_paise" d);
}

-- source_links
pub record Link : Type 0 where
  pub source_id : ℕ
  pub source_type : Text
  pub source_version : Text

unfoldable pub source_links : List Row → Text → List Link
source_links rows source_type =
    map
      (λ row. record {
        source_id = row.id;
        source_type = source_type;
        source_version = row.source_version;
      })
      (keep (λ row. same_text row.source_type source_type) rows)
