-- ===== src/Workpapers.antt =====
-- firmos-backend/core/gst_workpapers/calculation.py: the rows of the GST work papers and their summary.
pub mod Rows
pub mod Summary
use firmos.Base.{ℕ, Bool, Option, none, some, List}
use firmos.Base.Int.{ℤ, pos}
use firmos.Base.Text.{Text}

-- COMPONENTS; a dict with these keys is a function.
pub data Component : Type 0 where
  taxable_paise igst_paise cgst_paise sgst_paise cess_paise : Component

abbrev pub Amounts : Type 0
Amounts = Component → ℤ

pub data SourceKind : Type 0 where
  sales_register purchase_register : SourceKind

pub data Treatment : Type 0 where
  system_calculated imported reviewer_adjusted : Treatment

-- The keys that a source row copies from its register.
pub record Review : Type 0 where
  pub customer_gstin : Text
  pub place_of_supply : Text
  pub reverse_charge : Bool
  pub itc_classification : Text
  pub match_decision : Text
  pub ims_decision : Text
  pub document_type : Text

-- A row of the sales or the purchase register; the empty text and zero stand for a missing value.
pub record Register : Type 0 where
  pub id : ℕ
  pub source_version : Text
  pub amounts : Amounts
  pub review : Review

pub record Source : Type 0 where
  pub table_key : Text
  pub source_kind : SourceKind
  pub source_id : ℕ
  pub version : Text
  pub amount : ℤ
  pub treatment : Treatment
  pub details : Option Amounts
  pub copied : Option Review
