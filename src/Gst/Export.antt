-- ===== src/Gst/Export.antt =====
-- firmos-backend/engines/gst.py: export_gstr3b_gstn_json, on the tables of generate_gstr3b_tables, which
-- have every key that the code looks up. The text of a Decimal is a parameter.
use firmos.Base.{List, [], ◌∷◌}
use firmos.Base.Int.{ℤ}
use firmos.Base.Decimal.{Decimal}
use firmos.Base.Text.{Text, codes, upper}
use firmos.Money.{Converted, converted, ◌>>=◌, paise_to_decimal}
use firmos.Gst.Return.{Tables}

-- osup_det
pub record Outward : Type 0 where
  pub txval : Text
  pub iamt : Text
  pub camt : Text
  pub samt : Text
  pub csamt : Text

-- A row of itc_avl.
pub record Available : Type 0 where
  pub ty : Text
  pub iamt : Text
  pub camt : Text
  pub samt : Text
  pub csamt : Text

-- A row of isup_details.
pub record Inward : Type 0 where
  pub ty : Text
  pub inter : Text
  pub intra : Text

pub record Upload : Type 0 where
  pub gstin : Text
  pub ret_period : Text
  pub osup_det : Outward
  pub unreg_details : List Outward
  pub itc_avl : List Available
  pub isup_details : List Inward

abbrev pub no_amount : Text
no_amount = codes "0.00"

module _ (str : Decimal → Text) where
  unfoldable pub p2r : ℤ → Converted Text
  p2r paise = paise_to_decimal paise >>= λ d. converted (str d)

  unfoldable pub outward : Tables → Converted Outward
  unfolding p2r
  outward t = do
    txval ← p2r t.outward_taxable.txval
    iamt ← p2r t.outward_taxable.iamt
    camt ← p2r t.outward_taxable.camt
    samt ← p2r t.outward_taxable.samt
    converted (record { txval = txval; iamt = iamt; camt = camt; samt = samt; csamt = no_amount })

  unfoldable pub available : Tables → Converted Available
  unfolding p2r
  available t = do
    iamt ← p2r t.itc_all_other.iamt
    camt ← p2r t.itc_all_other.camt
    samt ← p2r t.itc_all_other.samt
    converted (record {
      ty = codes "ALL_OTHER_ITC";
      iamt = iamt;
      camt = camt;
      samt = samt;
      csamt = no_amount;
    })

  unfoldable pub export_gstr3b_gstn_json : Text → Text → Tables → Converted Upload
  unfolding outward available p2r
  export_gstr3b_gstn_json gstin period t = do
    osup_det ← outward t
    itc_avl ← available t
    inter ← p2r t.exempt_interstate
    converted (record {
      gstin = upper gstin;
      ret_period = period;
      osup_det = osup_det;
      unreg_details = [];
      itc_avl = itc_avl ∷ [];
      isup_details = record { ty = codes "GST"; inter = inter; intra = no_amount } ∷ [];
    })
