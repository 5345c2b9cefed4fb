-- ===== src/Gst/Return.antt =====
-- firmos-backend/engines/gst.py: generate_gstr3b_tables. The cells that are always 0 are kept where
-- the portal shows them beside a computed one.
pub mod Laws
use firmos.Base.{ℕ, ◌+◌}
use firmos.Base.Int.{ℤ, pos}
use firmos.Gst.Utilization.{Component, Ledger, igst, cgst, sgst, get, apply_itc_utilization}

-- A row of cells of a table: taxable value, IGST, CGST, SGST and cess.
pub record Cells : Type 0 where
  pub txval : ℤ
  pub iamt : ℤ
  pub camt : ℤ
  pub samt : ℤ
  pub csamt : ℤ

abbrev pub no_cells : Cells
no_cells = record { txval = pos 0; iamt = pos 0; camt = pos 0; samt = pos 0; csamt = pos 0 }

-- A row of table 6.1.
pub record Payment : Type 0 where
  pub payable : ℤ
  pub paid_itc : ℕ
  pub paid_cash : ℕ

pub record Tables : Type 0 where
  pub outward_taxable : Cells  -- 3.1 a
  pub outward_zero_rated : Cells  -- 3.1 b
  pub outward_nil_exempt : Cells  -- 3.1 c
  pub reverse_charge : Cells  -- 3.1 d
  pub outward_non_gst : Cells  -- 3.1 e
  pub itc_import_goods : Cells  -- 4 A 1
  pub itc_import_services : Cells  -- 4 A 2
  pub itc_reverse_charge : Cells  -- 4 A 3
  pub itc_isd : Cells  -- 4 A 4
  pub itc_all_other : Cells  -- 4 A 5
  pub itc_reversed_rules : Cells  -- 4 B rule_38_42_43
  pub itc_reversed_others : Cells  -- 4 B others
  pub itc_net : Cells  -- 4 C
  pub itc_ineligible : Cells  -- 4 D section_17_5
  pub itc_ineligible_others : Cells  -- 4 D others
  pub exempt_interstate : ℤ  -- 5
  pub exempt_intrastate : ℤ  -- 5
  pub igst_payment : Payment  -- 6.1
  pub cgst_payment : Payment
  pub sgst_payment : Payment

-- The arguments, in the code's order; the last three default to 0.
pub record Figures : Type 0 where
  pub output_taxable : ℤ
  pub output_igst : ℤ
  pub output_cgst : ℤ
  pub output_sgst : ℤ
  pub itc_igst : ℤ
  pub itc_cgst : ℤ
  pub itc_sgst : ℤ
  pub rcm_inward : ℤ
  pub exempt_inward : ℤ
  pub ineligible_itc : ℤ

-- `sum(used[credit][tax] for credit in used)` beside the cash.
unfoldable pub payment : Component → ℤ → Ledger → Payment
payment p payable l = record {
  payable = payable;
  paid_itc = get p l.itc_used.from_igst + get p l.itc_used.from_cgst + get p l.itc_used.from_sgst;
  paid_cash = get p l.cash_payable;
}

abbrev pub itc_cells : ℤ → ℤ → ℤ → Cells
itc_cells i c s = record no_cells { iamt = i; camt = c; samt = s }

unfoldable pub generate_gstr3b_tables : Figures → Tables
unfolding payment
generate_gstr3b_tables f =
    let utilization =
      apply_itc_utilization f.output_igst f.output_cgst f.output_sgst f.itc_igst f.itc_cgst
        f.itc_sgst in
    record {
      outward_taxable = record {
        txval = f.output_taxable;
        iamt = f.output_igst;
        camt = f.output_cgst;
        samt = f.output_sgst;
        csamt = pos 0;
      };
      outward_zero_rated = no_cells;
      outward_nil_exempt = no_cells;
      reverse_charge = record no_cells { txval = f.rcm_inward };
      outward_non_gst = no_cells;
      itc_import_goods = no_cells;
      itc_import_services = no_cells;
      itc_reverse_charge = no_cells;
      itc_isd = no_cells;
      itc_all_other = itc_cells f.itc_igst f.itc_cgst f.itc_sgst;
      itc_reversed_rules = no_cells;
      itc_reversed_others = no_cells;
      itc_net = itc_cells f.itc_igst f.itc_cgst f.itc_sgst;
      itc_ineligible = record no_cells { iamt = f.ineligible_itc };
      itc_ineligible_others = no_cells;
      exempt_interstate = f.exempt_inward;
      exempt_intrastate = pos 0;
      igst_payment = payment igst f.output_igst utilization;
      cgst_payment = payment cgst f.output_cgst utilization;
      sgst_payment = payment sgst f.output_sgst utilization;
    }
