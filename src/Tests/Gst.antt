-- ===== src/Tests/Gst.antt =====
-- The theorems on firmos-backend/engines/gst.py at concrete amounts.
use firmos.Base.{ℕ, ◌≡◌, refl, true, false, some}
use firmos.Base.Int.{pos, negsuc, ◌+ℤ◌, ◌-ℤ◌, ◌≤ℤ◌, half_ℤ}
use firmos.Base.Float.{int_percent}
use firmos.Gst.Components.{GstAmounts, known_rate, calculate_gst}
use firmos.Gst.Components.Laws.{calculate_gst-intrastate}
use firmos.Gst.Utilization.{igst, cgst, sgst, apply_itc_utilization}
use firmos.Gst.Utilization.Laws.{
  credit_total, tax_total, Spent, utilization-accounts, utilization-Spent,
}
use firmos.Gst.Return.{Figures, generate_gstr3b_tables}
use firmos.Gst.Return.Laws.{IsSettled, tables-settle}

abbrev odd_local : GstAmounts
odd_local = record { cgst = pos 250; sgst = pos 251; igst = pos 0; total = pos 10521 }

abbrev refund_local : GstAmounts
refund_local = record { cgst = negsuc 250; sgst = negsuc 249; igst = pos 0; total = negsuc 10520 }

abbrev odd_remote : GstAmounts
odd_remote = record { cgst = pos 0; sgst = pos 0; igst = pos 501; total = pos 10521 }

odd_local_run : calculate_gst (pos 10020) 5 false ≡ some odd_local
unfolding calculate_gst known_rate int_percent half_ℤ ◌+ℤ◌ ◌-ℤ◌
odd_local_run = refl

odd_remote_run : calculate_gst (pos 10020) 5 true ≡ some odd_remote
unfolding calculate_gst known_rate int_percent half_ℤ ◌+ℤ◌ ◌-ℤ◌
odd_remote_run = refl

refund_local_run : calculate_gst (negsuc 10019) 5 false ≡ some refund_local
unfolding calculate_gst known_rate int_percent half_ℤ ◌+ℤ◌ ◌-ℤ◌
refund_local_run = refl

calculate_gst-intrastate_example :
    (refund_local.total ≡ negsuc 10019 +ℤ refund_local.cgst +ℤ refund_local.sgst)
    × (refund_local.igst ≡ pos 0)
    × (refund_local.cgst ≤ℤ refund_local.sgst)
    × (refund_local.sgst ≤ℤ refund_local.cgst +ℤ pos 1)
calculate_gst-intrastate_example =
    calculate_gst-intrastate (negsuc 10019) 5 refund_local refund_local_run

abbrev usual : ℕ
usual = 18

utilization-accounts_example :
    let l = apply_itc_utilization (pos 900) (pos 400) (negsuc 4) (pos 1000) (pos 50) (pos 70) in
    (tax_total cgst l ≡ 400) × (credit_total cgst l ≡ 50)
utilization-accounts_example =
    utilization-accounts (pos 900) (pos 400) (negsuc 4) (pos 1000) (pos 50) (pos 70) cgst

utilization-Spent_example :
    Spent
      (sgst, igst)
      (apply_itc_utilization (pos 900) (pos 400) (pos 300) (pos 1000) (pos 50) (pos 70))
utilization-Spent_example =
    utilization-Spent (pos 900) (pos 400) (pos 300) (pos 1000) (pos 50) (pos 70) sgst igst

abbrev figures : Figures
figures = record {
  output_taxable = pos 100000;
  output_igst = pos 9000;
  output_cgst = pos 4500;
  output_sgst = pos 4500;
  itc_igst = pos 10000;
  itc_cgst = pos 1000;
  itc_sgst = pos 6000;
  rcm_inward = pos 0;
  exempt_inward = pos 700;
  ineligible_itc = pos 30;
}

tables-settle_example :
    let t = generate_gstr3b_tables figures in
    IsSettled t.igst_payment t.outward_taxable.iamt
    × IsSettled t.cgst_payment t.outward_taxable.camt
    × IsSettled t.sgst_payment t.outward_taxable.samt
tables-settle_example = tables-settle figures
