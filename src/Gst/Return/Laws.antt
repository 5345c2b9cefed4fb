-- ===== src/Gst/Return/Laws.antt =====
-- A theorem on generate_gstr3b_tables of firmos-backend/engines/gst.py.
use firmos.Base.{◌+◌, ◌≡◌, refl}
use firmos.Base.Int.{ℤ, max0}
use firmos.Gst.Utilization.{Component, igst, cgst, sgst, get, opening, apply_itc_utilization}
use firmos.Gst.Utilization.Laws.{tax_total, utilization-accounts}
use firmos.Gst.Return.{Figures, Payment, generate_gstr3b_tables}

abbrev pub IsSettled : Payment → ℤ → Type 0
IsSettled row due = (row.payable ≡ due) × (row.paid_cash + row.paid_itc ≡ max0 due)

-- In table 6.1 each tax of table 3.1 is paid in full, by credit and by cash together (a negative
-- tax counts as nothing to pay).
pub tables-settle :
    (f : Figures)
    → let t = generate_gstr3b_tables f in
      IsSettled t.igst_payment t.outward_taxable.iamt
      × IsSettled t.cgst_payment t.outward_taxable.camt
      × IsSettled t.sgst_payment t.outward_taxable.samt
unfolding generate_gstr3b_tables
tables-settle f = ((refl, paid igst), (refl, paid cgst), (refl, paid sgst))
  where
    paid :
        (k : Component)
        → tax_total k (
            apply_itc_utilization f.output_igst f.output_cgst f.output_sgst f.itc_igst f.itc_cgst
              f.itc_sgst)
          ≡ get k
              (opening f.output_igst f.output_cgst f.output_sgst f.itc_igst f.itc_cgst
                f.itc_sgst).cash_payable
    paid k =
        (utilization-accounts f.output_igst f.output_cgst f.output_sgst f.itc_igst f.itc_cgst
          f.itc_sgst k).0
