-- ===== src/Gst/Components.antt =====
-- firmos-backend/engines/gst.py: calculate_gst, calculate_net_gst_payable, check_itc_eligibility.
pub mod Laws
use firmos.Base.{
  ℕ, suc, ◌+◌, ◌*◌, ◌/◌, ◌≡◌, refl, Bool, true, false, ◌&&◌, not, Option, none, some, List, [], ◌∷◌,
  if◌then◌else◌, ltb, leb,
}
use firmos.Base.Lists.{member}
use firmos.Base.Int.{ℤ, pos, negsuc, ◌+ℤ◌, ◌-ℤ◌, half_ℤ, max0, min_ℤ, abs, leb_ℤ}
use firmos.Base.Float.{int_percent}

abbrev pub gst_slabs : List ℕ
gst_slabs = 0 ∷ 5 ∷ 12 ∷ 18 ∷ 28 ∷ []

pub record GstAmounts : Type 0 where
  pub cgst : ℤ
  pub sgst : ℤ
  pub igst : ℤ
  pub total : ℤ

-- `rate_percent in GST_SLABS`
unfoldable pub known_rate : ℕ → Bool
known_rate rate = member rate gst_slabs

-- `none` is the ValueError of a rate that is not in GST_SLABS.
unfoldable pub calculate_gst : ℤ → ℕ → Bool → Option GstAmounts
calculate_gst taxable_paise rate_percent is_interstate =
    let gst_paise = int_percent taxable_paise rate_percent in
    let half = half_ℤ gst_paise in
    let remainder = gst_paise -ℤ (half +ℤ half) in
    let total = taxable_paise +ℤ gst_paise in
    if not (known_rate rate_percent)
    then none
    else if is_interstate
    then some (record { cgst = pos 0; sgst = pos 0; igst = gst_paise; total = total })
    else some (record { cgst = half; sgst = half +ℤ remainder; igst = pos 0; total = total })

pub record NetPayable : Type 0 where
  pub output_gst : ℤ
  pub itc_available : ℤ
  pub itc_eligible : ℤ
  pub itc_used : ℤ
  pub net_payable : ℕ

unfoldable pub calculate_net_gst_payable : ℤ → ℤ → ℤ → NetPayable
calculate_net_gst_payable output itc_available itc_eligible =
    let usable_itc = min_ℤ itc_available itc_eligible in
    let net_payable = max0 (output -ℤ usable_itc) in
    record {
      output_gst = output;
      itc_available = itc_available;
      itc_eligible = itc_eligible;
      itc_used = output -ℤ pos net_payable;
      net_payable = net_payable;
    }

-- The reason text: empty, that of a supplier who has not filed, or that of an amount mismatch.
pub data Reason : Type 0 where
  no_reason : Reason
  supplier_not_filed : Reason
  amount_mismatch : ℤ → ℤ → Reason

pub record Eligibility : Type 0 where
  pub eligible : Bool
  pub reason : Reason
  pub invoice_amount : ℤ
  pub gstr2b_amount : ℤ

unfoldable pub check_itc_eligibility : Bool → ℤ → ℤ → ℤ → Eligibility
check_itc_eligibility supplier_filed invoice_amount gstr2b_amount tolerance =
    let amount_matches = leb_ℤ (pos (abs (invoice_amount -ℤ gstr2b_amount))) tolerance in
    record {
      eligible = supplier_filed && amount_matches;
      reason =
          if not supplier_filed
          then supplier_not_filed
          else if not amount_matches
          then amount_mismatch invoice_amount gstr2b_amount
          else no_reason;
      invoice_amount = invoice_amount;
      gstr2b_amount = gstr2b_amount;
    }

odd_paise :
    calculate_gst (pos 10005) 5 false
    ≡ some (record { cgst = pos 250; sgst = pos 250; igst = pos 0; total = pos 10505 })
unfolding calculate_gst known_rate int_percent ◌+ℤ◌ ◌-ℤ◌ half_ℤ
odd_paise = refl
