-- ===== src/Gst/Components/Laws.antt =====
-- Theorems on calculate_gst, calculate_net_gst_payable and check_itc_eligibility of
-- firmos-backend/engines/gst.py.
use firmos.Base.{
  ◌∙◌, ℕ, ◌*◌, ◌/◌, ◌^◌, ◌≤◌, ◌<◌, ◌≡◌, ◌≢◌, refl, Bool, true, false, min, some, none, arith, ◌⊎◌,
  ◌↔◌,
}
use firmos.Base.Int.{leb_ℤ, ℤ, pos, negsuc, ◌+ℤ◌, ◌-ℤ◌, ◌≤ℤ◌, half_ℤ, half_ℤ_bounds, int_laws, abs}
use firmos.Base.Float.{int_percent}
use firmos.Base.Float.Exact.{int_percent-exact}
use firmos.Gst.Components.{
  GstAmounts, known_rate, calculate_gst, calculate_net_gst_payable, check_itc_eligibility,
  no_reason,
}

module _ (gst : ℤ) where
  remainder-small :
      (half_ℤ gst ≤ℤ half_ℤ gst +ℤ (gst -ℤ (half_ℤ gst +ℤ half_ℤ gst)))
      × (half_ℤ gst +ℤ (gst -ℤ (half_ℤ gst +ℤ half_ℤ gst)) ≤ℤ half_ℤ gst +ℤ pos 1)
  remainder-small = omega (int_laws, half_ℤ_bounds gst)

  halves-sum : pos 0 +ℤ half_ℤ gst +ℤ (half_ℤ gst +ℤ (gst -ℤ (half_ℤ gst +ℤ half_ℤ gst))) ≡ gst
  halves-sum = omega int_laws

  one-sum : gst +ℤ pos 0 +ℤ pos 0 ≡ gst
  one-sum = omega int_laws

  parts-sum :
      (taxable : ℤ)
      → taxable +ℤ gst
        ≡ taxable +ℤ half_ℤ gst +ℤ (half_ℤ gst +ℤ (gst -ℤ (half_ℤ gst +ℤ half_ℤ gst)))
  parts-sum taxable = omega int_laws

-- For every amount, its sign included: an intrastate supply at a rate of a slab bears no IGST, its
-- SGST is the CGST or one paisa above it, and the parts with the taxable value make up the total.
pub calculate_gst-intrastate :
    (taxable : ℤ) (rate : ℕ) (r : GstAmounts)
    → calculate_gst taxable rate false ≡ some r
    → (r.total ≡ taxable +ℤ r.cgst +ℤ r.sgst)
      × (r.igst ≡ pos 0)
      × (r.cgst ≤ℤ r.sgst)
      × (r.sgst ≤ℤ r.cgst +ℤ pos 1)
unfolding calculate_gst
calculate_gst-intrastate taxable rate r h =
    let gst = int_percent taxable rate in ground (arith, remainder-small gst, parts-sum gst taxable)

-- An interstate supply at a rate of a slab bears IGST alone, which with the taxable value makes up
-- the total.
pub calculate_gst-interstate :
    (taxable : ℤ) (rate : ℕ) (r : GstAmounts)
    → calculate_gst taxable rate true ≡ some r
    → (r.total ≡ taxable +ℤ r.igst) × (r.cgst ≡ pos 0) × (r.sgst ≡ pos 0)
unfolding calculate_gst
calculate_gst-interstate taxable rate r h = ground arith

-- An amount is computed at a rate of a slab (0, 5, 12, 18, 28) and at no other.
pub calculate_gst-rate :
    (taxable : ℤ) (rate : ℕ) (interstate : Bool)
    → (calculate_gst taxable rate interstate ≢ none)
      ↔ ((rate ≡ 0) ⊎ (rate ≡ 5) ⊎ (rate ≡ 12) ⊎ (rate ≡ 18) ⊎ (rate ≡ 28))
unfolding calculate_gst known_rate
calculate_gst-rate taxable rate true = (ground arith, ground arith)
calculate_gst-rate taxable rate false = (ground arith, ground arith)

rate_small : (rate : ℕ) → rate ≤ 28 → rate ≤ 100
rate_small rate h = omega arith

known_rate-le : (rate : ℕ) → known_rate rate ≡ true → rate ≤ 28
unfolding known_rate
known_rate-le rate h = ground arith

known_rate_of_amounts :
    (taxable : ℤ) (rate : ℕ) (interstate : Bool) (r : GstAmounts)
    → calculate_gst taxable rate interstate ≡ some r
    → known_rate rate ≡ true
unfolding calculate_gst
known_rate_of_amounts taxable rate interstate r h = ground arith

components-sum :
    (taxable : ℤ) (rate : ℕ) (interstate : Bool) (r : GstAmounts)
    → calculate_gst taxable rate interstate ≡ some r
    → r.igst +ℤ r.cgst +ℤ r.sgst ≡ int_percent taxable rate
unfolding calculate_gst
components-sum taxable rate true r h = ground (arith, one-sum (int_percent taxable rate))
components-sum taxable rate false r h = ground (arith, halves-sum (int_percent taxable rate))

-- Below 10 ^ 13 paise the float division costs nothing: the tax on both kinds of supply is the
-- integer quotient of taxable value times rate by 100.
pub calculate_gst-exact :
    (taxable rate : ℕ) (interstate : Bool) (r : GstAmounts)
    → taxable < 10 ^ 13
    → calculate_gst (pos taxable) rate interstate ≡ some r
    → r.igst +ℤ r.cgst +ℤ r.sgst ≡ pos (taxable * rate / 100)
calculate_gst-exact taxable rate interstate r small h =
    components-sum (pos taxable) rate interstate r h
    ∙ int_percent-exact taxable rate small
        (rate_small _ (known_rate-le rate (known_rate_of_amounts _ rate interstate r h)))

-- Credit is used up to the smaller of the available and the eligible credit and up to the tax due;
-- what is left of the tax is payable, and it is never negative.
pub net_payable-accounts :
    (output available eligible : ℕ)
    → let r = calculate_net_gst_payable (pos output) (pos available) (pos eligible) in
      (r.itc_used +ℤ pos r.net_payable ≡ pos output)
      × (r.itc_used ≡ pos (min output (min available eligible)))
unfolding calculate_net_gst_payable ◌-ℤ◌ ◌+ℤ◌
net_payable-accounts output available eligible = ground arith

within : (x t : ℤ) → (leb_ℤ (pos (abs x)) t ≡ true) ↔ ((x ≤ℤ t) × (pos 0 ≤ℤ x +ℤ t))
unfolding ◌+ℤ◌
within (pos n) t = (ground arith, ground arith)
within (negsuc n) t = (ground arith, ground arith)

within-sub : (a b t : ℤ) → (leb_ℤ (pos (abs (a -ℤ b))) t ≡ true) ↔ ((a ≤ℤ b +ℤ t) × (b ≤ℤ a +ℤ t))
within-sub a b t = (
  λ h. let r = (within (a -ℤ b) t).0 h in omega int_laws,
  λ h. (within (a -ℤ b) t).1 (omega int_laws),
)

-- Credit is eligible exactly if the supplier has filed and the two amounts differ by at most the
-- tolerance, and the reason is empty exactly then.
pub check_itc_eligibility_iff :
    (filed : Bool) (invoice portal tolerance : ℤ)
    → let r = check_itc_eligibility filed invoice portal tolerance in
      ((r.eligible ≡ true)
        ↔ ((filed ≡ true) × (invoice ≤ℤ portal +ℤ tolerance) × (portal ≤ℤ invoice +ℤ tolerance)))
      × ((r.eligible ≡ true) ↔ (r.reason ≡ no_reason))
unfolding check_itc_eligibility
check_itc_eligibility_iff true invoice portal tolerance =
    let w = within-sub invoice portal tolerance in
    ((λ h. (refl, (w.0 h).0, (w.0 h).1), λ h. w.1 (h.1, h.2)), (ground arith, ground arith))
check_itc_eligibility_iff false invoice portal tolerance =
    ((λ h. cc, λ h. cc), (ground arith, ground arith))
