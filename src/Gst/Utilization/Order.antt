-- ===== src/Gst/Utilization/Order.antt =====
-- Theorems on the order of the calls in apply_itc_utilization of firmos-backend/engines/gst.py.
use native.Mathlib.Nat.{min-zero, zero-min, sub-zero, sub_self, min-eq_left}
use firmos.Base.{ℕ, ◌+◌, ◌-◌, ◌≤◌, ◌≡◌, ◌≢◌, refl, ◌⊎◌, inl, inr, List, [], ◌∷◌, arith}
use firmos.Base.Lists.{All}
use firmos.Base.Int.{ℤ, pos}
use firmos.Gst.Utilization.{
  Component, igst, cgst, sgst, Ledger, use_credit, use_all, opening, apply_itc_utilization,
}
use firmos.Gst.Utilization.Laws.{used_of, use_all-Spent}

ruleset minima = (min-zero, zero-min, sub-zero, sub_self)

abbrev pub cash_total : Ledger → ℕ
cash_total l = l.cash_payable.igst + l.cash_payable.cgst + l.cash_payable.sgst

-- IGST credit is gone, or there was nothing left for the other credits to pay.
abbrev IgstFirst : Ledger → Type 0
IgstFirst l =
    (l.remaining_itc.igst ≡ 0) ⊎ ((cash_total l ≡ 0) × (used_of cgst l ≡ 0) × (used_of sgst l ≡ 0))

use_credit-IgstFirst :
    (c p : Component) (l : Ledger) → c ≢ igst → IgstFirst l → IgstFirst (use_credit c p l)
unfolding use_credit
use_credit-IgstFirst igst p l ne h = absurd (ne refl)
use_credit-IgstFirst cgst p l ne h = ground arith
use_credit-IgstFirst sgst p l ne h = ground arith

-- A call for IGST credit leaves the use of the others alone.
igst_call-used :
    (p : Component) (l : Ledger)
    → (used_of cgst (use_credit igst p l) ≡ used_of cgst l)
      × (used_of sgst (use_credit igst p l) ≡ used_of sgst l)
unfolding use_credit
igst_call-used p l = (refl, refl)

abbrev igst_calls : List (Component × Component)
igst_calls = (igst, igst) ∷ (igst, cgst) ∷ (igst, sgst) ∷ []

-- The three calls for IGST credit.
opening-IgstFirst :
    (oi oc os ii ic is : ℤ) → IgstFirst (use_all igst_calls (opening oi oc os ii ic is))
unfolding use_all
opening-IgstFirst oi oc os ii ic is =
    let l0 = opening oi oc os ii ic is in
    let l1 = use_credit igst igst l0 in
    let l2 = use_credit igst cgst l1 in
    let spent = use_all-Spent igst_calls l0 in
    grind (
      arith,
      spent.0,
      spent.1,
      igst_call-used igst l0,
      igst_call-used cgst l1,
      igst_call-used sgst l2,
    )

calls-IgstFirst :
    (steps : List (Component × Component)) (l : Ledger)
    → All (λ s. s.0 ≢ igst) steps
    → IgstFirst l
    → IgstFirst (use_all steps l)
unfolding use_all
calls-IgstFirst [] l ne h = h
calls-IgstFirst ((c, p) ∷ steps) l ne h =
    calls-IgstFirst steps (use_credit c p l) ne.1 (use_credit-IgstFirst c p l ne.0 h)

abbrev other_calls : List (Component × Component)
other_calls = (cgst, cgst) ∷ (cgst, igst) ∷ (sgst, sgst) ∷ (sgst, igst) ∷ []

other_calls-ne : All (λ s. s.0 ≢ igst) other_calls
other_calls-ne = ((λ e. cc), ((λ e. cc), ((λ e. cc), ((λ e. cc), tt))))

-- CGST or SGST credit is used only when the IGST credit is exhausted.
pub utilization-igst_first :
    (oi oc os ii ic is : ℤ)
    → let l = apply_itc_utilization oi oc os ii ic is in
      (l.remaining_itc.igst ≡ 0) ⊎ ((used_of cgst l ≡ 0) × (used_of sgst l ≡ 0))
unfolding apply_itc_utilization
utilization-igst_first oi oc os ii ic is =
    elim (calls-IgstFirst other_calls (use_all igst_calls (opening oi oc os ii ic is))
      other_calls-ne (opening-IgstFirst oi oc os ii ic is)) [
        | inl gone ↦ inl gone
        | inr idle ↦ inr (idle.1, idle.2)
      ]

-- The same calls with SGST before CGST.
abbrev pub sgst_first_order : List (Component × Component)
sgst_first_order =
    (igst, igst)
    ∷ (igst, sgst)
    ∷ (igst, cgst)
    ∷ (cgst, cgst)
    ∷ (cgst, igst)
    ∷ (sgst, sgst)
    ∷ (sgst, igst)
    ∷ []

-- The order of the two is not neutral. With k of CGST and k of SGST due, m ≤ k of IGST credit and k
-- of CGST credit, the code's order leaves k to pay in cash; with SGST first it would be k - m.
pub utilization-order_matters :
    (k m : ℕ)
    → m ≤ k
    → (cash_total (apply_itc_utilization (pos 0) (pos k) (pos k) (pos m) (pos k) (pos 0)) ≡ k)
      × (cash_total
            (use_all sgst_first_order (opening (pos 0) (pos k) (pos k) (pos m) (pos k) (pos 0)))
          ≡ k - m)
unfolding apply_itc_utilization
utilization-order_matters k m h =
    (simp (minima, min-eq_left h) (omega arith), simp (minima, min-eq_left h) (omega arith))
