-- ===== src/Gst/Utilization/Laws.antt =====
-- Theorems on apply_itc_utilization of firmos-backend/engines/gst.py: accounting, the separation of
-- CGST and SGST credit, and what is left undone.
use firmos.Base.{
  ℕ, ◌+◌, ◌≡◌, refl, ◌∙◌, ◌⊎◌, List, [], ◌∷◌, arith, Bool, true, false, if◌then◌else◌,
}
use firmos.Base.Lists.{All}
use firmos.Base.Int.{ℤ}
use firmos.Gst.Utilization.{
  Component, igst, cgst, sgst, get, row, Ledger, use_credit, use_all, opening, rule_order,
  apply_itc_utilization,
}

-- The paise of one credit that were used, and the paise of credit that went to one tax.
abbrev pub used_of : Component → Ledger → ℕ
used_of c l =
    get igst (row c l.itc_used) + get cgst (row c l.itc_used) + get sgst (row c l.itc_used)

abbrev pub paid_to : Component → Ledger → ℕ
paid_to p l = get p l.itc_used.from_igst + get p l.itc_used.from_cgst + get p l.itc_used.from_sgst

-- The credit and the tax that a ledger stands for.
abbrev pub credit_total : Component → Ledger → ℕ
credit_total c l = get c l.remaining_itc + used_of c l

abbrev pub tax_total : Component → Ledger → ℕ
tax_total p l = get p l.cash_payable + paid_to p l

use_credit-accounts :
    (c p k : Component) (l : Ledger)
    → (credit_total k (use_credit c p l) ≡ credit_total k l)
      × (tax_total k (use_credit c p l) ≡ tax_total k l)
unfolding use_credit
use_credit-accounts igst p k l = (ground arith, ground arith)
use_credit-accounts _ p k l = (ground arith, ground arith)

pub use_all-accounts :
    (steps : List (Component × Component)) (k : Component) (l : Ledger)
    → (credit_total k (use_all steps l) ≡ credit_total k l)
      × (tax_total k (use_all steps l) ≡ tax_total k l)
unfolding use_all
use_all-accounts [] k l = (refl, refl)
use_all-accounts ((c, p) ∷ steps) k l =
    let step = use_credit-accounts c p k l in
    let rest = use_all-accounts steps k (use_credit c p l) in (rest.0 ∙ step.0, rest.1 ∙ step.1)

-- For every liability and credit, negative ones counted as zero: the cash payable of each tax and the
-- credits that went to it make up the liability, and what is left of each credit and what was used
-- of it make up the credit.
pub utilization-accounts :
    (oi oc os ii ic is : ℤ) (k : Component)
    → let l = apply_itc_utilization oi oc os ii ic is in
      (tax_total k l ≡ get k (opening oi oc os ii ic is).cash_payable)
      × (credit_total k l ≡ get k (opening oi oc os ii ic is).remaining_itc)
unfolding apply_itc_utilization
utilization-accounts oi oc os ii ic is k =
    let all = use_all-accounts rule_order k (opening oi oc os ii ic is) in
    (all.1 ∙ start_tax k, all.0 ∙ start_credit k)
  where
    start_tax :
        (k : Component)
        → tax_total k (opening oi oc os ii ic is) ≡ get k (opening oi oc os ii ic is).cash_payable
    start_tax k = ground arith

    start_credit :
        (k : Component)
        → credit_total k (opening oi oc os ii ic is)
          ≡ get k (opening oi oc os ii ic is).remaining_itc
    start_credit k = ground arith

-- CGST credit never pays SGST, and SGST credit never pays CGST.
pub utilization-apart :
    (oi oc os ii ic is : ℤ)
    → let u = (apply_itc_utilization oi oc os ii ic is).itc_used in
      (u.from_cgst.sgst ≡ 0) × (u.from_sgst.cgst ≡ 0)
unfolding apply_itc_utilization use_credit
utilization-apart oi oc os ii ic is = (refl, refl)

-- A set-off is spent when the credit is used up or the tax is paid.
abbrev pub Spent : Component × Component → Ledger → Type 0
Spent (c, p) l = (get c l.remaining_itc ≡ 0) ⊎ (get p l.cash_payable ≡ 0)

use_credit-Spent : (c p : Component) (l : Ledger) → Spent (c, p) (use_credit c p l)
unfolding use_credit
use_credit-Spent c p l = ground arith

use_credit-keeps :
    (a b c p : Component) (l : Ledger) → Spent (a, b) l → Spent (a, b) (use_credit c p l)
unfolding use_credit
use_credit-keeps igst b c p l h = ground arith
use_credit-keeps _ b c p l h = ground arith

use_all-keeps :
    (a b : Component) (steps : List (Component × Component)) (l : Ledger)
    → Spent (a, b) l
    → Spent (a, b) (use_all steps l)
unfolding use_all
use_all-keeps a b [] l h = h
use_all-keeps a b ((c, p) ∷ steps) l h =
    use_all-keeps a b steps (use_credit c p l) (use_credit-keeps a b c p l h)

pub use_all-Spent :
    (steps : List (Component × Component)) (l : Ledger) → All (λ s. Spent s (use_all steps l)) steps
unfolding use_all
use_all-Spent [] l = tt
use_all-Spent ((c, p) ∷ steps) l = (
  use_all-keeps c p steps (use_credit c p l) (use_credit-Spent c p l),
  use_all-Spent steps (use_credit c p l),
)

calls_Spent :
    (oi oc os ii ic is : ℤ)
    → All (λ s. Spent s (apply_itc_utilization oi oc os ii ic is)) rule_order
unfolding apply_itc_utilization
calls_Spent oi oc os ii ic is = use_all-Spent rule_order (opening oi oc os ii ic is)

-- The set-offs of the law: IGST credit for every tax, CGST and SGST credit for IGST and for its own tax.
abbrev pub is_permitted : (credit tax : Component) → Bool
is_permitted cgst sgst = false
is_permitted sgst cgst = false
is_permitted _ _ = true

-- For every credit and tax: where the one may pay the other, the credit is used up or nothing of the tax
-- is payable in cash; where it may not (CGST credit for SGST, SGST credit for CGST), none of it did.
pub utilization-Spent :
    (oi oc os ii ic is : ℤ) (c p : Component)
    → let l = apply_itc_utilization oi oc os ii ic is in
      if is_permitted c p then Spent (c, p) l else get p (row c l.itc_used) ≡ 0
unfolding apply_itc_utilization use_credit
utilization-Spent oi oc os ii ic is cgst sgst = refl
utilization-Spent oi oc os ii ic is sgst cgst = refl
utilization-Spent oi oc os ii ic is igst igst = (calls_Spent oi oc os ii ic is).0
utilization-Spent oi oc os ii ic is igst cgst = (calls_Spent oi oc os ii ic is).1.0
utilization-Spent oi oc os ii ic is igst sgst = (calls_Spent oi oc os ii ic is).1.1.0
utilization-Spent oi oc os ii ic is cgst cgst = (calls_Spent oi oc os ii ic is).1.1.1.0
utilization-Spent oi oc os ii ic is cgst igst = (calls_Spent oi oc os ii ic is).1.1.1.1.0
utilization-Spent oi oc os ii ic is sgst sgst = (calls_Spent oi oc os ii ic is).1.1.1.1.1.0
utilization-Spent oi oc os ii ic is sgst igst = (calls_Spent oi oc os ii ic is).1.1.1.1.1.1.0
