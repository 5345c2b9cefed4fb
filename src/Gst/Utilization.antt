-- ===== src/Gst/Utilization.antt =====
-- firmos-backend/engines/gst.py: apply_itc_utilization.
pub mod Laws
pub mod Order
use firmos.Base.{ℕ, ◌+◌, ◌-◌, min, List, [], ◌∷◌}
use firmos.Base.Int.{ℤ, max0}

-- The keys "igst", "cgst" and "sgst", and a dictionary over them.
pub data Component : Type 0 where
  igst cgst sgst : Component

pub record Split : Type 0 where
  pub igst : ℕ
  pub cgst : ℕ
  pub sgst : ℕ

abbrev pub get : Component → Split → ℕ
get igst s = s.igst
get cgst s = s.cgst
get sgst s = s.sgst

abbrev pub put : Component → ℕ → Split → Split
put igst n s = record s { igst = n }
put cgst n s = record s { cgst = n }
put sgst n s = record s { sgst = n }

-- `used[credit][payable]`: a row for each credit.
pub record Used : Type 0 where
  pub from_igst : Split
  pub from_cgst : Split
  pub from_sgst : Split

abbrev pub row : Component → Used → Split
row igst u = u.from_igst
row cgst u = u.from_cgst
row sgst u = u.from_sgst

abbrev pub put_row : Component → Split → Used → Used
put_row igst s u = record u { from_igst = s }
put_row cgst s u = record u { from_cgst = s }
put_row sgst s u = record u { from_sgst = s }

-- The dictionaries that the inner function `use` mutates; they are also the result.
pub record Ledger : Type 0 where
  pub itc_used : Used
  pub cash_payable : Split
  pub remaining_itc : Split

-- `use(credit_component, payable_component)`
unfoldable pub use_credit : Component → Component → Ledger → Ledger
use_credit c p l =
    let amount = min (get c l.remaining_itc) (get p l.cash_payable) in
    let used = row c l.itc_used in
    record {
      itc_used = put_row c (put p (get p used + amount) used) l.itc_used;
      cash_payable = put p (get p l.cash_payable - amount) l.cash_payable;
      remaining_itc = put c (get c l.remaining_itc - amount) l.remaining_itc;
    }

unfoldable pub use_all : List (Component × Component) → Ledger → Ledger
unfolding use_credit
use_all [] l = l
use_all ((c, p) ∷ steps) l = use_all steps (use_credit c p l)

abbrev pub no_split : Split
no_split = record { igst = 0; cgst = 0; sgst = 0 }

-- What is due and what is available, each cut off at zero, and nothing used.
abbrev pub opening : ℤ → ℤ → ℤ → ℤ → ℤ → ℤ → Ledger
opening oi oc os ii ic is = record {
  itc_used = record { from_igst = no_split; from_cgst = no_split; from_sgst = no_split };
  cash_payable = record { igst = max0 oi; cgst = max0 oc; sgst = max0 os };
  remaining_itc = record { igst = max0 ii; cgst = max0 ic; sgst = max0 is };
}

-- The seven calls, in the code's order.
abbrev pub rule_order : List (Component × Component)
rule_order =
    (igst, igst)
    ∷ (igst, cgst)
    ∷ (igst, sgst)
    ∷ (cgst, cgst)
    ∷ (cgst, igst)
    ∷ (sgst, sgst)
    ∷ (sgst, igst)
    ∷ []

unfoldable pub apply_itc_utilization : ℤ → ℤ → ℤ → ℤ → ℤ → ℤ → Ledger
unfolding use_all
apply_itc_utilization oi oc os ii ic is = use_all rule_order (opening oi oc os ii ic is)
