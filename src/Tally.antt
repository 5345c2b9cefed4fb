-- ===== src/Tally.antt =====
-- firmos-backend/connectors/tally/canonical.py and api/routes/tally_agent_actions.py: the vouchers that
-- are written to Tally, their read-back, and the actions that a paired device executes.
pub mod Voucher
pub mod Compare
pub mod Agent
use firmos.Base.{
  ℕ, ◌+◌, ◌-◌, ◌/◌, ◌%◌, List, [], ◌∷◌, ◌++◌, if◌then◌else◌, ltb, zero, suc, Bool, ◌&&◌,
}
use firmos.Base.Int.{ℤ, pos, negsuc, eqb_ℤ, leb_ℤ, ◌+ℤ◌}
use firmos.Base.Text.{Text, same_text}
use firmos.Base.Sorting.{first_then}

-- A line of a voucher, and a line of its tax.
pub record Line : Type 0 where
  pub ledger_name : Text
  pub amount_paise : ℤ

pub record GstLine : Type 0 where
  pub ledger_name : Text
  pub tax_type : Text
  pub amount_paise : ℤ

-- `line == other` and `line <= other`, as tuples.
abbrev pub same_line : Line → Line → Bool
same_line a b = same_text a.ledger_name b.ledger_name && eqb_ℤ a.amount_paise b.amount_paise

abbrev pub leb_line : Line → Line → Bool
leb_line a b = first_then a.ledger_name b.ledger_name (leb_ℤ a.amount_paise b.amount_paise)

abbrev pub same_gst : GstLine → GstLine → Bool
same_gst a b =
    same_text a.ledger_name b.ledger_name
    && (same_text a.tax_type b.tax_type && eqb_ℤ a.amount_paise b.amount_paise)

abbrev pub leb_gst : GstLine → GstLine → Bool
leb_gst a b =
    first_then a.ledger_name b.ledger_name
      (first_then a.tax_type b.tax_type (leb_ℤ a.amount_paise b.amount_paise))

-- `sum(...)` of signed amounts
abbrev pub sum_ℤ {ℓ} : {A : Type ℓ} → (A → ℤ) → List A → ℤ
sum_ℤ f [] = pos 0
sum_ℤ f (x ∷ xs) = f x +ℤ sum_ℤ f xs

-- `str(n)`; a number has fewer digits than n + 1.
unfoldable pub digits : ℕ → ℕ → Text
digits zero n = []
digits (suc fuel) n =
    let front = digits fuel (n / 10) in
    if ltb n 10 then (b'0' + n) ∷ [] else front ++ ((b'0' + n % 10) ∷ [])

unfoldable pub str_ℤ : ℤ → Text
unfolding digits
str_ℤ (pos n) = digits (suc n) n
str_ℤ (negsuc n) = b'-' ∷ digits (suc (suc n)) (suc n)
