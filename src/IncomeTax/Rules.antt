-- ===== src/IncomeTax/Rules.antt =====
-- firmos-backend/engines/income_tax_rules.py: the rules of an assessment year and the computation for
-- an individual, income at special rates included. Amounts of income, tax and credits are natural
-- numbers of paise, rates are natural numbers of percent; a rule has all its keys. The texts of the
-- regime other than NEW and OLD, which raise a ValueError, are left out.
pub mod Compute
pub mod Laws
use firmos.Base.{
  ℕ, ◌+◌, ◌-◌, ◌*◌, ◌/◌, min, max, Bool, true, false, ◌&&◌, ◌||◌, not, Option, none, some, List, [],
  ◌∷◌, ◌++◌, if◌then◌else◌, leb, ltb, ◌==◌,
}
use firmos.Base.Lists.{any}
use firmos.Base.Int.{ℤ, pos, ◌+ℤ◌, ◌-ℤ◌, max0, scale_ℤ, floor_div_ℤ}
use firmos.IncomeTax.Slabs.{Regime, new, old, Slabs}

pub record Rule : Type 0 where
  pub new_slabs : Slabs
  pub old_slabs : Slabs
  pub new_rebate_threshold : ℕ
  pub new_rebate_max : ℕ
  pub old_rebate_threshold : ℕ
  pub old_rebate_max : ℕ
  pub cess_percent : ℕ
  pub surcharge : List (ℕ × ℕ)
  pub new_surcharge_cap : ℕ
  pub round_to : ℕ

abbrev pub old_slab_table : Slabs
old_slab_table = (some 25000000, 0) ∷ (some 50000000, 5) ∷ (some 100000000, 20) ∷ (none, 30) ∷ []

abbrev pub surcharge_table : List (ℕ × ℕ)
surcharge_table = (500000000, 10) ∷ (1000000000, 15) ∷ (2000000000, 25) ∷ (5000000000, 37) ∷ []

abbrev pub rule_2025 : Rule
rule_2025 = record {
  new_slabs =
      (some 30000000, 0)
      ∷ (some 70000000, 5)
      ∷ (some 100000000, 10)
      ∷ (some 120000000, 15)
      ∷ (some 150000000, 20)
      ∷ (none, 30)
      ∷ [];
  old_slabs = old_slab_table;
  new_rebate_threshold = 70000000;
  new_rebate_max = 2500000;
  old_rebate_threshold = 50000000;
  old_rebate_max = 1250000;
  cess_percent = 4;
  surcharge = surcharge_table;
  new_surcharge_cap = 25;
  round_to = 1000;
}

abbrev pub rule_2026 : Rule
rule_2026 = record rule_2025 {
  new_slabs =
      (some 40000000, 0)
      ∷ (some 80000000, 5)
      ∷ (some 120000000, 10)
      ∷ (some 160000000, 15)
      ∷ (some 200000000, 20)
      ∷ (some 240000000, 25)
      ∷ (none, 30)
      ∷ [];
  new_rebate_threshold = 120000000;
  new_rebate_max = 6000000;
}

-- The keys of DEFAULT_RULES; any other year is an unknown one, whose ValueError is `none`.
pub data Year : Type 0 where
  year_2025_26 year_2026_27 unbundled : Year

pub official_rule : Year → Option Rule
official_rule year_2025_26 = some rule_2025
official_rule year_2026_27 = some rule_2026
official_rule unbundled = none

-- `rule[f"{regime}_slabs"]`, and the keys of the rebate.
abbrev pub rule_slabs : Rule → Regime → Slabs
rule_slabs rule new = rule.new_slabs
rule_slabs rule old = rule.old_slabs

abbrev pub rebate_threshold : Rule → Regime → ℕ
rebate_threshold rule new = rule.new_rebate_threshold
rebate_threshold rule old = rule.old_rebate_threshold

abbrev pub rebate_max : Rule → Regime → ℕ
rebate_max rule new = rule.new_rebate_max
rebate_max rule old = rule.old_rebate_max

-- The last limit is open, and those before it are in order; an open one among several of them cannot
-- be compared, which is an exception like the others.
unfoldable pub ends_open : Slabs → Bool
ends_open [] = false
ends_open ((none, rate) ∷ []) = true
ends_open ((some upper, rate) ∷ []) = false
ends_open (slab ∷ next ∷ slabs) = ends_open (next ∷ slabs)

abbrev pub in_order : Option ℕ → Option ℕ → Bool
in_order (some a) (some b) = leb a b
in_order _ _ = false

unfoldable pub limits_sorted : Slabs → Bool
limits_sorted [] = true
limits_sorted (slab ∷ []) = true
limits_sorted (slab ∷ last ∷ []) = true
limits_sorted (slab ∷ next ∷ last ∷ slabs) =
    in_order slab.0 next.0 && limits_sorted (next ∷ last ∷ slabs)

abbrev pub valid_slabs : Slabs → Bool
valid_slabs slabs = ends_open slabs && (limits_sorted slabs && not (any (λ s. ltb 100 s.1) slabs))

-- `true` is the return without an exception.
unfoldable pub validate_rule : Rule → Bool
unfolding ends_open limits_sorted
validate_rule rule =
    valid_slabs rule.new_slabs && (valid_slabs rule.old_slabs && leb rule.cess_percent 100)
