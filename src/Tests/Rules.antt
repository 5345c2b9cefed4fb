-- ===== src/Tests/Rules.antt =====
-- The theorems on firmos-backend/engines/income_tax_rules.py at concrete returns.
use firmos.Base.{◌≡◌, refl, true, some, arith}
use firmos.Base.Int.{pos, negsuc, ◌-ℤ◌}
use firmos.IncomeTax.Slabs.{new, old}
use firmos.IncomeTax.Engine.{slabs_of, slab_tax_amount}
use firmos.IncomeTax.Rules.{
  rule_2025, rule_2026, rule_slabs, validate_rule, ends_open, limits_sorted,
}
use firmos.IncomeTax.Rules.Compute.{
  rule_loop, rule_slab_tax, rule_surcharge, surcharge_step, prior_rate, Return, assess, calculate,
}
use firmos.IncomeTax.Rules.Laws.{IsSettled, engines-agree, calculate-IsSettled}

abbrev salary : Return
salary = record {
  income = 610000050;
  deductions = pos 7500000;
  tax_credits = 150000000;
  regime = new;
  resident = true;
  special_rate_income = 0;
  special_rate_tax = 0;
  new_regime_allowed = pos 5000000;
}

accepted : calculate rule_2026 salary ≡ some (assess rule_2026 salary)
unfolding calculate validate_rule ends_open limits_sorted
accepted = refl

-- Income of Rs. 50,00,001 at a special rate of 30 percent alone: the relief, measured by the slabs,
-- is more than the whole surcharge.
negative_surcharge :
    rule_surcharge 500000100 150000030 rule_2025 new (rule_slabs rule_2025 new)
    ≡ (10, negsuc 30999929, 45999933)
unfolding rule_surcharge surcharge_step prior_rate rule_slab_tax rule_loop ◌-ℤ◌
negative_surcharge = refl

engines-agree_example :
    (rule_slab_tax 610000050 (rule_slabs rule_2025 old)).0
    ≡ slab_tax_amount 610000050 (slabs_of old)
engines-agree_example = engines-agree 610000050 old

calculate-IsSettled_example : IsSettled rule_2026 salary (assess rule_2026 salary)
calculate-IsSettled_example =
    calculate-IsSettled rule_2026 salary (assess rule_2026 salary) accepted (omega arith)
