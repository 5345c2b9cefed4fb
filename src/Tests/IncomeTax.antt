-- ===== src/Tests/IncomeTax.antt =====
-- The theorems on the income-tax engines at concrete incomes.
use firmos.Base.{◌+◌, ◌-◌, ◌*◌, ◌/◌, ◌≡◌, refl, [], arith}
use firmos.Base.Int.{pos, ◌+ℤ◌, ◌-ℤ◌, ◌≤ℤ◌}
use firmos.Base.Float.{int_percent}
use firmos.IncomeTax.Slabs.{new, old, marginal}
use firmos.IncomeTax.Engine.{
  slabs_of, slab_tax_amount, detail_loop, surcharge_band, relief_of, calculate_income_tax,
}
use firmos.IncomeTax.Engine.Loops.{loops-agree}
use firmos.IncomeTax.Engine.Relief.{tax_and_surcharge, surcharge-capped}

-- Rs. 50,00,001 under the new regime: the surcharge of 10 percent is relieved.
just_above : (calculate_income_tax 500000100 new).total_tax ≡ pos 123760104
unfolding calculate_income_tax detail_loop surcharge_band relief_of int_percent ◌+ℤ◌ ◌-ℤ◌
just_above = refl

loops-agree_example :
    ((detail_loop (slabs_of new) 123456789 0 0 []).0 ≡ marginal (slabs_of new) 0 123456789)
    × (slab_tax_amount 123456789 (slabs_of new) ≡ marginal (slabs_of new) 0 123456789)
loops-agree_example = loops-agree 123456789 new (omega arith)

surcharge-capped_example :
    let at_t = marginal (slabs_of old) 0 5000000000 in
    tax_and_surcharge (calculate_income_tax 5000000700 old)
    ≤ℤ pos
        (at_t + at_t * (surcharge_band 5000000700 old).preceding / 100 + (5000000700 - 5000000000))
surcharge-capped_example =
    surcharge-capped 5000000700 old 5000000000 (omega arith) (unfold surcharge_band in refl)
