-- ===== src/IncomeTax/Engine.antt =====
-- firmos-backend/engines/tax.py: income tax by slabs, rebate, surcharge with marginal relief, and
-- cess. A taxable income is a natural number: on a negative one the first round of each loop breaks,
-- and every figure is 0.
pub mod Loops
pub mod Relief
use firmos.Base.{
  ℕ, ◌+◌, ◌-◌, ◌*◌, ◌/◌, min, ◌≡◌, refl, Bool, true, false, ◌&&◌, ◌||◌, Option, none, some, List,
  [], ◌∷◌, ◌++◌, if◌then◌else◌, leb, ◌==◌,
}
use firmos.Base.Int.{ℤ, pos, ◌+ℤ◌, ◌-ℤ◌, max0}
use firmos.Base.Float.{int_div, int_percent}
use firmos.IncomeTax.Slabs.{Regime, new, old, Slabs}

abbrev pub new_regime_slabs : Slabs
new_regime_slabs =
    (some 30000000, 0)
    ∷ (some 70000000, 5)
    ∷ (some 100000000, 10)
    ∷ (some 120000000, 15)
    ∷ (some 150000000, 20)
    ∷ (none, 30)
    ∷ []

abbrev pub old_regime_slabs : Slabs
old_regime_slabs = (some 25000000, 0) ∷ (some 50000000, 5) ∷ (some 100000000, 20) ∷ (none, 30) ∷ []

abbrev pub slabs_of : Regime → Slabs
slabs_of new = new_regime_slabs
slabs_of old = old_regime_slabs

-- `remaining if upper is None else min(remaining, upper - previous)`: the limits of the tables rise,
-- so the difference is a number.
abbrev pub in_slab : Option ℕ → ℕ → ℕ → ℕ
in_slab none previous remaining = remaining
in_slab (some upper) previous remaining = min remaining (upper - previous)

-- `upper or previous`
abbrev pub next_limit : Option ℕ → ℕ → ℕ
next_limit none previous = previous
next_limit (some upper) previous = if upper == 0 then previous else upper

-- The loop of _slab_tax_amount, on what remains, the tax so far and the previous limit.
unfoldable pub slab_loop : Slabs → ℕ → ℕ → ℕ → ℕ
slab_loop [] remaining tax previous = tax
slab_loop ((upper, rate) ∷ slabs) remaining tax previous =
    let taxable = in_slab upper previous remaining in
    let taxed = tax + taxable * rate / 100 in
    let rest = slab_loop slabs (remaining - taxable) taxed (next_limit upper previous) in
    if taxable == 0 then tax else if remaining - taxable == 0 then taxed else rest

unfoldable pub slab_tax_amount : ℕ → Slabs → ℕ
unfolding slab_loop
slab_tax_amount income slabs = slab_loop slabs income 0 0

-- A line of slab_details; its range is the two limits in rupees, `none` for the sign of infinity.
pub record Detail : Type 0 where
  pub from_rupees : ℕ
  pub to_rupees : Option ℕ
  pub rate : ℕ
  pub taxable : ℕ
  pub tax : ℕ

abbrev pub rupees : Option ℕ → Option ℕ
rupees none = none
rupees (some upper) = if upper == 0 then none else some (upper / 100)

-- The loop of calculate_income_tax itself, with float division and a line for each slab.
unfoldable pub detail_loop : Slabs → ℕ → ℕ → ℕ → List Detail → ℕ × List Detail
unfolding int_div
detail_loop [] remaining tax previous details = (tax, details)
detail_loop ((upper, rate) ∷ slabs) remaining tax previous details =
    let taxable = in_slab upper previous remaining in
    let tax_in_slab = int_div (taxable * rate) 100 in
    let lines =
      details
      ++ record {
        from_rupees = previous / 100;
        to_rupees = rupees upper;
        rate = rate;
        taxable = taxable;
        tax = tax_in_slab;
      }
        ∷ [] in
    let rest =
      detail_loop slabs (remaining - taxable) (tax + tax_in_slab) (next_limit upper previous)
        lines in
    if taxable == 0
    then (tax, details)
    else if remaining - taxable == 0
    then (tax + tax_in_slab, lines)
    else rest

-- The rate, its threshold, and the preceding rate.
pub record Band : Type 0 where
  pub rate : ℕ
  pub threshold : Option ℕ
  pub preceding : ℕ

abbrev pub is_new : Regime → Bool
is_new new = true
is_new old = false

unfoldable pub surcharge_band : ℕ → Regime → Band
surcharge_band income regime =
    if leb income 500000000
    then record { rate = 0; threshold = none; preceding = 0 }
    else if leb income 1000000000
    then record { rate = 10; threshold = some 500000000; preceding = 0 }
    else if leb income 2000000000
    then record { rate = 15; threshold = some 1000000000; preceding = 10 }
    else if leb income 5000000000 || is_new regime
    then record { rate = 25; threshold = some 2000000000; preceding = 15 }
    else record { rate = 37; threshold = some 5000000000; preceding = 25 }

-- The most that tax and surcharge may come to, and the relief that brings them down to it. The
-- income lies above the threshold of its band.
unfoldable pub maximum_with_surcharge : ℕ → Slabs → ℕ → ℕ → ℕ
unfolding slab_tax_amount
maximum_with_surcharge income slabs threshold preceding =
    let tax_at_threshold = slab_tax_amount threshold slabs in
    tax_at_threshold + tax_at_threshold * preceding / 100 + income - threshold

unfoldable pub relief_of : Option ℕ → ℕ → ℕ → Slabs → ℕ → ℕ
unfolding maximum_with_surcharge
relief_of none preceding income slabs due = 0
relief_of (some threshold) preceding income slabs due =
    max0 (pos due -ℤ pos (maximum_with_surcharge income slabs threshold preceding))

pub record Computation : Type 0 where
  pub taxable_income : ℕ
  pub regime : Regime
  pub base_tax : ℕ
  pub rebate_87a : ℕ
  pub surcharge_rate : ℕ
  pub surcharge : ℤ
  pub marginal_relief : ℕ
  pub cess : ℤ
  pub total_tax : ℤ
  pub slab_details : List Detail

unfoldable pub calculate_income_tax : ℕ → Regime → Computation
unfolding detail_loop
calculate_income_tax income regime =
    let slabs = slabs_of regime in
    let (slab_tax, details) = detail_loop slabs income 0 0 [] in
    let rebated = is_new regime && leb income 70000000 in
    let tax : ℕ = if rebated then 0 else slab_tax in
    let band = surcharge_band income regime in
    let unrelieved = tax * band.rate / 100 in
    let relief = relief_of band.threshold band.preceding income slabs (tax + unrelieved) in
    let surcharge = pos unrelieved -ℤ pos relief in
    let cess = int_percent (pos tax +ℤ surcharge) 4 in
    record {
      taxable_income = income;
      regime = regime;
      base_tax = tax;
      rebate_87a = if rebated then slab_tax else 0;
      surcharge_rate = band.rate;
      surcharge = surcharge;
      marginal_relief = relief;
      cess = cess;
      total_tax = pos tax +ℤ surcharge +ℤ cess;
      slab_details = details;
    }
