-- ===== src/IncomeTax/Engine/Relief.antt =====
-- The marginal relief of firmos-backend/engines/tax.py.
use firmos.Base.{
  ℕ, ◌+◌, ◌-◌, ◌*◌, ◌/◌, ◌^◌, ◌≤◌, ◌<◌, ◌≡◌, refl, Option-cases, inl, inr, some, arith, false, ◌&&◌,
  leb,
}
use firmos.Base.Int.{ℤ, pos, ◌+ℤ◌, ◌-ℤ◌, ◌≤ℤ◌, max0, int_laws}
use firmos.IncomeTax.Slabs.{Slabs, Regime, new, old, Rising, marginal}
use firmos.IncomeTax.Slabs.Laws.{marginal-lipschitz}
use firmos.IncomeTax.Engine.{
  slabs_of, slab_tax_amount, is_new, surcharge_band, maximum_with_surcharge, relief_of, Computation,
  calculate_income_tax,
}
use firmos.IncomeTax.Engine.Loops.{slabs-Rising, loops-agree, slab_tax-eq-marginal}

-- The tax with its surcharge, before cess.
abbrev pub tax_and_surcharge : Computation → ℤ
tax_and_surcharge r = pos r.base_tax +ℤ r.surcharge

max0-sub : (a b : ℕ) → max0 (pos a -ℤ pos b) ≡ a - b
unfolding ◌-ℤ◌
max0-sub a b = ground arith

relieved :
    (tax full most : ℕ)
    → tax ≤ most
    → let surcharge = pos full -ℤ pos (max0 (pos (tax + full) -ℤ pos most)) in
      (pos 0 ≤ℤ surcharge) × (surcharge ≤ℤ pos full) × (pos tax +ℤ surcharge ≤ℤ pos most)
relieved tax full most h = rw (max0-sub (tax + full) most) (omega int_laws)

-- A band with a threshold lies above it, and above every rebate.
band_above :
    (income : ℕ) (regime : Regime) (t : ℕ)
    → (surcharge_band income regime).threshold ≡ some t
    → (t < income) × ((is_new regime && leb income 70000000) ≡ false)
unfolding surcharge_band
band_above income new t h = ground arith
band_above income old t h = ground arith

-- The tax above a threshold grows no faster than the income.
tax-le-cap :
    (slabs : Slabs) (income t preceding : ℕ)
    → Rising 0 slabs
    → slab_tax_amount t slabs ≡ marginal slabs 0 t
    → t < income
    → marginal slabs 0 income ≤ maximum_with_surcharge income slabs t preceding
unfolding maximum_with_surcharge
tax-le-cap slabs income t preceding r e h =
    omega (arith, e, marginal-lipschitz slabs 0 t income r (omega arith))

-- The surcharge as the code composes it.
surcharge-eq :
    (income : ℕ) (regime : Regime)
    → let r = calculate_income_tax income regime in
      let band = surcharge_band income regime in
      let full = r.base_tax * r.surcharge_rate / 100 in
      r.surcharge
      ≡ pos full
        -ℤ pos
            (relief_of band.threshold band.preceding income (slabs_of regime) (r.base_tax + full))
unfolding calculate_income_tax
surcharge-eq income regime = refl

-- Above a threshold no rebate applies.
base_tax-eq :
    (income : ℕ) (regime : Regime) (t : ℕ)
    → income < 10 ^ 13
    → (surcharge_band income regime).threshold ≡ some t
    → (calculate_income_tax income regime).base_tax ≡ marginal (slabs_of regime) 0 income
unfolding calculate_income_tax
base_tax-eq income regime t small h =
    rw (band_above income regime t h).1 ((loops-agree income regime small).0)

-- What holds above a threshold, for tax, surcharge and cap together.
above_threshold :
    (income : ℕ) (regime : Regime) (t : ℕ)
    → income < 10 ^ 13
    → (surcharge_band income regime).threshold ≡ some t
    → let r = calculate_income_tax income regime in
      (pos 0 ≤ℤ r.surcharge)
      × (r.surcharge ≤ℤ pos (r.base_tax * r.surcharge_rate / 100))
      × (tax_and_surcharge r
          ≤ℤ pos (
              maximum_with_surcharge income
                (slabs_of regime)
                t
                (surcharge_band income regime).preceding))
unfolding relief_of
above_threshold income regime t small h =
    let band = surcharge_band income regime in
    let r = calculate_income_tax income regime in
    let fits =
      tax-le-cap (slabs_of regime) income t band.preceding (slabs-Rising regime)
        (slab_tax-eq-marginal t regime) (band_above income regime t h).0 in
    rw (surcharge-eq income regime, h)
      (relieved r.base_tax (r.base_tax * r.surcharge_rate / 100) _
        (rw (base_tax-eq income regime t small h) fits))

-- For every income below 10 ^ 13 paise, under both regimes: marginal relief never turns the surcharge
-- negative, and the surcharge is at most its rate on the tax after rebate.
pub surcharge-bounds :
    (income : ℕ) (regime : Regime)
    → income < 10 ^ 13
    → let r = calculate_income_tax income regime in
      (pos 0 ≤ℤ r.surcharge) × (r.surcharge ≤ℤ pos (r.base_tax * r.surcharge_rate / 100))
unfolding relief_of
surcharge-bounds income regime small =
    elim (Option-cases (surcharge_band income regime).threshold) [
      | inl flat ↦ rw (surcharge-eq income regime, flat) (omega int_laws)
      | inr (t, h) ↦ let all = above_threshold income regime t small h in (all.0, all.1)
    ]

-- For incomes below 10 ^ 13 paise, where the income lies above the threshold t of its band, tax with surcharge is at most
-- the tax at t, plus the preceding band's surcharge on that, plus the income beyond t.
pub surcharge-capped :
    (income : ℕ) (regime : Regime) (t : ℕ)
    → income < 10 ^ 13
    → (surcharge_band income regime).threshold ≡ some t
    → let at_t = marginal (slabs_of regime) 0 t in
      tax_and_surcharge (calculate_income_tax income regime)
      ≤ℤ pos (at_t + at_t * (surcharge_band income regime).preceding / 100 + (income - t))
unfolding maximum_with_surcharge
surcharge-capped income regime t small h =
    let all = above_threshold income regime t small h in
    let above = (band_above income regime t h).0 in
    let at_t = slab_tax-eq-marginal t regime in rw (← at_t) (omega (arith, all.2, above))
