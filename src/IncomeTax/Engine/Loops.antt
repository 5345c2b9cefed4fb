-- ===== src/IncomeTax/Engine/Loops.antt =====
-- The two loops of firmos-backend/engines/tax.py against the slab-by-slab tax.
use native.Mathlib.Nat.{sub-zero, zero-add}
use firmos.Base.{
  if◌then◌else◌, ℕ, zero, suc, ◌+◌, ◌-◌, ◌*◌, ◌/◌, ◌^◌, ◌<◌, min, ◌≡◌, refl, ◌∙◌, none, some, List,
  [], ◌∷◌, arith, ◌==◌,
}
use firmos.Base.Float.Exact.{int_div_percent}
use firmos.IncomeTax.Slabs.{Slabs, Regime, new, old, Rising, marginal}
use firmos.IncomeTax.Slabs.Laws.{marginal-below}
use firmos.IncomeTax.Engine.{next_limit, slabs_of, slab_loop, slab_tax_amount, Detail, detail_loop}

pub slabs-Rising : (regime : Regime) → Rising 0 (slabs_of regime)
slabs-Rising new = omega arith
slabs-Rising old = omega arith

pub slab_loop-eq-marginal :
    (slabs : Slabs) (lower income tax : ℕ)
    → Rising lower slabs
    → slab_loop slabs (income - lower) tax lower ≡ tax + marginal slabs lower income
unfolding slab_loop marginal
slab_loop-eq-marginal [] lower income tax r = absurd r
slab_loop-eq-marginal ((none, rate) ∷ []) lower income tax r = ground arith
slab_loop-eq-marginal ((none, rate) ∷ _ ∷ _) lower income tax r = absurd r
slab_loop-eq-marginal ((some upper, rate) ∷ slabs) lower income tax r =
    let lt : lower < upper = r.1 in
    let part : min (income - lower) (upper - lower) ≡ min income upper - lower = omega arith in
    let left : income - lower - (min income upper - lower) ≡ income - upper = omega arith in
    let next : next_limit (some upper) lower ≡ upper = ground arith in
    let rest =
      slab_loop-eq-marginal slabs upper income (tax + (min income upper - lower) * rate / 100)
        r.2 in
    rw (part, left, next) (ground (arith, rest, marginal-below slabs upper income r.2))

part-small : (income lower upper : ℕ) → income < 10 ^ 13 → min income upper - lower < 10 ^ 13
part-small income lower upper h = omega arith

-- One round: it ends when nothing lies in the slab or nothing is left, and goes on otherwise.
round_total :
    (part left tax here above : ℕ) (short long : List Detail) (rest : ℕ × List Detail)
    → (part ≡ 0 → here + above ≡ 0)
    → (left ≡ 0 → above ≡ 0)
    → rest.0 ≡ tax + here + above
    → (if part == 0 then (tax, short) else if left == 0 then (tax + here, long) else rest).0
      ≡ tax + (here + above)
round_total zero left tax here above short long rest p l r = let e = p refl in omega arith
round_total (suc part) zero tax here above short long rest p l r = ground (arith, l refl)
round_total (suc part) (suc left) tax here above short long rest p l r = ground arith

pub detail_loop-eq-marginal :
    (slabs : Slabs) (lower income tax : ℕ) (details : List Detail)
    → Rising lower slabs
    → income < 10 ^ 13
    → (detail_loop slabs (income - lower) tax lower details).0 ≡ tax + marginal slabs lower income
unfolding detail_loop marginal
detail_loop-eq-marginal [] lower income tax details r small = absurd r
detail_loop-eq-marginal ((none, rate) ∷ []) lower income tax details r small =
    let exact = int_div_percent (income - lower) rate (omega arith) r in
    let here = (income - lower) * rate / 100 in
    rw exact (
      round_total (income - lower) (income - lower - (income - lower)) tax here 0 _ _ _
        (λ none_here. rw none_here (omega arith)) (λ none_left. refl) (omega arith)
      ∙ omega arith)
detail_loop-eq-marginal ((none, rate) ∷ _ ∷ _) lower income tax details r small = absurd r
detail_loop-eq-marginal ((some upper, rate) ∷ slabs) lower income tax details r small =
    let lt : lower < upper = r.1 in
    let part : min (income - lower) (upper - lower) ≡ min income upper - lower = omega arith in
    let left : income - lower - (min income upper - lower) ≡ income - upper = omega arith in
    let next : next_limit (some upper) lower ≡ upper = ground arith in
    let exact =
      int_div_percent (min income upper - lower) rate (part-small income lower upper small) r.0 in
    let ih = λ (ds : List Detail).
      detail_loop-eq-marginal slabs upper income (tax + (min income upper - lower) * rate / 100) ds
        r.2 small in
    let below = marginal-below slabs upper income r.2 in
    rw (part, left, next, exact)
      (round_total (min income upper - lower) (income - upper) tax _ _ _ _ _
        (λ none_here. let z = below (omega arith) in rw (none_here, z) (omega arith))
        (λ none_left. below (omega arith)) (ih _))

-- For incomes below 10 ^ 13 paise: the tax before rebate that calculate_income_tax adds up in floats, and the helper
-- _slab_tax_amount, which works in integers, both give the slab-by-slab tax of the table.
pub loops-agree :
    (income : ℕ) (regime : Regime)
    → income < 10 ^ 13
    → ((detail_loop (slabs_of regime) income 0 0 []).0 ≡ marginal (slabs_of regime) 0 income)
      × (slab_tax_amount income (slabs_of regime) ≡ marginal (slabs_of regime) 0 income)
unfolding slab_tax_amount
loops-agree income regime small =
    let detail =
      detail_loop-eq-marginal (slabs_of regime) 0 income 0 [] (slabs-Rising regime) small in
    let slab = slab_loop-eq-marginal (slabs_of regime) 0 income 0 (slabs-Rising regime) in
    (simp (sub-zero, zero-add) at detail, simp (sub-zero, zero-add) at slab)

pub slab_tax-eq-marginal :
    (income : ℕ) (regime : Regime)
    → slab_tax_amount income (slabs_of regime) ≡ marginal (slabs_of regime) 0 income
unfolding slab_tax_amount
slab_tax-eq-marginal income regime =
    let slab = slab_loop-eq-marginal (slabs_of regime) 0 income 0 (slabs-Rising regime) in
    simp (sub-zero, zero-add) at slab
