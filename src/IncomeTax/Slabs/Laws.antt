-- ===== src/IncomeTax/Slabs/Laws.antt =====
-- The slab-by-slab tax of a rising table: zero below the table, monotone, and never growing faster
-- than the income.
use native.Mathlib.Nat.{mul-le-mul_left, mul-le-mul_right}
use firmos.Base.{ℕ, ◌+◌, ◌-◌, ◌*◌, ◌/◌, ◌≤◌, ◌<◌, min, ◌≡◌, refl, ap, none, some, [], ◌∷◌, arith}
use firmos.IncomeTax.Slabs.{Slabs, Rising, marginal}

pub marginal-below :
    (slabs : Slabs) (lower income : ℕ)
    → Rising lower slabs
    → income ≤ lower
    → marginal slabs lower income ≡ 0
unfolding marginal
marginal-below [] lower income r h = refl
marginal-below ((none, rate) ∷ slabs) lower income r h =
    let z : income - lower ≡ 0 = omega arith in rw z (omega arith)
marginal-below ((some upper, rate) ∷ slabs) lower income r h =
    let z : min income upper - lower ≡ 0 = omega arith in
    rw (z, marginal-below slabs upper income r.2 (omega arith)) (omega arith)

-- One slab, on parts a ≤ a + k of an income.
slab_mono : (a b rate : ℕ) → a ≤ b → a * rate / 100 ≤ b * rate / 100
slab_mono a b rate h = omega (arith, mul-le-mul_right rate h)

slab-lipschitz : (a b rate : ℕ) → rate ≤ 100 → a ≤ b → b * rate / 100 ≤ a * rate / 100 + (b - a)
slab-lipschitz a b rate r h =
    let grown : (b - a) * rate ≤ (b - a) * 100 = mul-le-mul_left (b - a) r in
    let whole : b ≡ a + (b - a) = omega arith in
    let split : b * rate ≡ (a + (b - a)) * rate = ap (λ (t : ℕ). t * rate) whole in
    omega (arith, grown, split)

-- More income, no less tax; and the tax grows no faster than the income.
pub marginal_mono :
    (slabs : Slabs) (lower x y : ℕ) → x ≤ y → marginal slabs lower x ≤ marginal slabs lower y
unfolding marginal
marginal_mono [] lower x y h = omega arith
marginal_mono ((none, rate) ∷ slabs) lower x y h =
    slab_mono (x - lower) (y - lower) rate (omega arith)
marginal_mono ((some upper, rate) ∷ slabs) lower x y h = omega (
  arith,
  slab_mono (min x upper - lower) (min y upper - lower) rate (omega arith),
  marginal_mono slabs upper x y h,
)

pub marginal-lipschitz :
    (slabs : Slabs) (lower x y : ℕ)
    → Rising lower slabs
    → x ≤ y
    → marginal slabs lower y ≤ marginal slabs lower x + (y - lower - (x - lower))
unfolding marginal
marginal-lipschitz [] lower x y r h = omega arith
marginal-lipschitz ((none, rate) ∷ []) lower x y r h =
    slab-lipschitz (x - lower) (y - lower) rate r (omega arith)
marginal-lipschitz ((none, rate) ∷ _ ∷ _) lower x y r h = absurd r
marginal-lipschitz ((some upper, rate) ∷ slabs) lower x y r h =
    let here = slab-lipschitz (min x upper - lower) (min y upper - lower) rate r.0 (omega arith) in
    let above = marginal-lipschitz slabs upper x y r.2 h in
    let rising : lower < upper = r.1 in omega (arith, here, above, rising)
