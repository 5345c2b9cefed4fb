-- ===== src/IncomeTax/Slabs.antt =====
-- The slab tables of the income-tax engines, and the tax that such a table stands for, slab by slab.
-- Amounts are paise; a slab is its upper limit, `none` where it has none, and its rate in percent.
pub mod Laws
use firmos.Base.{ℕ, ◌+◌, ◌-◌, ◌*◌, ◌/◌, ◌≤◌, ◌<◌, min, Option, none, some, List, [], ◌∷◌}

-- Every text but "NEW" that reaches a table takes the old slabs.
pub data Regime : Type 0 where
  new old : Regime

abbrev pub Slabs : Type 0
Slabs = List (Option ℕ × ℕ)

-- The limits rise from `lower`, the last slab alone is open, and no rate passes 100 percent.
abbrev pub Rising : ℕ → Slabs → Type 0
Rising lower [] = ⊥
Rising lower ((none, rate) ∷ []) = rate ≤ 100
Rising lower ((none, rate) ∷ _ ∷ _) = ⊥
Rising lower ((some upper, rate) ∷ slabs) = (rate ≤ 100) × (lower < upper) × Rising upper slabs

-- The tax of the part of the income above `lower`: each slab taxes what lies in it, rounded down.
unfoldable pub marginal : Slabs → ℕ → ℕ → ℕ
marginal [] lower income = 0
marginal ((none, rate) ∷ slabs) lower income = (income - lower) * rate / 100
marginal ((some upper, rate) ∷ slabs) lower income =
    (min income upper - lower) * rate / 100 + marginal slabs upper income
