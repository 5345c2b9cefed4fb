-- ===== src/IncomeTax/Rules/Laws.antt =====
-- Theorems on firmos-backend/engines/income_tax_rules.py.
use mathlib.Core.Path.{subst}
use native.Mathlib.Nat.{div-mul-le_self, lt-div-mul-add, zero-add}
use firmos.Base.{
  Bool-cases, ℕ, ◌+◌, ◌-◌, ◌*◌, ◌/◌, ◌≤◌, ◌≡◌, ◌∙◌, sym, refl, min, Bool, true, false, none, some,
  List, [], ◌∷◌, if◌then◌else◌, ◌==◌, leb, arith, ◌⊎◌, zero, suc, inl, inr, ◌<◌, ◌++◌,
}
use firmos.Base.Lists.{sum_by, sum_by-append}
use firmos.Base.Int.{ℤ, pos, negsuc, ◌+ℤ◌, ◌-ℤ◌, max0}
use firmos.IncomeTax.Slabs.{Regime, new, old, Slabs, Rising, marginal}
use firmos.IncomeTax.Slabs.Laws.{marginal-below}
use firmos.IncomeTax.Engine.{slabs_of, slab_tax_amount}
use firmos.IncomeTax.Engine.Loops.{slabs-Rising, slab_tax-eq-marginal}
use firmos.IncomeTax.Rules.{Rule, rule_2025, rule_slabs, validate_rule}
use firmos.IncomeTax.Rules.Compute.{
  Line, taxable_in, ends_at, next_lower, rule_loop, rule_slab_tax, Return, Assessment,
  round_payable, assess, calculate,
}

skip_empty :
    (taxable rate tax : ℕ)
    → (if taxable == 0 then tax else tax + taxable * rate / 100) ≡ tax + taxable * rate / 100
skip_empty zero rate tax = omega arith
skip_empty (suc n) rate tax = ground arith

-- One round: it ends in the slab of the income, or goes on.
round_total :
    (last : Bool) (taxed tax here above : ℕ) (lines : List Line) (rest : ℕ × List Line)
    → taxed ≡ tax + here
    → (last ≡ true → above ≡ 0)
    → rest.0 ≡ taxed + above
    → (if last then (taxed, lines) else rest).0 ≡ tax + (here + above)
round_total true taxed tax here above lines rest t z r = let e = z refl in omega arith
round_total false taxed tax here above lines rest t z r = omega arith

rule_loop-eq-marginal :
    (slabs : Slabs) (income lower tax : ℕ) (details : List Line)
    → Rising lower slabs
    → (rule_loop income slabs lower tax details).0 ≡ tax + marginal slabs lower income
unfolding rule_loop marginal
rule_loop-eq-marginal [] income lower tax details r = absurd r
rule_loop-eq-marginal ((none, rate) ∷ []) income lower tax details r = ground arith
rule_loop-eq-marginal ((none, rate) ∷ _ ∷ _) income lower tax details r = absurd r
rule_loop-eq-marginal ((some upper, rate) ∷ slabs) income lower tax details r =
    round_total (leb income upper) _ tax _ _ _ _ (skip_empty (min income upper - lower) rate tax)
      (λ e. marginal-below slabs upper income r.2 (ground arith))
      (rule_loop-eq-marginal slabs income upper _ _ r.2)

-- The two engines agree on the tax of the slabs for the assessment year 2025-26, under both regimes:
-- _slab_tax of income_tax_rules.py with the bundled rule, and _slab_tax_amount of tax.py.
pub engines-agree :
    (income : ℕ) (regime : Regime)
    → (rule_slab_tax income (rule_slabs rule_2025 regime)).0
      ≡ slab_tax_amount income (slabs_of regime)
unfolding rule_slab_tax
engines-agree income new =
    rule_loop-eq-marginal (slabs_of new) income 0 0 [] (slabs-Rising new)
    ∙ zero-add _
    ∙ sym (slab_tax-eq-marginal income new)
engines-agree income old =
    rule_loop-eq-marginal (slabs_of old) income 0 0 [] (slabs-Rising old)
    ∙ zero-add _
    ∙ sym (slab_tax-eq-marginal income old)

round_payable-near :
    (p u : ℕ) → 0 < u → (2 * round_payable p u ≤ 2 * p + u) × (2 * p < 2 * round_payable p u + u)
unfolding round_payable
round_payable-near p u h =
    omega (arith, div-mul-le_self (p + u / 2) u, lt-div-mul-add {a = p + u / 2} h)

round_payable-multiple : (p u : ℕ) → (k : ℕ) × (round_payable p u ≡ k * u)
unfolding round_payable
round_payable-multiple p u = ((p + u / 2) / u, refl)

settled :
    (gross : ℤ) (credits : ℕ)
    → let payable = max0 (gross -ℤ pos credits) in
      let refund = max0 (pos credits -ℤ gross) in
      (gross +ℤ pos refund ≡ pos (credits + payable)) × ((payable ≡ 0) ⊎ (refund ≡ 0))
unfolding ◌+ℤ◌ ◌-ℤ◌
settled (pos n) credits = ground arith
settled (negsuc n) credits = ground arith

-- The tax of the lines, and what of the income they tax.
abbrev pub lines_tax : List Line → ℕ
lines_tax = sum_by λ l. l.tax_paise

add_line :
    (empty : Bool) (tax : ℕ) (details : List Line) (line : Line)
    → tax ≡ lines_tax details
    → (if empty then tax else tax + line.tax_paise)
      ≡ lines_tax (if empty then details else details ++ line ∷ [])
add_line true tax details line h = h
add_line false tax details line h =
    omega (arith, h, sum_by-append (λ (l : Line). l.tax_paise) details (line ∷ []))

-- The loop's tax is that of its lines, wherever it ends.
rule_loop-lines :
    (slabs : Slabs) (income lower tax : ℕ) (details : List Line)
    → tax ≡ lines_tax details
    → let r = rule_loop income slabs lower tax details in r.0 ≡ lines_tax r.1
unfolding rule_loop
rule_loop-lines [] income lower tax details h = h
rule_loop-lines ((upper, rate) ∷ slabs) income lower tax details h =
    let here = add_line (taxable_in upper income lower == 0) tax details _ h in
    elim (Bool-cases (ends_at upper income)) [
      | inl last ↦ rw last here
      | inr more ↦ rw more (rule_loop-lines slabs income (next_lower upper lower) _ _ here)
    ]

-- How the tax of the slabs stands in an assessment, how it is settled, and how it is rounded.
abbrev pub IsSettled : Rule → Return → Assessment → Type 0
IsSettled rule r a =
    (a.slab_tax ≡ lines_tax a.slab_details)
    × (a.gross_tax +ℤ pos a.refund ≡ pos (r.tax_credits + a.payable))
    × ((a.payable ≡ 0) ⊎ (a.refund ≡ 0))
    × ((k : ℕ) × (a.rounded_payable ≡ k * rule.round_to))
    × (2 * a.rounded_payable ≤ 2 * a.payable + rule.round_to)
    × (2 * a.payable < 2 * a.rounded_payable + rule.round_to)

assess-IsSettled : (rule : Rule) (r : Return) → 0 < rule.round_to → IsSettled rule r (assess rule r)
unfolding rule_slab_tax
assess-IsSettled rule r unit =
    let s = settled (assess rule r).gross_tax r.tax_credits in
    let near = round_payable-near (assess rule r).payable rule.round_to unit in
    let lines =
      rule_loop-lines (rule_slabs rule r.regime) (assess rule r).normal_taxable 0 0 [] refl in
    (lines, s.0, s.1, round_payable-multiple (assess rule r).payable rule.round_to, near.0, near.1)

-- Under a rule that is accepted and rounds to a unit of at least one paisa: the slab tax is the sum of the
-- taxes of its lines; what is payable less what is refunded is the gross tax less the credits, and
-- not both are due; the rounded payable amount is a multiple of the unit, and the nearest to the
-- payable one, of two the larger.
pub calculate-IsSettled :
    (rule : Rule) (r : Return) (a : Assessment)
    → calculate rule r ≡ some a
    → 0 < rule.round_to
    → IsSettled rule r a
unfolding calculate
calculate-IsSettled rule r a h unit = elim (Bool-cases (validate_rule rule)) [
  | inl good ↦
      let e : some (assess rule r) ≡ some a = rw good at h in
      let e' : assess rule r ≡ a = cc in subst (IsSettled rule r) e' (assess-IsSettled rule r unit)
  | inr bad ↦ let e : none ≡ some a = rw bad at h in cc
]
