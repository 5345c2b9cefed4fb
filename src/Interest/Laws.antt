-- ===== src/Interest/Laws.antt =====
-- Theorems on firmos-backend/engines/interest.py.
use native.Mathlib.Nat.{mul-le-mul_right}
use firmos.Base.{
  ℕ, ◌+◌, ◌-◌, ◌*◌, ◌/◌, ◌≤◌, ◌<◌, ◌≡◌, ◌↔◌, ◌⊎◌, none, some, List, [], ◌∷◌, false, arith, Option,
}
use firmos.Base.Int.{pos}
use firmos.Interest.{
  Date, before, rule_119a_base, months_234b, ay_start, not_applicable, calculate_234b_interest,
  Label, june, september, december, march, june_15, september_45, december_75, march_100, paid_for,
  Instalment, Detail, charge, add_line, charge_all, calculate_234c_interest,
}

-- The lines' interest.
abbrev pub sum_interest : List Detail → ℕ
sum_interest [] = 0
sum_interest (d ∷ ds) = d.interest + sum_interest ds

-- The base of Rule 119A is the whole hundreds of rupees of the amount: it is at most the amount, less
-- than Rs. 100 below it, and a multiple of Rs. 100; a negative amount has the base 0.
pub rule_119a_base-bounds :
    (n : ℕ)
    → (rule_119a_base (pos n) ≤ n)
      × (n < rule_119a_base (pos n) + 10000)
      × (rule_119a_base (pos n) ≡ rule_119a_base (pos n) / 10000 * 10000)
unfolding rule_119a_base
rule_119a_base-bounds n = omega arith

-- Section 234B does not apply exactly if at least 90 percent of the tax, rounded down, was paid in
-- advance.
pub calculate_234b-applies :
    (tax paid : ℕ) (year_end filing : Date)
    → (calculate_234b_interest tax paid year_end filing ≡ not_applicable) ↔ (tax * 90 / 100 ≤ paid)
unfolding calculate_234b_interest
calculate_234b-applies tax paid year_end filing = (ground arith, ground arith)

abbrev pub IsDate : Date → Type 0
IsDate d = (1 ≤ d.month) × (d.month ≤ 12) × (1 ≤ d.day)

started :
    (year_end filing : Date)
    → before filing (ay_start year_end) ≡ false
    → (year_end.year - 1 < filing.year) ⊎ ((year_end.year - 1 ≡ filing.year) × (4 ≤ filing.month))
unfolding before ay_start
started year_end filing h = ground arith

-- From the start of the assessment year on, the months of section 234B are the difference of the
-- calendar months or one more, and at least one; before the start they are zero.
pub months_234b-counts :
    (year_end filing : Date)
    → IsDate filing
    → before filing (ay_start year_end) ≡ false
    → let months = months_234b year_end filing in
      let start = ay_start year_end in
      (1 ≤ months)
      × (12 * filing.year + filing.month ≤ 12 * start.year + start.month + months)
      × (12 * start.year + start.month + months ≤ 12 * filing.year + filing.month + 1)
unfolding months_234b ay_start
months_234b-counts year_end filing d h = ground (arith, started year_end filing h)

-- One line charges at most its months in percent of the instalment due.
interest-bound :
    (due months tax cumulative : ℕ)
    → 10000 * (rule_119a_base (pos (tax * due / 100 - cumulative)) * 1 / 100 * months)
      ≤ tax * due * months
interest-bound due months tax cumulative =
    let base = rule_119a_base (pos (tax * due / 100 - cumulative)) in
    let low : 10000 * (base * 1 / 100) ≤ tax * due =
      omega (arith, rule_119a_base-bounds (tax * due / 100 - cumulative)) in
    omega (arith, mul-le-mul_right months low)

abbrev line_interest : Option Detail → ℕ
line_interest none = 0
line_interest (some d) = d.interest

charge-bound :
    (tax cumulative : ℕ) (i : Instalment)
    → 10000 * line_interest (charge tax i cumulative) ≤ tax * i.due_pct * i.penalty_months
unfolding charge
charge-bound tax cumulative i =
    ground (arith, interest-bound i.due_pct i.penalty_months tax cumulative)

add_line-total :
    (o : Option Detail) (r : ℕ × List Detail) → (add_line o r).0 ≡ r.0 + line_interest o
add_line-total none r = omega arith
add_line-total (some d) r = omega arith

-- Whatever was paid and however it was labelled, the interest of section 234C is at most 5.05 percent
-- of the tax: three months on 15, 45 and 75 percent, and one month on all of it.
pub calculate_234c-bound :
    (tax : ℕ) (paid : List (Label × ℕ))
    → 10000 * (calculate_234c_interest tax paid).total_interest ≤ 505 * tax
unfolding calculate_234c_interest charge_all
calculate_234c-bound tax paid =
    let c1 = 0 + paid_for june paid in
    let c2 = c1 + paid_for september paid in
    let c3 = c2 + paid_for december paid in
    let c4 = c3 + paid_for march paid in
    simp add_line-total (
      omega (
        arith,
        charge-bound tax c1 june_15,
        charge-bound tax c2 september_45,
        charge-bound tax c3 december_75,
        charge-bound tax c4 march_100,
      ))

-- A line is charged only below its threshold.
charge-none :
    (tax cumulative : ℕ) (i : Instalment)
    → tax * i.interest_pct / 100 ≤ cumulative
    → charge tax i cumulative ≡ none
unfolding charge
charge-none tax cumulative i h = ground arith

-- No interest is charged under section 234C where at each date the payments so far reach the safe
-- percentages of the tax, 12, 36, 75 and 100.
pub calculate_234c-safe :
    (tax : ℕ) (paid : List (Label × ℕ))
    → tax * 12 / 100 ≤ paid_for june paid
    → tax * 36 / 100 ≤ paid_for june paid + paid_for september paid
    → tax * 75 / 100 ≤ paid_for june paid + paid_for september paid + paid_for december paid
    → tax
      ≤ paid_for june paid + paid_for september paid + paid_for december paid + paid_for march paid
    → calculate_234c_interest tax paid
      ≡ record { applies = false; total_interest = 0; details = [] }
unfolding calculate_234c_interest charge_all
calculate_234c-safe tax paid s1 s2 s3 s4 =
    let c1 = 0 + paid_for june paid in
    let c2 = c1 + paid_for september paid in
    let c3 = c2 + paid_for december paid in
    let c4 = c3 + paid_for march paid in
    rw (
      charge-none tax c1 june_15 (omega arith),
      charge-none tax c2 september_45 (omega arith),
      charge-none tax c3 december_75 (omega arith),
      charge-none tax c4 march_100 (omega arith),
    )
