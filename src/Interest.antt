-- ===== src/Interest.antt =====
-- firmos-backend/engines/interest.py: interest under sections 234B and 234C. Amounts are paise; tax
-- and payments are natural numbers. A date is a year, a month and a day. The rate constant 1.0 enters
-- the arithmetic as `int(1.0)`, that is 1.
pub mod Laws
use firmos.Base.{
  ℕ, ◌+◌, ◌-◌, ◌*◌, ◌/◌, Bool, true, false, ◌&&◌, ◌||◌, Option, none, some, List, [], ◌∷◌, ◌++◌,
  if◌then◌else◌, ltb, leb, ◌==◌,
}
use firmos.Base.Int.{ℤ, max0}

pub record Date : Type 0 where
  pub year : ℕ
  pub month : ℕ
  pub day : ℕ

-- `a < b` on dates.
unfoldable pub before : Date → Date → Bool
before a b =
    ltb a.year b.year
    || (a.year == b.year && (ltb a.month b.month || (a.month == b.month && ltb a.day b.day)))

-- Rule 119A: whole hundreds of rupees, of an amount that may be negative.
unfoldable pub rule_119a_base : ℤ → ℕ
rule_119a_base amount = max0 amount / 10000 * 10000

-- 1 April before the end of the assessment year.
unfoldable pub ay_start : Date → Date
ay_start year_end = record { year = year_end.year - 1; month = 4; day = 1 }

-- The months of section 234B. A filing from the start on has a year and month not before the start's, so
-- the difference of the months is a number.
unfoldable pub months_234b : Date → Date → ℕ
unfolding before ay_start
months_234b year_end filing =
    let start = ay_start year_end in
    let whole = (filing.year - start.year) * 12 + filing.month - start.month in
    let part : ℕ = if ltb 1 filing.day then whole + 1 else whole in
    if before filing start then 0 else if leb part 1 then 1 else part

pub data Interest234b : Type 0 where
  not_applicable : Interest234b
  applicable : (shortfall : ℕ) (interest_base : ℕ) (months : ℕ) (interest : ℕ) → Interest234b

-- The keys "interest" of both dictionaries.
abbrev pub interest_of : Interest234b → ℕ
interest_of not_applicable = 0
interest_of (applicable shortfall base months interest) = interest

unfoldable pub calculate_234b_interest : ℕ → ℕ → Date → Date → Interest234b
unfolding rule_119a_base months_234b
calculate_234b_interest total_tax advance_paid year_end filing =
    let threshold = total_tax * 90 / 100 in
    let shortfall = total_tax - advance_paid in
    let months = months_234b year_end filing in
    let interest_base = rule_119a_base (ℤ.pos shortfall) in
    if leb threshold advance_paid
    then not_applicable
    else applicable shortfall interest_base months (interest_base * 1 / 100 * months)

-- The four instalments: the months of penalty, the percentage due, and the percentage below which
-- interest is charged.
pub data Label : Type 0 where
  june september december march : Label

abbrev pub label_eq : Label → Label → Bool
label_eq june june = true
label_eq september september = true
label_eq december december = true
label_eq march march = true
label_eq _ _ = false

pub record Instalment : Type 0 where
  pub label : Label
  pub due_pct : ℕ
  pub interest_pct : ℕ
  pub penalty_months : ℕ

abbrev pub june_15 : Instalment
june_15 = record { label = june; due_pct = 15; interest_pct = 12; penalty_months = 3 }

abbrev pub september_45 : Instalment
september_45 = record { label = september; due_pct = 45; interest_pct = 36; penalty_months = 3 }

abbrev pub december_75 : Instalment
december_75 = record { label = december; due_pct = 75; interest_pct = 75; penalty_months = 3 }

abbrev pub march_100 : Instalment
march_100 = record { label = march; due_pct = 100; interest_pct = 100; penalty_months = 1 }

abbrev pub instalments : List Instalment
instalments = june_15 ∷ september_45 ∷ december_75 ∷ march_100 ∷ []

-- `next((i for i in paid if i["label"] == label), None)`, and its amount or 0.
unfoldable pub paid_for : Label → List (Label × ℕ) → ℕ
paid_for label [] = 0
paid_for label ((l, amount) ∷ paid) = if label_eq l label then amount else paid_for label paid

pub record Detail : Type 0 where
  pub instalment : Label
  pub required : ℕ
  pub interest_threshold : ℕ
  pub paid_cumulative : ℕ
  pub shortfall : ℕ
  pub interest_base : ℕ
  pub months : ℕ
  pub interest : ℕ

-- One round: the line for an instalment, if interest is charged on it.
unfoldable pub charge : ℕ → Instalment → ℕ → Option Detail
unfolding rule_119a_base
charge total_tax i cumulative =
    let required = total_tax * i.due_pct / 100 in
    let threshold = total_tax * i.interest_pct / 100 in
    let shortfall = required - cumulative in
    let base = rule_119a_base (ℤ.pos shortfall) in
    if ltb cumulative threshold && ltb 0 shortfall
    then some (record {
      instalment = i.label;
      required = required;
      interest_threshold = threshold;
      paid_cumulative = cumulative;
      shortfall = shortfall;
      interest_base = base;
      months = i.penalty_months;
      interest = base * 1 / 100 * i.penalty_months;
    })
    else none

abbrev pub add_line : Option Detail → ℕ × List Detail → ℕ × List Detail
add_line none (total, details) = (total, details)
add_line (some d) (total, details) = (total + d.interest, details ++ d ∷ [])

-- The loop over the instalments, on the cumulative payment and the result so far.
unfoldable pub charge_all :
    ℕ → List (Label × ℕ) → List Instalment → ℕ → ℕ × List Detail → ℕ × List Detail
unfolding charge paid_for
charge_all total_tax paid [] cumulative result = result
charge_all total_tax paid (i ∷ is) cumulative result =
    let cumulative' = cumulative + paid_for i.label paid in
    charge_all total_tax paid is cumulative' (add_line (charge total_tax i cumulative') result)

pub record Interest234c : Type 0 where
  pub applies : Bool
  pub total_interest : ℕ
  pub details : List Detail

unfoldable pub calculate_234c_interest : ℕ → List (Label × ℕ) → Interest234c
unfolding charge_all
calculate_234c_interest total_tax paid =
    let (total, details) = charge_all total_tax paid instalments 0 (0, []) in
    record { applies = ltb 0 total; total_interest = total; details = details }
