-- ===== src/Tds.antt =====
-- firmos-backend/engines/tds.py: tax deducted at source. Amounts are paise. The rates are floats; the
-- amount deducted is `int(taxable * rate / 100)` in float arithmetic.
pub mod Laws
use firmos.Base.{
  ℕ, ◌+◌, ◌-◌, ◌*◌, ◌≡◌, refl, Bool, true, false, ◌&&◌, ◌||◌, not, Option, none, some,
  if◌then◌else◌, ltb, leb,
}
use mathlib.Core.Option
use firmos.Base.Float.{Float, of_int, mul, div, trunc, lt_float}

-- The keys of TDS_RATES; any other text is an unknown section.
pub data Section : Type 0 where
  s194a s194c s194c_company s194h s194i_land s194i_plant s194j_tech s194j_prof s194q s192 : Section
  unknown : Section

-- A float that is a small integer, and the float nearest to 0.1.
abbrev pub whole : ℕ → Float
whole n = record { mant = n; shift = 0 }

abbrev pub tenth : Float
tenth = record { mant = 3602879701896397; shift = 55 }

-- TDS_RATES; `none` is a missing key.
unfoldable pub tds_rate : Section → Option Float
tds_rate s194a = some (whole 10)
tds_rate s194c = some (whole 1)
tds_rate s194c_company = some (whole 2)
tds_rate s194h = some (whole 5)
tds_rate s194i_land = some (whole 10)
tds_rate s194i_plant = some (whole 2)
tds_rate s194j_tech = some (whole 2)
tds_rate s194j_prof = some (whole 10)
tds_rate s194q = some tenth
tds_rate s192 = some (whole 0)
tds_rate unknown = none

-- TDS_THRESHOLDS, 0 where the key is missing.
unfoldable pub tds_threshold : Section → ℕ
tds_threshold s194a = 4000000
tds_threshold s194c = 3000000
tds_threshold s194h = 1500000
tds_threshold s194i_land = 24000000
tds_threshold s194i_plant = 24000000
tds_threshold s194j_tech = 3000000
tds_threshold s194j_prof = 3000000
tds_threshold s194q = 500000000
tds_threshold _ = 0

abbrev pub is_194q : Section → Bool
is_194q s194q = true
is_194q _ = false

-- `max(rate, floor)` on floats.
abbrev pub max_float : Float → Float → Float
max_float a b = if lt_float a b then b else a

-- Section 206AA: the higher rate if no PAN is available.
unfoldable pub effective_rate : Section → Float → Bool → Float
effective_rate section rate true = rate
effective_rate section rate false = max_float rate (if is_194q section then whole 5 else whole 20)

-- `int(amount * rate / 100)`
unfoldable pub deduct : ℕ → Float → ℕ
deduct amount rate = trunc (div (mul (of_int amount) rate) (whole 100))

-- What calculate_tds returns: the deduction with its taxable amount, or why nothing is deducted.
pub data Tds : Type 0 where
  needs_context : (gross : ℕ) → Tds
  turnover_not_exceeded : (gross : ℕ) → Tds
  below_threshold : (gross threshold : ℕ) → Tds
  deducted : (gross taxable : ℕ) (rate : Float) (amount : ℕ) → Tds

-- The keys "gross_amount" and "tds_amount"; the deduction is 0 in the first three results.
abbrev pub gross_of : Tds → ℕ
gross_of (needs_context gross) = gross
gross_of (turnover_not_exceeded gross) = gross
gross_of (below_threshold gross threshold) = gross
gross_of (deducted gross taxable rate amount) = gross

abbrev pub tds_amount : Tds → ℕ
tds_amount (deducted gross taxable rate amount) = amount
tds_amount _ = 0

-- The part of a purchase that takes the year's purchases beyond the threshold.
unfoldable pub beyond : ℕ → ℕ → ℕ → ℕ
beyond threshold prior gross = prior + gross - threshold - (prior - threshold)

-- The end of the function, on the taxable amount; only section 194Q skips the test of the amount.
unfoldable pub finish : Section → ℕ → ℕ → Float → Tds
unfolding tds_threshold
finish section gross taxable rate =
    if leb taxable 0 || (not (is_194q section) && leb gross (tds_threshold section))
    then below_threshold gross (tds_threshold section)
    else deducted gross taxable rate (deduct taxable rate)

-- The branch on section 194Q, with the turnover of the buyer's prior year.
unfoldable pub of_section : Section → ℕ → Float → ℕ → Option ℕ → Tds
unfolding finish beyond
of_section s194q gross rate prior none = needs_context gross
of_section s194q gross rate prior (some turnover) =
    if leb turnover 10000000000
    then turnover_not_exceeded gross
    else finish s194q gross (beyond (tds_threshold s194q) prior gross) rate
of_section section gross rate prior turnover = finish section gross gross rate

-- `none` is the ValueError of an unknown section.
unfoldable pub calculate_tds : Section → ℕ → Bool → ℕ → Option ℕ → Option Tds
unfolding tds_rate effective_rate of_section
calculate_tds section gross pan prior turnover =
    Option.map (λ rate. of_section section gross (effective_rate section rate pan) prior turnover)
      (tds_rate section)
