-- ===== src/Tds/Laws.antt =====
-- Theorems on firmos-backend/engines/tds.py.
use firmos.Base.{
  ℕ, ◌+◌, ◌*◌, ◌/◌, ◌^◌, ◌≤◌, ◌<◌, ◌≡◌, ◌↔◌, refl, Bool, true, false, if◌then◌else◌, ltb, Option,
  none, some, arith,
}
use mathlib.Core.Option
use firmos.Base.Float.{Float, lt_float}
use firmos.Base.Float.Scale.{percent-exact}
use firmos.Tds.{
  Section, s194a, s194c, s194c_company, s194h, s194i_land, s194i_plant, s194j_tech, s194j_prof,
  unknown, whole, deduct, gross_of, tds_amount, is_194q, s194q, tds_rate, tds_threshold,
  effective_rate, Tds, beyond, finish, of_section, calculate_tds, deducted,
}

abbrev pub is_deducted : Tds → Bool
is_deducted (deducted gross taxable rate amount) = true
is_deducted _ = false

abbrev pub taxable_of : Tds → ℕ
taxable_of (deducted gross taxable rate amount) = taxable
taxable_of _ = 0

-- The end of the function outside section 194Q.
finish-threshold :
    (section : Section) (gross : ℕ) (rate : Float)
    → is_194q section ≡ false
    → ((is_deducted (finish section gross gross rate) ≡ true) ↔ (tds_threshold section < gross))
      × (taxable_of (finish section gross gross rate)
          ≡ (if ltb (tds_threshold section) gross then gross else 0))
unfolding finish
finish-threshold section gross rate other = ((ground arith, ground arith), ground arith)

of_section-finish :
    (section : Section) (gross : ℕ) (rate : Float) (prior : ℕ) (turnover : Option ℕ)
    → is_194q section ≡ false
    → of_section section gross rate prior turnover ≡ finish section gross gross rate
unfolding of_section
of_section-finish s194q gross rate prior turnover other = cc
of_section-finish _ gross rate prior turnover other = refl

map-eq_some :
    (f : Float → Tds) (o : Option Float) {t : Tds}
    → Option.map f o ≡ some t
    → (a : Float) × (t ≡ f a)
map-eq_some f none h = cc
map-eq_some f (some a) h = (a, cc)

-- A known section has a rate, on which the result is computed.
calculate_tds-of_section :
    (section : Section) (gross : ℕ) (pan : Bool) (prior : ℕ) (turnover : Option ℕ) (t : Tds)
    → calculate_tds section gross pan prior turnover ≡ some t
    → (rate : Float) × (t ≡ of_section section gross rate prior turnover)
unfolding calculate_tds
calculate_tds-of_section section gross pan prior turnover t h =
    let (rate, e) =
      map-eq_some (λ r. of_section section gross (effective_rate section r pan) prior turnover)
        (tds_rate section) h in
    (effective_rate section rate pan, e)

-- The percentage of a section outside 194Q with a PAN, and without one: at least 20, by section 206AA.
abbrev pub percentage : Section → ℕ
percentage s194a = 10
percentage s194c = 1
percentage s194c_company = 2
percentage s194h = 5
percentage s194i_land = 10
percentage s194i_plant = 2
percentage s194j_tech = 2
percentage s194j_prof = 10
percentage _ = 0

abbrev pub due_percentage : Section → (pan : Bool) → ℕ
due_percentage section true = percentage section
due_percentage section false = 20

-- Where calculate_tds returns outside section 194Q, its rate is that percentage.
rate_of_section :
    (section : Section) (gross : ℕ) (pan : Bool) (prior : ℕ) (turnover : Option ℕ) (t : Tds)
    → is_194q section ≡ false
    → calculate_tds section gross pan prior turnover ≡ some t
    → t ≡ finish section gross gross (whole (due_percentage section pan))
unfolding calculate_tds tds_rate effective_rate of_section lt_float
rate_of_section unknown gross pan prior turnover t ne h = cc
rate_of_section s194q gross pan prior turnover t ne h = cc
rate_of_section _ gross true prior turnover t ne h = cc
rate_of_section _ gross false prior turnover t ne h = cc

percentage_le : (section : Section) (pan : Bool) → due_percentage section pan ≤ 100
percentage_le section pan = ground arith

-- The amount that is deducted, in float arithmetic, against the integer quotient.
finish-amount :
    (section : Section) (gross rate : ℕ)
    → is_194q section ≡ false
    → gross < 10 ^ 13
    → rate ≤ 100
    → let t = finish section gross gross (whole rate) in
      (gross_of t ≡ gross)
      × (tds_amount t ≡ (if ltb (tds_threshold section) gross then gross * rate / 100 else 0))
unfolding finish deduct
finish-amount section gross rate ne small le =
    (ground arith, ground (arith, percent-exact gross rate small le))

-- Outside section 194Q, for an amount below 10 ^ 13 paise: what is deducted is the section's percentage
-- of the whole amount (20 percent without a PAN), rounded down to a paisa, if the amount is above
-- the section's threshold, and nothing otherwise. Section 192 has the percentage 0.
pub calculate_tds-threshold :
    (section : Section) (gross : ℕ) (pan : Bool) (prior : ℕ) (turnover : Option ℕ) (t : Tds)
    → is_194q section ≡ false
    → gross < 10 ^ 13
    → calculate_tds section gross pan prior turnover ≡ some t
    → (gross_of t ≡ gross)
      × (tds_amount t ≡ (
          if ltb (tds_threshold section) gross
          then gross * due_percentage section pan / 100
          else 0))
calculate_tds-threshold section gross pan prior turnover t ne small h =
    rw (rate_of_section section gross pan prior turnover t ne h) (
      finish-amount section gross (due_percentage section pan) ne small (percentage_le section pan))

-- Splitting a purchase in two does not change what section 194Q taxes of it.
pub beyond-split :
    (threshold prior a b : ℕ)
    → beyond threshold prior (a + b) ≡ beyond threshold prior a + beyond threshold (prior + a) b
unfolding beyond
beyond-split threshold prior a b = omega arith

of_section-194q :
    (gross prior turnover : ℕ) (rate : Float)
    → 10000000000 < turnover
    → let t = of_section s194q gross rate prior (some turnover) in
      ((is_deducted t ≡ true) ↔ ((500000000 < prior + gross) × (0 < gross)))
      × (taxable_of t ≡ beyond 500000000 prior gross)
unfolding of_section
of_section-194q gross prior turnover rate big = ((ground arith, ground arith), ground arith)

-- Under section 194Q, with a buyer whose turnover passed Rs. 10 crore, the taxable amount is what of
-- the purchase lies beyond Rs. 50 lakh in the year; tax is deducted exactly if that is not nothing.
pub calculate_tds-194q :
    (gross prior turnover : ℕ) (pan : Bool) (t : Tds)
    → 10000000000 < turnover
    → calculate_tds s194q gross pan prior (some turnover) ≡ some t
    → ((is_deducted t ≡ true) ↔ ((500000000 < prior + gross) × (0 < gross)))
      × (taxable_of t ≡ beyond 500000000 prior gross)
calculate_tds-194q gross prior turnover pan t big h =
    let (rate, e) = calculate_tds-of_section s194q gross pan prior (some turnover) t h in
    rw e (of_section-194q gross prior turnover rate big)
