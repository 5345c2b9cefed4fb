-- ===== src/IncomeTax/Rules/Compute.antt =====
-- firmos-backend/engines/income_tax_rules.py: the tax of the slabs, the surcharge and the computation
-- for an individual under a rule.
use firmos.Base.{
  ℕ, ◌+◌, ◌-◌, ◌*◌, ◌/◌, min, max, Bool, true, ◌&&◌, not, Option, none, some, List, [], ◌∷◌, ◌++◌,
  if◌then◌else◌, leb, ltb, ◌==◌,
}
use firmos.Base.Int.{ℤ, pos, ◌+ℤ◌, ◌-ℤ◌, max0, scale_ℤ, floor_div_ℤ}
use firmos.IncomeTax.Slabs.{Regime, new, old, Slabs}
use firmos.IncomeTax.Rules.{Rule, rule_slabs, rebate_threshold, rebate_max, validate_rule}

pub record Line : Type 0 where
  pub from_paise : ℕ
  pub to_paise : Option ℕ
  pub rate_percent : ℕ
  pub taxable_paise : ℕ
  pub tax_paise : ℕ

-- `max(0, income - lower)` and `max(0, min(income, upper) - lower)`
abbrev pub taxable_in : Option ℕ → ℕ → ℕ → ℕ
taxable_in none income lower = income - lower
taxable_in (some upper) income lower = min income upper - lower

abbrev pub ends_at : Option ℕ → ℕ → Bool
ends_at none income = true
ends_at (some upper) income = leb income upper

abbrev pub next_lower : Option ℕ → ℕ → ℕ
next_lower none lower = lower
next_lower (some upper) lower = upper

-- The loop of _slab_tax, on the lower limit and the result so far.
unfoldable pub rule_loop : ℕ → Slabs → ℕ → ℕ → List Line → ℕ × List Line
rule_loop income [] lower tax details = (tax, details)
rule_loop income ((upper, rate) ∷ slabs) lower tax details =
    let taxable = taxable_in upper income lower in
    let amount = taxable * rate / 100 in
    let lines : List Line =
      if taxable == 0
      then details
      else details
        ++ record {
          from_paise = lower;
          to_paise = upper;
          rate_percent = rate;
          taxable_paise = taxable;
          tax_paise = amount;
        }
          ∷ [] in
    let taxed : ℕ = if taxable == 0 then tax else tax + amount in
    let rest = rule_loop income slabs (next_lower upper lower) taxed lines in
    if ends_at upper income then (taxed, lines) else rest

unfoldable pub rule_slab_tax : ℕ → Slabs → ℕ × List Line
unfolding rule_loop
rule_slab_tax income slabs = rule_loop income slabs 0 0 []

-- The loop that finds the rate and the threshold, from (0, 0).
unfoldable pub surcharge_step : ℕ → List (ℕ × ℕ) → ℕ × ℕ → ℕ × ℕ
surcharge_step income [] found = found
surcharge_step income ((limit, candidate) ∷ table) found =
    surcharge_step income table (if ltb limit income then (candidate, limit) else found)

-- `max(candidate for limit, candidate in table if limit < threshold, default=0)`
unfoldable pub prior_rate : ℕ → List (ℕ × ℕ) → ℕ
prior_rate threshold [] = 0
prior_rate threshold ((limit, candidate) ∷ table) =
    let rest = prior_rate threshold table in
    if ltb limit threshold then max candidate rest else rest

abbrev pub capped : Rule → Regime → ℕ → ℕ
capped rule new rate = min rate rule.new_surcharge_cap
capped rule old rate = rate

-- _surcharge: the rate, the surcharge and the relief. Where the rate is not 0 the income is above the
-- threshold.
unfoldable pub rule_surcharge : ℕ → ℕ → Rule → Regime → Slabs → ℕ × ℤ × ℕ
unfolding surcharge_step prior_rate rule_slab_tax
rule_surcharge income tax rule regime slabs =
    let (found, threshold) = surcharge_step income rule.surcharge (0, 0) in
    let rate = capped rule regime found in
    let full = tax * rate / 100 in
    let threshold_tax = (rule_slab_tax threshold slabs).0 in
    let prior = capped rule regime (prior_rate threshold rule.surcharge) in
    let permitted = threshold_tax + threshold_tax * prior / 100 + (income - threshold) in
    let relief = tax + full - permitted in
    if not (rate == 0) && not (threshold == 0)
    then (rate, pos full -ℤ pos relief, relief)
    else (rate, pos full, 0)

-- The arguments of calculate.
pub record Return : Type 0 where
  pub income : ℕ
  pub deductions : ℤ
  pub tax_credits : ℕ
  pub regime : Regime
  pub resident : Bool
  pub special_rate_income : ℕ
  pub special_rate_tax : ℕ
  pub new_regime_allowed : ℤ

abbrev pub applied : Regime → ℕ → ℤ → ℕ
applied old requested allowed = requested
applied new requested allowed = min requested (max0 allowed)

pub record Assessment : Type 0 where
  pub deductions_applied : ℕ
  pub deductions_disallowed : ℕ
  pub normal_taxable : ℕ
  pub taxable : ℕ
  pub slab_details : List Line
  pub slab_tax : ℕ
  pub rebate : ℕ
  pub surcharge_rate : ℕ
  pub surcharge_amount : ℤ
  pub marginal_relief : ℕ
  pub cess : ℤ
  pub gross_tax : ℤ
  pub payable : ℕ
  pub rounded_payable : ℕ
  pub refund : ℕ

-- `((payable + unit // 2) // unit) * unit`
unfoldable pub round_payable : ℕ → ℕ → ℕ
round_payable payable unit = (payable + unit / 2) / unit * unit

abbrev pub assess : Rule → Return → Assessment
assess rule r =
    let requested = max0 r.deductions in
    let deducted = applied r.regime requested r.new_regime_allowed in
    let normal = r.income - deducted in
    let total = normal + r.special_rate_income in
    let slabs = rule_slabs rule r.regime in
    let (slab, details) = rule_slab_tax normal slabs in
    let rebate : ℕ =
      if r.resident && leb total (rebate_threshold rule r.regime)
      then min slab (rebate_max rule r.regime)
      else 0 in
    let tax = slab - rebate + r.special_rate_tax in
    let (rate, surcharge, relief) = rule_surcharge total tax rule r.regime slabs in
    let cess = floor_div_ℤ (scale_ℤ (pos tax +ℤ surcharge) rule.cess_percent) 100 in
    let gross = pos tax +ℤ surcharge +ℤ cess in
    let payable = max0 (gross -ℤ pos r.tax_credits) in
    record {
      deductions_applied = deducted;
      deductions_disallowed = requested - deducted;
      normal_taxable = normal;
      taxable = total;
      slab_details = details;
      slab_tax = slab;
      rebate = rebate;
      surcharge_rate = rate;
      surcharge_amount = surcharge;
      marginal_relief = relief;
      cess = cess;
      gross_tax = gross;
      payable = payable;
      rounded_payable = round_payable payable rule.round_to;
      refund = max0 (pos r.tax_credits -ℤ gross);
    }

-- `none` is the ValueError of a rule that validate_rule refuses.
unfoldable pub calculate : Rule → Return → Option Assessment
unfolding validate_rule rule_slab_tax rule_surcharge round_payable
calculate rule r = if validate_rule rule then some (assess rule r) else none
