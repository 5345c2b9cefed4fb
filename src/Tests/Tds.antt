-- ===== src/Tests/Tds.antt =====
-- The theorems on firmos-backend/engines/tds.py at concrete payments.
use firmos.Base.{◌*◌, ◌/◌, ◌≡◌, arith, refl, true, false, some, none, if◌then◌else◌, ltb}
use firmos.Base.Float.{lt_float, trunc, div, mul, of_int}
use firmos.Tds.{
  Tds, deducted, gross_of, tds_amount, s194h, s194q, whole, tenth, beyond, tds_threshold, tds_rate,
  effective_rate, of_section, finish, deduct, calculate_tds,
}
use firmos.Tds.Laws.{calculate_tds-threshold}

abbrev commission : Tds
commission = deducted 2000000 2000000 (whole 20) 400000

commission_run : calculate_tds s194h 2000000 false 0 none ≡ some commission
unfolding calculate_tds tds_rate effective_rate of_section finish tds_threshold deduct lt_float
    trunc div mul of_int
commission_run = refl

abbrev purchase : Tds
purchase = deducted 30000000 20000000 tenth 20000

purchase_run : calculate_tds s194q 30000000 true 490000000 (some 10000000001) ≡ some purchase
unfolding calculate_tds tds_rate effective_rate of_section finish tds_threshold deduct beyond trunc
    div mul of_int
purchase_run = refl

calculate_tds-threshold_example :
    (gross_of commission ≡ 2000000)
    × (tds_amount commission
        ≡ (if ltb (tds_threshold s194h) 2000000 then 2000000 * 20 / 100 else 0))
calculate_tds-threshold_example =
    calculate_tds-threshold s194h 2000000 false 0 none commission refl (omega arith) commission_run
