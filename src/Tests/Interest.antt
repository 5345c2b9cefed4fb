-- ===== src/Tests/Interest.antt =====
-- The theorems on firmos-backend/engines/interest.py at concrete amounts and dates.
use firmos.Base.{ℕ, ◌*◌, ◌≤◌, List, [], ◌∷◌}
use firmos.Interest.{Date, Label, june, september, december, march, calculate_234c_interest}
use firmos.Interest.Laws.{calculate_234c-bound}

abbrev year_end : Date
year_end = record { year = 2026; month = 3; day = 31 }

abbrev late_july : Date
late_july = record { year = 2026; month = 7; day = 31 }

abbrev early : List (Label × ℕ)
early = (june, 120000) ∷ (september, 240000) ∷ (december, 400000) ∷ (march, 240000) ∷ []

calculate_234c-bound_example :
    10000 * (calculate_234c_interest 987654321 ((june, 5) ∷ [])).total_interest ≤ 505 * 987654321
calculate_234c-bound_example = calculate_234c-bound 987654321 ((june, 5) ∷ [])
