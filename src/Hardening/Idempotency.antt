-- ===== src/Hardening/Idempotency.antt =====
-- firmos-backend/core/hardening.py: the idempotency keys. A key that is only compared is a number; the 32
-- digits of a SHA-256 are a parameter, and so is the answer of audit_log to a key.
pub mod Laws
use firmos.Base.{ℕ, Bool, true, false, Option, none, some, List, [], ◌∷◌, ◌++◌, if◌then◌else◌}
use firmos.Base.Lists.{member}
use firmos.Base.Text.{Text, codes}

-- `':'.join(args)`
abbrev pub joined : List Text → Text
joined [] = []
joined (a ∷ []) = a
joined (a ∷ b ∷ args) = a ++ (codes ":" ++ joined (b ∷ args))

unfoldable pub generate_idempotency_key : (Text → Text) → Text → Text → List Text → Text
generate_idempotency_key digest firm_id action args =
    digest (firm_id ++ (codes ":" ++ (action ++ (codes ":" ++ joined args))))

-- A pool with the keys of its audit_log at the time of the query, or none.
abbrev pub Pool : Type 0
Pool = Option (ℕ → Bool)

abbrev pub logged : Pool → ℕ → Bool
logged none key = false
logged (some audit_log) key = audit_log key

-- Whether the key is a duplicate, and _used_keys afterwards.
unfoldable pub check_idempotency_db : Pool → ℕ → List ℕ → Bool × List ℕ
check_idempotency_db pool key used =
    if member key used
    then (true, used)
    else if logged pool key
    then (true, key ∷ used)
    else (false, key ∷ used)
