-- ===== src/Actions/Status.antt =====
-- The status of a finance action and the transitions that the database lets pass:
-- enforce_finance_action_transition in supabase/migrations/20260714000005_trust_spine.sql.
use firmos.Base.{ℕ, ◌≡◌, ◌≢◌, Bool, true, false, List, [], ◌∷◌, ◌==◌, arith}
use firmos.Base.Lists.{any}

pub data Status : Type 0 where
  draft validated awaiting_approval approved queued claimed executing provider_accepted : Status
  verifying succeeded needs_input needs_review retry_scheduled auth_expired failed : Status
  dead_letter cancelled : Status

-- The texts are compared; each stands for a number here.
abbrev pub rank : Status → ℕ
rank draft = 0
rank validated = 1
rank awaiting_approval = 2
rank approved = 3
rank queued = 4
rank claimed = 5
rank executing = 6
rank provider_accepted = 7
rank verifying = 8
rank succeeded = 9
rank needs_input = 10
rank needs_review = 11
rank retry_scheduled = 12
rank auth_expired = 13
rank failed = 14
rank dead_letter = 15
rank cancelled = 16

unfoldable pub same_status : Status → Status → Bool
same_status a b = rank a == rank b

-- `a IN (...)`
abbrev pub status_in : Status → List Status → Bool
status_in a = any (same_status a)

-- The CASE of the trigger: where a status may go.
unfoldable pub targets : Status → List Status
targets draft = validated ∷ cancelled ∷ needs_input ∷ []
targets validated = awaiting_approval ∷ needs_input ∷ cancelled ∷ []
targets awaiting_approval = approved ∷ cancelled ∷ []
targets approved = queued ∷ cancelled ∷ []
targets queued = claimed ∷ cancelled ∷ []
targets claimed = executing ∷ retry_scheduled ∷ failed ∷ []
targets executing = provider_accepted ∷ retry_scheduled ∷ auth_expired ∷ failed ∷ needs_review ∷ []
targets provider_accepted = verifying ∷ needs_review ∷ []
targets verifying = succeeded ∷ needs_review ∷ retry_scheduled ∷ failed ∷ []
targets retry_scheduled = queued ∷ dead_letter ∷ cancelled ∷ []
targets needs_input = validated ∷ cancelled ∷ []
targets needs_review = queued ∷ failed ∷ cancelled ∷ []
targets auth_expired = queued ∷ cancelled ∷ []
targets failed = queued ∷ dead_letter ∷ cancelled ∷ []
targets _ = []

unfoldable pub allowed : Status → Status → Bool
unfolding targets same_status
allowed old new = status_in new (targets old)

-- The statuses that an action reaches through an approval alone.
abbrev pub is_gated : Status → Bool
is_gated draft = false
is_gated validated = false
is_gated awaiting_approval = false
is_gated needs_input = false
is_gated cancelled = false
is_gated _ = true

-- The table has one gate: a gated status is entered from a gated one, or as `approved`.
pub allowed-gated :
    (old new : Status)
    → allowed old new ≡ true
    → is_gated new ≡ true
    → new ≢ approved
    → is_gated old ≡ true
unfolding allowed
allowed-gated draft new h g ne = ground arith
allowed-gated _ new h g ne = ground arith
