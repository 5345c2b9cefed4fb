-- ===== src/Tests/Hardening.antt =====
-- Flags, retries and the rate limit at concrete inputs, and a blocked run of the worker.
use firmos.Base.{
  ℕ, zero, suc, ◌+◌, ◌≤◌, ◌≡◌, ◌↔◌, refl, true, false, some, none, List, [], ◌∷◌, arith,
}
use firmos.Actions.Store.{Provider}
use firmos.Actions.Worker.{execute_raises, verify_raises}
use firmos.Actions.Worker.Run.{run_finance_action}
use firmos.Actions.Worker.Run.Blocked.{blocked_by, answering, run_finance_action-blocked}
use firmos.Hardening.Flags.{
  Settings, Scope, Override, scoped_write_block_reason, table, provider_enabled, uninstalled,
}
use firmos.Hardening.Flags.Laws.{Clear, scoped_write_block_reason-none}
use firmos.Hardening.Retry.{Outcome, returns, raises, retry, dead_letter}
use firmos.Hardening.Retry.Laws.{retry-exhausted}
use firmos.Base.Lists.{All}
use firmos.Hardening.RateLimit.{
  Buckets, Overlaps, starts, passing, sleeping, waking, put, wake, arrive,
}
use firmos.Hardening.RateLimit.Laws.{count_in}
use firmos.Hardening.RateLimit.Slept.{After, Overlaps-limited}
use firmos.Tests.Actions.{desk, first_job, healthy}

run_finance_action-blocked_example :
    run_finance_action 9 (blocked_by 4 healthy) first_job desk
    ≡ run_finance_action 9
        (answering execute_raises verify_raises (blocked_by 4 healthy))
        first_job
        desk
run_finance_action-blocked_example =
    run_finance_action-blocked 9 healthy first_job desk 4 execute_raises verify_raises

abbrev switched_on : Settings
switched_on = record {
  provider_writes_enabled = true;
  zoho_writes_enabled = true;
  tally_writes_enabled = false;
}

abbrev scope : Scope
scope = record {
  provider = Provider.zoho_books;
  firm_id = 10;
  client_id = 3;
  installation_id = 0;
  capability_key = 8;
}

abbrev off_for_another : Override
off_for_another = record {
  provider = none;
  firm_id = some 11;
  client_id = none;
  installation_id = none;
  capability_key = none;
  is_enabled = some false;
  enabled = none;
}

scoped_write_block_reason-none_example :
    (scoped_write_block_reason switched_on scope (table (off_for_another ∷ [])) ≡ none) ↔ (
      (switched_on.provider_writes_enabled ≡ true)
      × (provider_enabled switched_on scope.provider ≡ true)
      × Clear (uninstalled scope) (table (off_for_another ∷ [])))
scoped_write_block_reason-none_example =
    scoped_write_block_reason-none switched_on scope (table (off_for_another ∷ []))
      ((λ e. ground arith), tt)

-- A call that fails twice.
abbrev third_time : ℕ → Outcome ℕ
third_time zero = raises 40
third_time (suc zero) = raises 41
third_time (suc (suc n)) = returns 7

retry-exhausted_example :
    ((retry false false 1 [] third_time).ending ≡ dead_letter (some 41))
    × ((retry false false 1 [] third_time).calls ≡ 1 + 1)
retry-exhausted_example = retry-exhausted false false 1 [] third_time 41 refl ((40, refl), tt) refl

-- One call for key 5 at time 100.
abbrev first_bucket : Buckets
first_bucket = put 5 (100 ∷ []) (λ k. [])

abbrev first_log : ℕ → List ℕ
first_log = put 5 (100 ∷ []) (λ k. [])

-- Two more that arrive at 110 and 120 and both wake at 160: three entries in one window, two of them
-- of calls that had slept.
abbrev both_asleep : List (ℕ × ℕ)
both_asleep = (5, 160) ∷ (5, 160) ∷ []

abbrev waiting : Buckets
waiting = put 5 (100 ∷ []) (put 5 (100 ∷ []) first_bucket)

waiting_run : Overlaps 60 1 waiting both_asleep first_log (λ k. []) 120
unfolding arrive
waiting_run =
    sleeping
      (sleeping (passing starts 5 100 100 (ground arith) (ground arith) refl) 5 110 110 50
        (ground arith) refl)
      5 120 120 40 (ground arith) refl

abbrev all_log : ℕ → List ℕ
all_log = put 5 (100 ∷ 160 ∷ 160 ∷ []) (put 5 (100 ∷ 160 ∷ []) first_log)

abbrev all_woken : ℕ → List ℕ
all_woken = put 5 (160 ∷ 160 ∷ []) (put 5 (160 ∷ []) (λ k. []))

overlapping_run : Overlaps 60 1 (wake 5 160 (wake 5 160 waiting)) [] all_log all_woken 160
overlapping_run =
    waking [] [] 5 160 160
      (waking [] ((5, 160) ∷ []) 5 160 160 waiting_run (ground arith) (ground arith)) (ground arith)
      (ground arith)

Overlaps-limited_example :
    ((t : ℕ) → count_in 60 t (all_log 5) ≤ 1 + count_in 60 t (all_woken 5))
    × All (After 60 (all_log 5)) (all_woken 5)
Overlaps-limited_example =
    Overlaps-limited 60 1 160 (wake 5 160 (wake 5 160 waiting)) [] all_log all_woken 5
      overlapping_run
