-- ===== src/Actions/Worker/Run.antt =====
-- firmos-backend/automation/worker.py: a run of the worker, from the claim of a job to its end.
pub mod Rules
pub mod Safety
pub mod Cancelled
pub mod Blocked
use firmos.Base.{
  ℕ, ◌+◌, Bool, true, false, ◌&&◌, ◌||◌, not, Option, none, some, List, [], ◌∷◌, ◌++◌,
  if◌then◌else◌, ◌==◌, ltb, leb,
}
use firmos.Base.Lists.{any, find}
use firmos.Actions.Codes.{
  ResultStatus, is_success, Code, action_not_found, readback_mismatch, implementation_unavailable,
  unexpected_failure, blocked,
}
use firmos.Actions.Status.{
  Status, queued, claimed, executing, provider_accepted, verifying, succeeded, needs_review,
  retry_scheduled, failed, same_status,
}
use firmos.Actions.Store.{Provider, Action, Kind, Job, Attempt, Verification, Store}
use firmos.Actions.Store.Monad.{
  Error, database, Result, ok, err, Db, pure, raise, gets, or_raise, ◌>>=◌, ◌>>◌, modify,
  transaction, on_error, update, update_jobs,
}
use firmos.Actions.Engine.{set_status}
use firmos.Actions.Worker.{
  Executed, execute_raises, execute_returns, Verified, verify_raises, verify_returns, Setting,
  is_action, is_job, complete_attempt, finish, result_failure, write_precondition, when,
}

abbrev pub is_tally : Provider → Bool
is_tally Provider.tally_prime = true
is_tally _ = false

abbrev pub expired : Option ℕ → ℕ → Bool
expired none now = true
expired (some at) now = ltb at now

-- The WHERE clause of the claim.
abbrev pub claimable : Store → Job → Bool
claimable s j =
    same_status j.status queued
    && (leb j.available_at s.now
        && (not (any (λ a. a.id == j.aggregate_id && is_tally a.provider) s.actions)
            && expired j.lease_expires_at s.now))

-- `ORDER BY created_at LIMIT 1`
abbrev pub older : Job → Option Job → Option Job
older j none = some j
older j (some k) = if leb j.created_at k.created_at then some j else some k

unfoldable pub oldest : (Job → Bool) → List Job → Option Job
oldest fits [] = none
oldest fits (j ∷ jobs) = let rest = oldest fits jobs in if fits j then older j rest else rest

abbrev pub is_queued_action : ℕ → Action → Bool
is_queued_action action_id a = a.id == action_id && same_status a.status queued

abbrev pub lease : ℕ → ℕ → Job → Job
lease worker now j = record j {
  status = claimed;
  lease_owner = some worker;
  lease_expires_at = some (now + 60);
  attempt_count = j.attempt_count + 1;
}

-- What claim does with the row that it has selected; the job that comes back is the row as it was
-- read, with its count raised.
unfoldable pub claim_job : ℕ → Job → Db Job
claim_job worker row = do
  now ← gets (λ s. s.now)
  update_jobs (is_job row.id) (lease worker now)
  update (is_queued_action row.aggregate_id) (set_status claimed)
  modify (λ s. record s {
    attempts =
        s.attempts
        ++ record {
          job_id = row.id;
          attempt_number = row.attempt_count + 1;
          status = claimed;
          error_code = none;
        }
          ∷ [];
  })
  pure (record row { attempt_count = row.attempt_count + 1 })

abbrev pub claim_row : ℕ → Option Job → Db (Option Job)
claim_row worker none = pure none
claim_row worker (some row) = do job ← claim_job worker row; pure (some job)

-- Worker.claim
unfoldable pub claim : ℕ → Db (Option Job)
unfolding oldest claim_job
claim worker = transaction (do row ← gets (λ s. oldest (claimable s) s.jobs); claim_row worker row)

abbrev pub same_beat : ℕ × ℕ → ℕ × ℕ → Bool
same_beat (f, w) (g, v) = f == g && w == v

-- Worker._heartbeat; the time of the beat is not kept.
pub heartbeat : ℕ → ℕ → Db (Unit {0})
heartbeat worker firm = modify (λ s. record s {
  heartbeats =
      if any (same_beat (firm, worker)) s.heartbeats
      then s.heartbeats
      else s.heartbeats ++ (firm, worker) ∷ [];
})

-- record_verification, as far as the trigger reads it: MATCHED if no mismatch is listed.
abbrev pub record_verification : ℕ → Bool → Db (Unit {0})
record_verification action_id mismatched = modify (λ s. record s {
  verifications =
      s.verifications ++ record { action_id = action_id; matched = not mismatched } ∷ [];
})

abbrev pub accept : ℕ → Action → Action
accept provider_id a = record a {
  status = provider_accepted;
  external_reference = some provider_id;
}

-- After the read-back: the last transaction of a success, or a review.
unfoldable pub conclude : Setting → Job → ℕ → Db (Unit {0})
unfolding complete_attempt
conclude e job action_id = transaction (do
  record_verification action_id false
  when (not e.projection_ok) (raise database)
  update (is_action action_id) (set_status succeeded)
  complete_attempt job succeeded none)

unfoldable pub read_back : Setting → Job → ℕ → Verified → Db (Unit {0})
read_back e job action_id verify_raises = raise database
read_back e job action_id (verify_returns status has_data mismatched) =
    if is_success status
    then conclude e job action_id
    else (when has_data (transaction (record_verification action_id mismatched))
        >> finish job needs_review readback_mismatch)

-- The body of the `try` once the connector is there.
unfoldable pub write : Setting → Job → ℕ → Executed → Db (Unit {0})
unfolding read_back
write e job action_id execute_raises = raise database
write e job action_id (execute_returns status none code) = result_failure job status code
write e job action_id (execute_returns status (some provider_id) code) =
    if is_success status
    then (do
      update (is_action action_id) (accept provider_id)
      update (is_action action_id) (set_status verifying)
      read_back e job action_id e.verified)
    else result_failure job status code

abbrev pub start : Action → Action
start a = record a { status = executing; attempt_number = a.attempt_number + 1 }

-- The `try`, with its two handlers; the first answers the registry alone.
unfoldable pub attempt : Setting → Job → ℕ → Db (Unit {0})
unfolding write
attempt e job action_id =
    if e.registered
    then on_error (write e job action_id e.executed) (finish job retry_scheduled unexpected_failure)
    else finish job failed implementation_unavailable

unfoldable pub unless_blocked : Setting → Job → ℕ → Option Code → Option ℕ → Db (Unit {0})
unless_blocked e job action_id (some code) reason = finish job failed code
unless_blocked e job action_id none (some reason) = finish job failed (blocked reason)
unless_blocked e job action_id none none =
    (update (is_action action_id) start >> attempt e job action_id)

unfoldable pub run_action : ℕ → Setting → Job → Option Action → Db (Unit {0})
unfolding heartbeat unless_blocked
run_action worker e job none = finish job failed action_not_found
run_action worker e job (some action) = do
  heartbeat worker action.firm_id
  precondition ← gets (write_precondition e action)
  unless_blocked e job action.id precondition e.block_reason

-- Worker.run_finance_action
unfoldable pub run_finance_action : ℕ → Setting → Job → Db (Unit {0})
unfolding run_action
run_finance_action worker e job = do
  found ← gets (λ s. find (is_action job.aggregate_id) s.actions)
  run_action worker e job found

-- Worker.run_once; `none` stands for the sync job that is run where no job is claimed.
unfoldable pub run_once : ℕ → Setting → Db Bool → Db Bool
unfolding run_finance_action claim
run_once worker e run_sync_job = do
  job ← claim worker
  elim job [
    | none ↦ run_sync_job
    | some job ↦ elim job.kind [
      | Kind.finance_action ↦ (run_finance_action worker e job >> pure true)
      | Kind.other_kind ↦ pure true
    ]
  ]
