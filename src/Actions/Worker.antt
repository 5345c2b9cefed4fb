-- ===== src/Actions/Worker.antt =====
-- firmos-backend/automation/worker.py: class Worker. What a run reads from other tables, from the
-- connector registry and from the provider comes in as a `Setting`; the projections into the registers
-- are another component, of which a run sees whether they raise. One worker runs at a time.
pub mod Run
use firmos.Base.{
  ℕ, ◌+◌, ◌^◌, min, Bool, true, false, ◌&&◌, ◌||◌, not, Option, none, some, List, [], ◌∷◌, ◌++◌,
  if◌then◌else◌, ◌==◌, ltb, leb,
}
use firmos.Base.Lists.{any, all, find}
use firmos.Actions.Status.{
  Status, queued, claimed, executing, provider_accepted, verifying, succeeded, needs_review,
  retry_scheduled, auth_expired, failed, dead_letter, same_status,
}
use firmos.Actions.Codes.{
  ResultStatus, is_success, retryable, auth_expired_result, Code, action_not_found,
  installation_unavailable, certification_required, mappings_required, already_reached,
  readback_mismatch, implementation_unavailable, unexpected_failure, blocked, reported,
  status_value,
}
use firmos.Actions.Store.{Provider, Action, Kind, Job, Attempt, Verification, Store}
use firmos.Actions.Store.Monad.{
  Error, database, Result, ok, err, Db, pure, raise, gets, or_raise, ◌>>=◌, ◌>>◌, modify, raise_if,
  transaction, on_error, update, update_jobs,
}
use firmos.Actions.Engine.{set_status}

abbrev pub max_attempts : ℕ
max_attempts = 5

pub data Mapping : Type 0 where
  organization contact ledger tax other_mapping : Mapping

abbrev pub same_mapping : Mapping → Mapping → Bool
same_mapping organization organization = true
same_mapping contact contact = true
same_mapping ledger ledger = true
same_mapping tax tax = true
same_mapping _ _ = false

-- What execute_write does: it raises, or returns a status, the provider's id if there are data, and a
-- code.
pub data Executed : Type 0 where
  execute_raises : Executed
  execute_returns : ResultStatus → Option ℕ → Option ℕ → Executed

-- What verify_write does: it raises, or returns a status, whether there are data, and whether the
-- details list mismatches.
pub data Verified : Type 0 where
  verify_raises : Verified
  verify_returns : ResultStatus → Bool → Bool → Verified

pub record Setting : Type 0 where
  pub installation : Bool
  pub certified : Bool
  pub mappings : List Mapping
  pub block_reason : Option ℕ
  pub registered : Bool
  pub executed : Executed
  pub verified : Verified
  pub projection_ok : Bool

-- Rows by id; and the attempt that a job is at.
abbrev pub is_action : ℕ → Action → Bool
is_action action_id a = a.id == action_id

abbrev pub is_job : ℕ → Job → Bool
is_job job_id j = j.id == job_id

pub change_attempts : Job → Status → Option Code → List Attempt → List Attempt
change_attempts job status code [] = []
change_attempts job status code (a ∷ rest) =
    (if a.job_id == job.id && a.attempt_number == job.attempt_count
      then record a { status = status; error_code = code }
      else a)
    ∷ change_attempts job status code rest

-- Worker._complete_attempt
pub complete_attempt : Job → Status → Option Code → Db (Unit {0})
unfolding change_attempts
complete_attempt job status code = do
  modify (λ s. record s { attempts = change_attempts job status code s.attempts })
  if same_status status succeeded
      then update_jobs (is_job job.id)
          (λ j. record j { status = succeeded; lease_owner = none; lease_expires_at = none })
      else pure tt

-- `delay = min(300, 2 ** attempt_count)` seconds from now, if the job is to be retried.
abbrev pub end_lease : ℕ → ℕ → Status → Job → Job
end_lease now attempts status j = record j {
  status = status;
  lease_owner = none;
  lease_expires_at = none;
  available_at =
      if same_status status retry_scheduled then now + min 300 (2 ^ attempts) else j.available_at;
}

-- `INSERT INTO dead_letters ... ON CONFLICT(job_id) DO NOTHING`
pub bury : ℕ → List ℕ → List ℕ
bury job_id letters = if any (λ l. l == job_id) letters then letters else letters ++ job_id ∷ []

abbrev pub exhausted : Job → Status → Bool
exhausted job status = same_status status retry_scheduled && leb max_attempts job.attempt_count

abbrev pub final_status : Job → Status → Status
final_status job status = if exhausted job status then dead_letter else status

abbrev pub when : Bool → Db (Unit {0}) → Db (Unit {0})
when b m = if b then m else pure tt

-- Worker._finish
unfoldable pub finish : Job → Status → Code → Db (Unit {0})
unfolding complete_attempt bury
finish job action_status code = transaction (do
  when (exhausted job action_status) (update (is_action job.aggregate_id) (set_status failed))
  update (is_action job.aggregate_id) (set_status (final_status job action_status))
  now ← gets (λ s. s.now)
  update_jobs (is_job job.id) (end_lease now job.attempt_count (final_status job action_status))
  complete_attempt job (final_status job action_status) (some code)
  when (same_status (final_status job action_status) dead_letter)
      (modify (λ s. record s { dead_letters = bury job.id s.dead_letters })))

abbrev pub or_code : Option ℕ → ResultStatus → Code
or_code none status = status_value status
or_code (some code) status = reported code

-- Worker._result_failure
pub result_failure : Job → ResultStatus → Option ℕ → Db (Unit {0})
result_failure job auth_expired_result code =
    finish job auth_expired (or_code code auth_expired_result)
result_failure job status code =
    finish job (if retryable status then retry_scheduled else needs_review) (or_code code status)

abbrev pub is_zoho : Provider → Bool
is_zoho Provider.zoho_books = true
is_zoho _ = false

-- `{"organization", "contact", "ledger", "tax"}.issubset(mapping_types)`
abbrev pub mapped : List Mapping → Bool
mapped types = all (λ m. any (same_mapping m) types) (organization ∷ contact ∷ ledger ∷ tax ∷ [])

-- Worker._write_precondition; the last query reads the verification results.
unfoldable pub write_precondition : Setting → Action → Store → Option Code
write_precondition e action s =
    if not e.installation
    then some installation_unavailable
    else if not e.certified
    then some certification_required
    else if is_zoho action.provider && not (mapped e.mappings)
    then some mappings_required
    else if any (λ v. v.action_id == action.id) s.verifications
    then some already_reached
    else none
