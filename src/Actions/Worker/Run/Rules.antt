-- ===== src/Actions/Worker/Run/Rules.antt =====
-- Every path through a run of the worker, a claim and a tick of the scheduler, as rules for an
-- invariant of the tables. A rule for a block is built from those for its statements.
use firmos.Base.{
  ℕ, ◌≡◌, ◌≢◌, refl, Bool, true, false, Option, none, some, [], ◌∷◌, ◌++◌, Bool-cases, inl, inr,
  if◌then◌else◌, not,
}
use firmos.Actions.Codes.{
  ResultStatus, auth_expired_result, is_success, Code, retryable, action_not_found,
  readback_mismatch, implementation_unavailable, unexpected_failure, blocked,
}
use firmos.Actions.Status.{
  Status, approved, queued, claimed, verifying, succeeded, needs_review, retry_scheduled,
  auth_expired, failed, dead_letter, same_status,
}
use firmos.Actions.Store.{Action, Job, Store, Verification}
use firmos.Actions.Store.Monad.{Db, update, update_jobs, pure, database, raise}
use firmos.Actions.Store.Approval.{IsApproved, before_update-IsApproved}
use firmos.Actions.Store.Keeps.{Keeps, after, Keeps-transaction, Keeps-on_error, RowKeeps}
use firmos.Actions.Engine.{set_status}
use firmos.Actions.Worker.{
  Setting, Executed, execute_raises, execute_returns, Verified, verify_raises, verify_returns,
  is_action, is_job, complete_attempt, exhausted, final_status, when, finish, or_code,
  result_failure,
}
use firmos.Actions.Worker.Run.{
  claim_row, claim_job, claim, heartbeat, accept, conclude, read_back, write, start, attempt,
  unless_blocked, run_action, run_finance_action, is_queued_action,
}
use firmos.Actions.Scheduler.{tick, released}

-- A change that writes no approval and leaves both hashes alone.
abbrev pub IsPlain : (Action → Action) → Type 0
IsPlain change =
    (a : Action)
    → ((change a).status ≢ approved)
      × ((change a).payload_hash ≡ a.payload_hash)
      × ((change a).approved_payload_hash ≡ a.approved_payload_hash)

pub plain-RowKeeps :
    (fits : Action → Bool) (change : Action → Action)
    → IsPlain change
    → RowKeeps IsApproved fits change
plain-RowKeeps fits change plain vs a c h hit e =
    let (ne, same_hash, same_approved) = plain a in
    before_update-IsApproved vs a (change a) c e h ne same_hash same_approved

final_status-ne :
    (job : Job) (status : Status) → status ≢ approved → final_status job status ≢ approved
final_status-ne job status ne = elim (Bool-cases (exhausted job status)) [
  | inl gone ↦ rw gone (λ e. cc)
  | inr more ↦ rw more ne
]

-- The blocks, for an invariant that plain updates keep and that reads the actions alone.
module _ (K : Store → Type 0)
    (plain : (fits : Action → Bool) (change : Action → Action)
      → IsPlain change
      → Keeps K (update fits change))
    (frame : (s s' : Store)
      → s'.actions ≡ s.actions
      → s'.verifications ≡ s.verifications
      → K s
      → K s')
    (more : (s : Store) (v : Verification)
      → K s
      → K (record s { verifications = s.verifications ++ v ∷ [] })) where
  status_rule :
      (fits : Action → Bool) (status : Status)
      → status ≢ approved
      → Keeps K (update fits (set_status status))
  status_rule fits status ne = plain fits (set_status status) (λ a. (ne, refl, refl))

  when_rule : (b : Bool) (m : Db (Unit {0})) → Keeps K m → Keeps K (when b m)
  when_rule true m hm s h = hm s h
  when_rule false m hm s h = h

  choice_rule :
      (b : Bool) (m n : Db (Unit {0})) → Keeps K m → Keeps K n → Keeps K (if b then m else n)
  choice_rule true m n hm hn s h = hm s h
  choice_rule false m n hm hn s h = hn s h

  complete_rule :
      (job : Job) (status : Status) (code : Option Code)
      → Keeps K (complete_attempt job status code)
  unfolding complete_attempt
  complete_rule job status code s h =
      after K _ _ (frame s _ refl refl h) λ _ s h. last (same_status status succeeded) s h
    where
      last :
          (b : Bool) (s : Store)
          → K s
          → K
              ((if b
                  then update_jobs (is_job job.id) (λ j. record j {
                    status = succeeded;
                    lease_owner = none;
                    lease_expires_at = none;
                  })
                  else pure tt)
                s).1
      last true s h = frame s _ refl refl h
      last false s h = h

  finish_rule :
      (job : Job) (status : Status) (code : Code)
      → status ≢ approved
      → Keeps K (finish job status code)
  unfolding finish
  finish_rule job status code ne = Keeps-transaction K _ (λ s h.
      after K _ _
        (when_rule (exhausted job status) _
          (status_rule (is_action job.aggregate_id) failed (λ e. cc)) s h)
        λ _ s h.
          after K _ _
            (status_rule (is_action job.aggregate_id) (final_status job status)
              (final_status-ne job status ne) s h)
            λ _ s h. after K _ _ h λ now s h. after K _ _ (frame s _ refl refl h) λ _ s h.
              after K _ _ (complete_rule job (final_status job status) (some code) s h) λ _ s h.
                when_rule (same_status (final_status job status) dead_letter) _
                  (λ s h. frame s _ refl refl h) s h)

  result_rule :
      (job : Job) (status : ResultStatus) (code : Option ℕ)
      → Keeps K (result_failure job status code)
  unfolding result_failure
  result_rule job status code = go status
    where
      other :
          (status : ResultStatus)
          → Keeps K (
              finish job
                (if retryable status then retry_scheduled else needs_review)
                (or_code code status))
      other status = elim (Bool-cases (retryable status)) [
        | inl it ↦ rw it (finish_rule job retry_scheduled (or_code code status) (λ e. cc))
        | inr it ↦ rw it (finish_rule job needs_review (or_code code status) (λ e. cc))
      ]

      go : (status : ResultStatus) → Keeps K (result_failure job status code)
      go auth_expired_result =
          finish_rule job auth_expired (or_code code auth_expired_result) (λ e. cc)
      go status = other status

  conclude_rule : (e : Setting) (job : Job) (action_id : ℕ) → Keeps K (conclude e job action_id)
  unfolding conclude
  conclude_rule e job action_id = Keeps-transaction K _ (λ s h. after K _ _ (more s _ h) λ _ s h.
      after K _ _ (when_rule (not e.projection_ok) (raise database) (λ s h. h) s h) λ _ s h.
        after K _ _ (status_rule (is_action action_id) succeeded (λ e. cc) s h)
          λ _ s h. complete_rule job succeeded none s h)

  read_back_rule :
      (e : Setting) (job : Job) (action_id : ℕ) (v : Verified)
      → Keeps K (read_back e job action_id v)
  unfolding read_back
  read_back_rule e job action_id verify_raises s h = h
  read_back_rule e job action_id (verify_returns status has_data mismatched) s h =
      elim (Bool-cases (is_success status)) [
        | inl it ↦ rw it (conclude_rule e job action_id s h)
        | inr it ↦ rw it (
            after K _ _ (when_rule has_data _ (Keeps-transaction K _ (λ s h. more s _ h)) s h)
              λ _ s h. finish_rule job needs_review readback_mismatch (λ e. cc) s h)
      ]

  write_rule :
      (e : Setting) (job : Job) (action_id : ℕ) (x : Executed) → Keeps K (write e job action_id x)
  unfolding write
  write_rule e job action_id execute_raises s h = h
  write_rule e job action_id (execute_returns status none code) s h =
      result_rule job status code s h
  write_rule e job action_id (execute_returns status (some provider_id) code) s h =
      elim (Bool-cases (is_success status)) [
        | inl it ↦ rw it (
            after K _ _
              (plain (is_action action_id) (accept provider_id) (λ a. ((λ e. cc), refl, refl)) s h)
              λ _ s h.
                after K _ _ (status_rule (is_action action_id) verifying (λ e. cc) s h)
                  λ _ s h. read_back_rule e job action_id e.verified s h)
        | inr it ↦ rw it (result_rule job status code s h)
      ]

  attempt_rule : (e : Setting) (job : Job) (action_id : ℕ) → Keeps K (attempt e job action_id)
  unfolding attempt
  attempt_rule e job action_id =
      choice_rule e.registered _ _
        (Keeps-on_error K _ _ (write_rule e job action_id e.executed)
          (finish_rule job retry_scheduled unexpected_failure (λ e. cc)))
        (finish_rule job failed implementation_unavailable (λ e. cc))

  blocked_rule :
      (e : Setting) (job : Job) (action_id : ℕ) (code : Option Code) (reason : Option ℕ)
      → Keeps K (unless_blocked e job action_id code reason)
  unfolding unless_blocked
  blocked_rule e job action_id (some code) reason s h = finish_rule job failed code (λ e. cc) s h
  blocked_rule e job action_id none (some reason) s h =
      finish_rule job failed (blocked reason) (λ e. cc) s h
  blocked_rule e job action_id none none s h =
      after K _ _ (plain (is_action action_id) start (λ a. ((λ e. cc), refl, refl)) s h)
        λ _ s h. attempt_rule e job action_id s h

  action_rule :
      (worker : ℕ) (e : Setting) (job : Job) (found : Option Action)
      → Keeps K (run_action worker e job found)
  unfolding run_action heartbeat
  action_rule worker e job none s h = finish_rule job failed action_not_found (λ e. cc) s h
  action_rule worker e job (some action) s h =
      after K _ _ (frame s _ refl refl h)
        λ _ s h. after K _ _ h λ code s h. blocked_rule e job action.id code e.block_reason s h

  pub run_rule : (worker : ℕ) (e : Setting) (job : Job) → Keeps K (run_finance_action worker e job)
  unfolding run_finance_action
  run_rule worker e job s h = after K _ _ h λ found s h. action_rule worker e job found s h

  claim_row_rule : (worker : ℕ) (row : Option Job) → Keeps K (claim_row worker row)
  unfolding claim_job
  claim_row_rule worker none s h = h
  claim_row_rule worker (some row) s h =
      after K _ _
        (after K _ _ h λ now s h. after K _ _ (frame s _ refl refl h) λ _ s h.
          after K _ _ (status_rule (is_queued_action row.aggregate_id) claimed (λ e. cc) s h)
            λ _ s h. after K _ _ (frame s _ refl refl h) λ _ s h. h)
        λ job s h. h

  pub claim_rule : (worker : ℕ) → Keeps K (claim worker)
  unfolding claim
  claim_rule worker =
      Keeps-transaction K _ (λ s h. after K _ _ h λ row s h. claim_row_rule worker row s h)

  pub tick_rule : Keeps K tick
  unfolding tick
  tick_rule = Keeps-transaction K _ (λ s h. after K _ _ h λ t s h.
      after K _ _ (status_rule (released t) queued (λ e. cc) s h)
        λ _ s h. after K _ _ (frame s _ refl refl h) λ _ s h. h)
