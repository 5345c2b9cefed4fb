-- ===== src/Tests/Cancelled.antt =====
-- A retry that is cancelled, released, claimed and run.
use firmos.Base.{◌≡◌, refl, some, [], ◌∷◌}
use firmos.Actions.Status.{retry_scheduled, cancelled, allowed, targets, same_status}
use firmos.Actions.Store.{
  Action, Store, update_actions, before_update, enforce_transition, require_verified_success,
}
use firmos.Actions.Store.Monad.{
  update, update_returning, change_jobs, resume, commit, ok, err, database,
}
use firmos.Actions.Engine.{cancel_action}
use firmos.Actions.Scheduler.{tick}
use firmos.Actions.Worker.Run.{claim, claim_job, oldest, run_finance_action}
use firmos.Actions.Worker.Run.Cancelled.{run_finance_action-cancelled}
use firmos.Tests.Actions.{desk, waiting, in_queue, first_job, healthy}

abbrev in_retry : Action
in_retry = record in_queue { status = retry_scheduled; attempt_number = 1 }

abbrev retry_desk : Store
retry_desk = record desk {
  actions = waiting ∷ in_retry ∷ [];
  jobs = record first_job { status = retry_scheduled; attempt_count = 1 } ∷ [];
}

abbrev cancelled_desk : Store
cancelled_desk = (cancel_action 2 10 retry_desk).1

-- The job of the cancelled action comes back to the queue, and the worker claims it.
leftover_run :
    (claim 9 (tick cancelled_desk).1).0 ≡ ok (some (record first_job { attempt_count = 2 }))
unfolding cancel_action tick claim claim_job oldest update_returning update update_actions
    before_update enforce_transition require_verified_success change_jobs resume commit allowed
    targets same_status
leftover_run = refl

abbrev leftover_desk : Store
leftover_desk = record desk {
  actions = waiting ∷ record in_retry { status = cancelled; version = 4 } ∷ [];
}

run_finance_action-cancelled_example :
    (run_finance_action 9 healthy first_job leftover_desk).0 ≡ err database
run_finance_action-cancelled_example =
    run_finance_action-cancelled 9 healthy first_job leftover_desk
      (record in_retry { status = cancelled; version = 4 }) refl refl
