-- ===== src/Actions/Worker/Run/Blocked.antt =====
-- A run of the worker whose write is blocked: firmos-backend/automation/worker.py.
use mathlib.Core.Path.{ap}
use firmos.Base.{ℕ, ◌≡◌, refl, Option, none, some}
use firmos.Base.Lists.{find}
use firmos.Actions.Codes.{Code}
use firmos.Actions.Store.{Action, Job, Store}
use firmos.Actions.Store.Monad.{Db, resume}
use firmos.Actions.Worker.{Setting, Executed, Verified, write_precondition, is_action}
use firmos.Actions.Worker.Run.{run_finance_action, run_action, unless_blocked, heartbeat}

-- The same setting with the write blocked, and with other answers of the provider besides.
abbrev pub blocked_by : ℕ → Setting → Setting
blocked_by reason e = record e { block_reason = some reason }

abbrev pub answering : Executed → Verified → Setting → Setting
answering x v e = record e { executed = x; verified = v }

module _ (e : Setting) (job : Job) (r : ℕ) (x : Executed) (v : Verified) where
  unless_blocked-answering :
      (action_id : ℕ) (code : Option Code)
      → unless_blocked (blocked_by r e) job action_id code (some r)
        ≡ unless_blocked (answering x v (blocked_by r e)) job action_id code (some r)
  unfolding unless_blocked
  unless_blocked-answering action_id none = refl
  unless_blocked-answering action_id (some code) = refl

  run_action-answering :
      (worker : ℕ) (found : Option Action) (s : Store)
      → run_action worker (blocked_by r e) job found s
        ≡ run_action worker (answering x v (blocked_by r e)) job found s
  unfolding run_action heartbeat resume write_precondition
  run_action-answering worker none s = refl
  run_action-answering worker (some action) s =
      let beaten = (heartbeat worker action.firm_id s).1 in
      ap (λ (m : Db (Unit {0})). m beaten)
        (unless_blocked-answering action.id (write_precondition e action beaten))

-- A run whose write is blocked does not depend on what the provider would answer to a write or to a
-- read-back: the tables and the outcome are the same for any two answers.
pub run_finance_action-blocked :
    (worker : ℕ) (e : Setting) (job : Job) (s : Store) (reason : ℕ) (x : Executed) (v : Verified)
    → run_finance_action worker (blocked_by reason e) job s
      ≡ run_finance_action worker (answering x v (blocked_by reason e)) job s
unfolding run_finance_action resume
run_finance_action-blocked worker e job s reason x v =
    run_action-answering e job reason x v worker (find (is_action job.aggregate_id) s.actions) s
