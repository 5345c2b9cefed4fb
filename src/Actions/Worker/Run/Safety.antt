-- ===== src/Actions/Worker/Run/Safety.antt =====
-- The approvals of finance actions under the worker and the scheduler:
-- firmos-backend/automation/worker.py and scheduler.py.
use firmos.Base.{ℕ, ◌≡◌, Bool}
use firmos.Base.Lists.{All}
use firmos.Actions.Store.{Action, Job, Store}
use firmos.Actions.Store.Monad.{update}
use firmos.Actions.Store.Approval.{IsApproved}
use firmos.Actions.Store.Keeps.{Keeps, Rows, Keeps-update}
use firmos.Actions.Worker.{Setting}
use firmos.Actions.Worker.Run.{claim, run_finance_action}
use firmos.Actions.Scheduler.{tick}
use firmos.Actions.Worker.Run.Rules.{IsPlain, plain-RowKeeps, run_rule, claim_rule, tick_rule}

plainly :
    (fits : Action → Bool) (change : Action → Action)
    → IsPlain change
    → Keeps (Rows IsApproved) (update fits change)
plainly fits change plain = Keeps-update IsApproved fits change (plain-RowKeeps fits change plain)

framed :
    (s s' : Store)
    → s'.actions ≡ s.actions
    → s'.verifications ≡ s.verifications
    → Rows IsApproved s
    → Rows IsApproved s'
framed s s' e _ h = rw e h

-- If every action in a gated status carries an approval of its own payload hash, so it is after a run
-- of any job, whatever the preconditions, the provider's answers, the read-back and the projections
-- are, and whatever exception ends the run.
pub run_finance_action-IsApproved :
    (worker : ℕ) (e : Setting) (job : Job) (s : Store)
    → All IsApproved s.actions
    → All IsApproved (run_finance_action worker e job s).1.actions
run_finance_action-IsApproved = run_rule (Rows IsApproved) plainly framed (λ s v h. h)

-- If every action in a gated status carries an approval of its own payload hash, so it is after a
-- claim, whether or not there is a job to claim and whether or not the claim is rolled back.
pub claim-IsApproved :
    (worker : ℕ) (s : Store) → All IsApproved s.actions → All IsApproved (claim worker s).1.actions
claim-IsApproved = claim_rule (Rows IsApproved) plainly framed (λ s v h. h)

-- If every action in a gated status carries an approval of its own payload hash, so it is after a
-- tick of the scheduler.
pub tick-IsApproved : (s : Store) → All IsApproved s.actions → All IsApproved (tick s).1.actions
tick-IsApproved = tick_rule (Rows IsApproved) plainly framed (λ s v h. h)
