-- ===== src/Tests/Actions.antt =====
-- The theorems on the finance actions at a small desk: one action that waits for its approval and one
-- that is queued with its job.
use mathlib.Core.List.{Memᴰ}
use mathlib.Core.List.Memᴰ.{head}
use firmos.Base.{ℕ, ◌≡◌, refl, true, false, some, none, [], ◌∷◌, ◌+◌, map}
use firmos.Base.Lists.{All}
use firmos.Actions.Codes.{ResultStatus}
use firmos.Actions.Status.{
  awaiting_approval, queued, claimed, succeeded, allowed, targets, same_status,
}
use firmos.Actions.Store.{
  Provider, Action, Kind, Job, Store, update_actions, before_update, enforce_transition,
  require_verified_success, has_match,
}
use firmos.Actions.Store.Monad.{update, update_returning, change_jobs, resume, commit, recover}
use firmos.Actions.Store.Approval.{IsApproved}
use firmos.Actions.Engine.{Proposal, proposed, enqueue, propose_action, approve_action}
use firmos.Actions.Worker.{
  write_precondition, Setting, organization, contact, ledger, tax, execute_returns, verify_returns,
}
use firmos.Actions.Worker.Run.{
  oldest, attempt, conclude, claim_job, lease, claim, run_finance_action,
}
use firmos.Actions.System.{Reaches, starts, goes, proposes, approves, claims, runs}
use firmos.Actions.System.Safety.{reached-approved, reached-verified}

abbrev pub waiting : Action
waiting = record {
  id = 1;
  firm_id = 10;
  provider = Provider.zoho_books;
  operation = 4;
  idempotency_key = 100;
  payload = 70;
  payload_hash = 77;
  status = awaiting_approval;
  approved_by = none;
  approved_payload_hash = none;
  approved_at = none;
  attempt_number = 0;
  external_reference = none;
  version = 1;
}

abbrev pub in_queue : Action
in_queue = record waiting {
  id = 2;
  idempotency_key = 101;
  status = queued;
  approved_by = some 3;
  approved_payload_hash = some 77;
  approved_at = some 50;
  version = 3;
}

abbrev pub first_job : Job
first_job = record {
  id = 5;
  kind = Kind.finance_action;
  aggregate_id = 2;
  status = queued;
  lease_owner = none;
  lease_expires_at = none;
  available_at = 50;
  created_at = 50;
  attempt_count = 0;
}

abbrev pub desk : Store
desk = record {
  now = 60;
  next_job_id = 6;
  actions = waiting ∷ in_queue ∷ [];
  jobs = first_job ∷ [];
  attempts = [];
  verifications = [];
  outbox = 2 ∷ [];
  dead_letters = [];
  drafts = [];
  heartbeats = [];
}

abbrev pub healthy : Setting
healthy = record {
  installation = true;
  certified = true;
  mappings = organization ∷ contact ∷ ledger ∷ tax ∷ [];
  block_reason = none;
  registered = true;
  executed = execute_returns ResultStatus.success (some 900) none;
  verified = verify_returns ResultStatus.success true false;
  projection_ok = true;
}

desk-IsApproved : All IsApproved desk.actions
desk-IsApproved = ((λ e. cc), ((λ _. refl), tt))

abbrev again : Proposal
again = record {
  id = 3;
  firm_id = 10;
  provider = Provider.tally_prime;
  operation = 5;
  payload = 71;
  idempotency_key = 102;
}

abbrev next : ℕ → ℕ
next n = n + 1

-- The desk once the queued action is claimed.
abbrev claimed_desk : Store
claimed_desk = record desk {
  actions = waiting ∷ record in_queue { status = claimed; version = 4 } ∷ [];
  jobs = lease 9 60 first_job ∷ [];
  attempts = record { job_id = 5; attempt_number = 1; status = claimed; error_code = none } ∷ [];
}

claim_run : (claim 9 desk).1 ≡ claimed_desk
unfolding claim oldest claim_job update update_actions before_update enforce_transition allowed
    targets same_status require_verified_success change_jobs resume commit
claim_run = refl

success_run :
    map (λ a. a.status) (run_finance_action 9 healthy first_job claimed_desk).1.actions
    ≡ awaiting_approval ∷ succeeded ∷ []
unfolding run_finance_action resume write_precondition update update_actions before_update
    enforce_transition same_status allowed require_verified_success attempt recover conclude commit
    has_match
success_run = refl

claimed_desk-IsApproved : All IsApproved claimed_desk.actions
claimed_desk-IsApproved = ((λ e. cc), ((λ _. refl), tt))

-- A day from the proposal to the success.
abbrev opening : Store
opening = record desk { actions = []; jobs = []; outbox = [] }

abbrev bill : Proposal
bill = record {
  id = 1;
  firm_id = 10;
  provider = Provider.zoho_books;
  operation = 4;
  payload = 76;
  idempotency_key = 100;
}

abbrev new_job : Job
new_job = record first_job {
  id = 6;
  aggregate_id = 1;
  available_at = 60;
  created_at = 60;
  attempt_count = 1;
}

abbrev day : Store
day =
    (run_finance_action 9 healthy new_job
      (claim 9 (approve_action 1 10 3 77 (propose_action next bill opening).1).1).1).1

abbrev done : Action
done = record waiting {
  payload = 76;
  status = succeeded;
  approved_by = some 3;
  approved_payload_hash = some 77;
  approved_at = some 60;
  attempt_number = 1;
  external_reference = some 900;
  version = 8;
}

day_run : day.actions ≡ done ∷ []
unfolding run_finance_action resume write_precondition update update_actions before_update
    enforce_transition same_status allowed require_verified_success attempt recover conclude commit
    has_match claim oldest claim_job change_jobs approve_action propose_action proposed enqueue
    update_returning
day_run = refl

abbrev day_path : Reaches next opening day
day_path =
    goes (goes (goes (goes starts (proposes _ bill)) (approves _ 1 10 3 77)) (claims _ 9))
      (runs _ 9 healthy new_job)

done_there : Memᴰ done day.actions
done_there = rw day_run (head refl)

reached-approved_example : done.approved_payload_hash ≡ some done.payload_hash
reached-approved_example = reached-approved next opening day done refl day_path done_there refl

reached-verified_example : has_match done.id day.verifications ≡ true
reached-verified_example =
    reached-verified next opening day done refl day_path done_there (unfold same_status in refl)
