-- ===== src/Actions/Engine.antt =====
-- firmos-backend/core/finance_actions/engine.py: propose, approve and cancel a finance action. The
-- digest of a payload (SHA-256 of its canonical JSON) is taken by a library, so `digest` is a parameter.
pub mod Safety
use firmos.Base.{
  ℕ, ◌+◌, Bool, true, false, ◌&&◌, ◌||◌, not, Option, none, some, List, [], ◌∷◌, ◌++◌,
  if◌then◌else◌, ◌==◌,
}
use firmos.Base.Lists.{any, find}
use firmos.Actions.Status.{
  Status, awaiting_approval, approved, queued, retry_scheduled, cancelled, same_status, status_in,
}
use firmos.Actions.Store.{Provider, Action, Kind, finance_action, Job, Draft, Store}
use firmos.Actions.Store.Monad.{
  Error, not_found, hash_mismatch, not_awaiting, only_unclaimed, database, Result, ok, err, Db,
  pure, raise, gets, or_raise, ◌>>=◌, ◌>>◌, modify, raise_if, update_returning, update_jobs,
}

abbrev pub has_id : ℕ → ℕ → Action → Bool
has_id action_id firm a = a.id == action_id && a.firm_id == firm

-- FinanceActionEngine.get_action
pub get_action : ℕ → ℕ → Db (Option Action)
get_action action_id firm = gets (λ s. find (has_id action_id firm) s.actions)

-- The arguments of propose_action that the model keeps, and the fresh uuid.
pub record Proposal : Type 0 where
  pub id : ℕ
  pub firm_id : ℕ
  pub provider : Provider
  pub operation : ℕ
  pub payload : ℕ
  pub idempotency_key : ℕ

-- The row of the INSERT.
unfoldable pub proposed : (ℕ → ℕ) → Proposal → Action
proposed digest p = record {
  id = p.id;
  firm_id = p.firm_id;
  provider = p.provider;
  operation = p.operation;
  idempotency_key = p.idempotency_key;
  payload = p.payload;
  payload_hash = digest p.payload;
  status = awaiting_approval;
  approved_by = none;
  approved_payload_hash = none;
  approved_at = none;
  attempt_number = 0;
  external_reference = none;
  version = 1;
}

-- The unique key of the table.
abbrev pub has_key : ℕ → ℕ → Action → Bool
has_key firm key a = a.firm_id == firm && a.idempotency_key == key

abbrev pub repeat_proposal : Proposal → Db Action
repeat_proposal p = do
  row ← update_returning (has_key p.firm_id p.idempotency_key) (λ a. a)
  or_raise row database

abbrev pub insert_action : Action → Db Action
insert_action row = modify (λ s. record s { actions = s.actions ++ row ∷ [] }) >> pure row

-- FinanceActionEngine.propose_action: INSERT, or on a conflict of the key an UPDATE that touches
-- nothing that is modelled; either way the row of the table comes back.
unfoldable pub propose_action : (ℕ → ℕ) → Proposal → Db Action
unfolding proposed
propose_action digest p = do
  conflict ← gets (λ s. any (has_key p.firm_id p.idempotency_key) s.actions)
  if conflict then repeat_proposal p else insert_action (proposed digest p)

abbrev pub is_finance_job : ℕ → Job → Bool
is_finance_job action_id j = elim j.kind [
  | Kind.finance_action ↦ j.aggregate_id == action_id
  | Kind.other_kind ↦ false
]

-- `INSERT INTO automation_jobs ... ON CONFLICT(kind,aggregate_id) DO NOTHING`
unfoldable pub enqueue : ℕ → Store → Store
enqueue action_id s = if any (is_finance_job action_id) s.jobs then s else record s {
  jobs =
      s.jobs
      ++ record {
        id = s.next_job_id;
        kind = finance_action;
        aggregate_id = action_id;
        status = queued;
        lease_owner = none;
        lease_expires_at = none;
        available_at = s.now;
        created_at = s.now;
        attempt_count = 0;
      }
        ∷ [];
  next_job_id = s.next_job_id + 1;
}

abbrev pub awaiting_with : ℕ → ℕ → ℕ → Action → Bool
awaiting_with action_id firm hash a =
    has_id action_id firm a && (same_status a.status awaiting_approval && a.payload_hash == hash)

abbrev pub approve_row : ℕ → ℕ → ℕ → Action → Action
approve_row by hash now a = record a {
  status = approved;
  approved_by = some by;
  approved_payload_hash = some hash;
  approved_at = some now;
}

abbrev pub set_status : Status → Action → Action
set_status status a = record a { status = status }

-- FinanceActionEngine.approve_action. There is no transaction: each statement commits.
unfoldable pub approve_action : ℕ → ℕ → ℕ → ℕ → Db Action
unfolding get_action enqueue
approve_action action_id firm by hash = do
  found ← get_action action_id firm
  action ← or_raise found not_found
  raise_if (not (action.payload_hash == hash)) hash_mismatch
  now ← gets (λ s. s.now)
  row ← update_returning (awaiting_with action_id firm hash) (approve_row by hash now)
  or_raise row not_awaiting
  row ← update_returning (has_id action_id firm) (set_status queued)
  result ← or_raise row database
  modify (λ s. record s { outbox = s.outbox ++ action_id ∷ [] })
  modify (enqueue action_id)
  pure result

abbrev pub cancellable : ℕ → ℕ → Action → Bool
cancellable action_id firm a =
    has_id action_id firm a
    && status_in a.status (awaiting_approval ∷ queued ∷ retry_scheduled ∷ [])

abbrev pub cancel_drafts : ℕ → List Draft → List Draft
cancel_drafts action_id [] = []
cancel_drafts action_id (d ∷ ds) =
    (if d.action_id == action_id then record d { status = cancelled } else d)
    ∷ cancel_drafts action_id ds

-- FinanceActionEngine.cancel_action, again with no transaction.
unfoldable pub cancel_action : ℕ → ℕ → Db Action
cancel_action action_id firm = do
  row ← update_returning (cancellable action_id firm) (set_status cancelled)
  result ← or_raise row only_unclaimed
  update_jobs (λ j. is_finance_job action_id j && same_status j.status queued)
      (λ j. record j { status = cancelled })
  modify (λ s. record s { drafts = cancel_drafts action_id s.drafts })
  pure result
