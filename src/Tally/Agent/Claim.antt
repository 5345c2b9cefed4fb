-- ===== src/Tally/Agent/Claim.antt =====
-- claim_action and renew_lease of firmos-backend/api/routes/tally_agent_actions.py. The text of an id is a
-- parameter; a correlation id is not shown.
use firmos.Base.{
  ℕ, suc, ◌+◌, Bool, true, false, ◌&&◌, not, Option, none, some, List, [], ◌∷◌, ◌++◌, if◌then◌else◌,
  ltb, leb, ◌==◌,
}
use firmos.Base.Lists.{any, keep, length}
use firmos.Base.Text.{Text, codes, same_text}
use firmos.Base.Result.{Result, ok, raised, ◌>>=◌, ◌>>◌, raise_if, reraise}
use firmos.Actions.Status.{Status, same_status}
use firmos.Actions.Store.{Job}
use firmos.Tally.{Line}
use firmos.Tally.Voucher.{Checked, Voucher, validate_purchase, validate_sales}
use firmos.Tally.Agent.{
  Store, Action, Device, Operation, Payload, Reason, Failure, conflict, invalid_payload,
  company_identity_mismatch, ledger_identity_not_found, action_lease_invalid,
  purchase_voucher_create, sales_voucher_create, other_operation, set_status, update_where,
  update_jobs, has_id, holds_lease,
}
use firmos.Tally.Agent.Precondition.{Site, Ledger, is_tally, precondition}

abbrev pub max_attempts : ℕ
max_attempts = 3

abbrev pub lease_seconds : ℕ
lease_seconds = 90

abbrev pub is_before : Option ℕ → ℕ → Bool
is_before none now = false
is_before (some t) now = ltb t now

abbrev pub is_own : Device → Action → Bool
is_own d a = a.installation_id == d.installation_id && is_tally a.provider

-- The three statements that find the action.
abbrev pub is_expired : Device → ℕ → Action → Bool
is_expired d now a =
    is_own d a && (same_status a.status Status.claimed && is_before a.lease_expires_at now)

abbrev pub release : Action → Action
release a = record a {
  status = Status.retry_scheduled;
  lease_device_id = none;
  lease_expires_at = none;
}

abbrev pub is_retriable : Device → Action → Bool
is_retriable d a =
    is_own d a && (same_status a.status Status.retry_scheduled && ltb a.attempt_number max_attempts)

abbrev pub is_supported : Operation → Bool
is_supported purchase_voucher_create = true
is_supported sales_voucher_create = true
is_supported other_operation = false

abbrev pub is_claimable : Device → Action → Bool
is_claimable d a =
    a.firm_id == d.firm_id
    && (a.client_id == d.client_id
        && (is_own d a
            && (is_supported a.operation
                && (same_status a.status Status.queued && ltb a.attempt_number max_attempts))))

-- `ORDER BY created_at ... LIMIT 1`
abbrev pub older : Action → Option Action → Action
older a none = a
older a (some b) = if leb a.created_at b.created_at then a else b

unfoldable pub oldest : (Action → Bool) → List Action → Option Action
oldest fits [] = none
oldest fits (a ∷ rest) =
    let found = oldest fits rest in if fits a then some (older a found) else found

-- `validate_sales(...) if operation == OPERATIONS[1] else validate_purchase(...)`
unfoldable pub validate : (Text → Option Text) → Operation → Payload → Checked Voucher
unfolding validate_purchase validate_sales
validate compact_date sales_voucher_create p = validate_sales p.sale
validate compact_date _ p = validate_purchase compact_date p.purchase

-- `{line["ledger_name"] for line in entries}`
unfoldable pub distinct_names : List Line → List Text
distinct_names [] = []
distinct_names (l ∷ ls) =
    let rest = distinct_names ls in
    if any (same_text l.ledger_name) rest then rest else l.ledger_name ∷ rest

abbrev pub is_active_ledger : Device → List Ledger → Text → Bool
is_active_ledger d ledgers name =
    any
      (λ g.
        g.installation_id == d.installation_id
        && (same_text g.company_guid d.company_guid && (g.active && same_text g.name name)))
      ledgers

-- `count(DISTINCT name) ... AND name=ANY(...)`: as many as there are names with a row.
abbrev pub ledger_count : Device → List Ledger → List Text → ℕ
ledger_count d ledgers names = length (keep (is_active_ledger d ledgers) names)

abbrev pub claim_row : Device → ℕ → Action → Action
claim_row d now a = record a {
  status = Status.claimed;
  lease_device_id = some d.id;
  lease_expires_at = some (now + lease_seconds);
  attempt_number = suc a.attempt_number;
}

abbrev pub claim_job : Device → ℕ → Job → Job
claim_job d now j = record j {
  status = Status.claimed;
  lease_owner = some d.lease_owner;
  lease_expires_at = some (now + lease_seconds);
  attempt_count = suc j.attempt_count;
}

pub record Task : Type 0 where
  pub action_id : ℕ
  pub operation : Operation
  pub remote_id : Text
  pub payload : Voucher

-- deterministic_remote_id
abbrev pub deterministic_remote_id : Text → Text
deterministic_remote_id action_id = codes "firmos:" ++ action_id

unfoldable pub raise_reason : Option Reason → Result Failure (Unit {0})
raise_reason none = ok tt
raise_reason (some reason) = raised (conflict reason)

module _ (compact_date : Text → Option Text) (str_id : ℕ → Text) (w : Site) (d : Device) where
  -- What must hold of the action that was found.
  unfoldable pub checked_task : ℕ → Action → Result Failure Task
  unfolding validate precondition distinct_names raise_reason
  checked_task now a = do
    raise_reason (precondition w now d a.operation)
    payload ← reraise invalid_payload (validate compact_date a.operation a.payload)
    raise_if (not (same_text payload.company_guid d.company_guid))
        (conflict company_identity_mismatch)
    raise_if
        (not (
          ledger_count d w.ledgers (distinct_names payload.entries)
          == length (distinct_names payload.entries)))
        (conflict ledger_identity_not_found)
    ok record {
      action_id = a.id;
      operation = a.operation;
      remote_id = deterministic_remote_id (str_id a.id);
      payload = payload;
    }

  unfoldable pub take_action : Action → Store → Result Failure (Option Task × Store)
  unfolding checked_task update_where update_jobs
  take_action a s = do
    task ← checked_task s.now a
    s' ← update_where (has_id a.id) (claim_row d s.now) s
    ok (some task, update_jobs a.id (claim_job d s.now) s')

  unfoldable pub take_oldest : Option Action → Store → Result Failure (Option Task × Store)
  unfolding take_action
  take_oldest none s = ok (none, s)
  take_oldest (some a) s = take_action a s

  -- No task is the response 204.
  unfoldable pub claim_action : Store → Result Failure (Option Task × Store)
  unfolding take_oldest update_where oldest
  claim_action s = do
    s1 ← update_where (is_expired d s.now) release s
    s2 ← update_where (is_retriable d) (set_status Status.queued) s1
    take_oldest (oldest (is_claimable d) s2.actions) s2

-- One statement, which returns a row or none.
unfoldable pub renew_lease : Device → ℕ → Store → Result Failure Store
unfolding update_where holds_lease
renew_lease d id s = do
  s' ←
      update_where (holds_lease d id)
        (λ a. record a { lease_expires_at = some (s.now + lease_seconds) }) s
  raise_if (not (any (holds_lease d id) s.actions)) (conflict action_lease_invalid)
  ok s'
