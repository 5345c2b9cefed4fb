-- ===== src/Tally/Agent.antt =====
-- firmos-backend/api/routes/tally_agent_actions.py: the tables and the statements of the device's routes. A row of
-- finance_actions shows the columns that these routes use; ids and the texts that are only compared are
-- numbers; time is in seconds. Both triggers of finance_actions are in Actions/Store.antt; no statement here
-- writes a payload or two rows with one id.
pub mod Precondition
pub mod Claim
pub mod Report
pub mod Rows
pub mod Verified
pub mod Lease
pub mod Stuck
pub mod Steps
pub mod Denied
use firmos.Base.{
  ℕ, ◌≡◌, Bool, true, false, ◌&&◌, not, Option, none, some, List, [], ◌∷◌, if◌then◌else◌, ◌==◌, map,
}
use firmos.Base.Lists.{any}
use firmos.Base.Text.{Text}
use firmos.Base.Result.{Result, ok, raised, ◌>>=◌}
use firmos.Actions.Status.{Status, succeeded, same_status, allowed}
use firmos.Actions.Store.{Provider, Job, Kind, Verification, has_match}
use firmos.Hardening.Flags.{BlockReason}
use firmos.Tally.Voucher.{Purchase, Sale}

pub data Operation : Type 0 where
  purchase_voucher_create sales_voucher_create other_operation : Operation

-- The dict of a payload, as either validation reads it.
pub record Payload : Type 0 where
  pub purchase : Purchase
  pub sale : Sale

pub record Action : Type 0 where
  pub id : ℕ
  pub firm_id : ℕ
  pub client_id : ℕ
  pub installation_id : ℕ
  pub provider : Provider
  pub operation : Operation
  pub payload : Payload
  pub status : Status
  pub attempt_number : ℕ
  pub lease_device_id : Option ℕ
  pub lease_expires_at : Option ℕ
  pub external_reference_id : Text
  pub created_at : ℕ

-- DeviceContext; `lease_owner` is the text "tally:{id}".
pub record Device : Type 0 where
  pub id : ℕ
  pub firm_id : ℕ
  pub client_id : ℕ
  pub installation_id : ℕ
  pub company_guid : Text
  pub lease_owner : ℕ

pub record Store : Type 0 where
  pub now : ℕ
  pub actions : List Action
  pub jobs : List Job
  pub verifications : List Verification

-- The codes of the 409 responses.
pub data Reason : Type 0 where
  device_unhealthy tally_license_unsupported tally_version_uncertified : Reason
  installation_write_disabled read_sync_required certification_l5_required mappings_required :
      Reason
  write_blocked : BlockReason → Reason
  company_identity_mismatch ledger_identity_not_found action_lease_invalid : Reason

-- What ends a request: a response with a code, or any other exception. Either rolls back the
-- transaction, so a route that raises leaves the store as it was.
pub data Failure : Type 0 where
  conflict : Reason → Failure
  database_error invalid_payload projection_error : Failure

-- enforce_finance_action_transition and require_verified_success
unfoldable pub before_update : List Verification → Action → Action → Result Failure Action
before_update verifications old new =
    if not (same_status new.status old.status) && not (allowed old.status new.status)
    then raised database_error
    else if same_status new.status succeeded && not (has_match new.id verifications)
    then raised database_error
    else ok new

unfoldable pub update_actions :
    List Verification
    → (Action → Bool)
    → (Action → Action)
    → List Action
    → Result Failure (List Action)
unfolding before_update
update_actions verifications fits change [] = ok []
update_actions verifications fits change (a ∷ rest) =
    (if fits a then before_update verifications a (change a) else ok a) >>= λ a'.
    update_actions verifications fits change rest >>= λ rest'. ok (a' ∷ rest')

-- `UPDATE finance_actions SET ... WHERE ...`
unfoldable pub update_where : (Action → Bool) → (Action → Action) → Store → Result Failure Store
unfolding update_actions
update_where fits change s = update_actions s.verifications fits change s.actions >>= λ actions.
    ok (record s { actions = actions })

abbrev pub has_id : ℕ → Action → Bool
has_id id a = a.id == id

abbrev pub set_status : Status → Action → Action
set_status status a = record a { status = status }

abbrev pub is_job_of : ℕ → Job → Bool
is_job_of id j = elim j.kind [
  | Kind.finance_action ↦ j.aggregate_id == id
  | Kind.other_kind ↦ false
]

-- `UPDATE automation_jobs SET ... WHERE kind='FINANCE_ACTION' AND aggregate_id=...`
unfoldable pub update_jobs : ℕ → (Job → Job) → Store → Store
update_jobs id change s = record s {
  jobs = map (λ j. if is_job_of id j then change j else j) s.jobs;
}

-- `... AND lease_device_id=$4 AND status='CLAIMED'`, in the device's firm and installation
abbrev pub is_leased_to : Option ℕ → ℕ → Bool
is_leased_to none device = false
is_leased_to (some d) device = d == device

unfoldable pub holds_lease : Device → ℕ → Action → Bool
holds_lease d id a =
    a.id == id
    && (a.firm_id == d.firm_id
        && (a.installation_id == d.installation_id
            && (is_leased_to a.lease_device_id d.id && same_status a.status Status.claimed)))
