-- ===== src/Actions/Store.antt =====
-- The tables of the finance actions, as far as the engine, the worker and the scheduler use them, and
-- the two triggers on finance_actions: supabase/migrations/20260714000005_trust_spine.sql. Ids, hashes,
-- names and payloads are compared and never looked into, so each is a number; time is in seconds.
pub mod Monad
pub mod Approval
pub mod Keeps
use firmos.Base.{
  ℕ, ◌+◌, Bool, true, false, ◌&&◌, ◌||◌, not, Option, none, some, List, [], ◌∷◌, if◌then◌else◌,
  ◌==◌, ltb, leb,
}
use firmos.Base.Lists.{any}
use firmos.Actions.Codes.{Code}
use firmos.Actions.Status.{Status, succeeded, same_status, allowed}

pub data Provider : Type 0 where
  zoho_books tally_prime other_provider : Provider

pub record Action : Type 0 where
  pub id : ℕ
  pub firm_id : ℕ
  pub provider : Provider
  pub operation : ℕ
  pub idempotency_key : ℕ
  pub payload : ℕ
  pub payload_hash : ℕ
  pub status : Status
  pub approved_by : Option ℕ
  pub approved_payload_hash : Option ℕ
  pub approved_at : Option ℕ
  pub attempt_number : ℕ
  pub external_reference : Option ℕ
  pub version : ℕ

pub data Kind : Type 0 where
  finance_action other_kind : Kind

-- A job takes over the status texts of its action.
pub record Job : Type 0 where
  pub id : ℕ
  pub kind : Kind
  pub aggregate_id : ℕ
  pub status : Status
  pub lease_owner : Option ℕ
  pub lease_expires_at : Option ℕ
  pub available_at : ℕ
  pub created_at : ℕ
  pub attempt_count : ℕ

pub record Attempt : Type 0 where
  pub job_id : ℕ
  pub attempt_number : ℕ
  pub status : Status
  pub error_code : Option Code

pub record Verification : Type 0 where
  pub action_id : ℕ
  pub matched : Bool

-- A row of accounting_drafts.
pub record Draft : Type 0 where
  pub action_id : ℕ
  pub status : Status

pub record Store : Type 0 where
  pub now : ℕ
  pub next_job_id : ℕ
  pub actions : List Action
  pub jobs : List Job
  pub attempts : List Attempt
  pub verifications : List Verification
  pub outbox : List ℕ
  pub dead_letters : List ℕ
  pub drafts : List Draft
  pub heartbeats : List (ℕ × ℕ)  -- firm and worker

abbrev pub same_id : Option ℕ → Option ℕ → Bool
same_id none none = true
same_id (some a) (some b) = a == b
same_id _ _ = false

abbrev pub is_set : Option ℕ → Bool
is_set none = false
is_set (some _) = true

unfoldable pub has_match : ℕ → List Verification → Bool
has_match action = any (λ v. v.action_id == action && v.matched)

-- enforce_finance_action_transition; `none` is the exception.
unfoldable pub enforce_transition : Action → Action → Option Action
enforce_transition old new =
    if same_status new.status old.status
    then some new
    else if allowed old.status new.status
    then some (record new { version = old.version + 1 })
    else none

-- require_verified_success; `none` is either exception.
unfoldable pub require_verified_success : List Verification → Action → Action → Option Action
require_verified_success verifications old new =
    if same_status new.status succeeded && not (has_match new.id verifications)
    then none
    else if is_set old.approved_at && not (new.payload == old.payload)
    then none
    else some new

abbrev pub and_then : Option Action → (Action → Option Action) → Option Action
and_then none f = none
and_then (some a) f = f a

-- Triggers of one event fire in the order of their names.
unfoldable pub before_update : List Verification → Action → Action → Option Action
before_update verifications old new =
    and_then (enforce_transition old new) (require_verified_success verifications old)

abbrev pub cons_row : Option Action → Option (List Action) → Option (List Action)
cons_row (some a) (some rest) = some (a ∷ rest)
cons_row _ _ = none

-- `UPDATE finance_actions SET ... WHERE ...`: all rows that fit, each through the triggers; one
-- exception and nothing is written.
unfoldable pub update_actions :
    List Verification → (Action → Bool) → (Action → Action) → List Action → Option (List Action)
update_actions verifications fits change [] = some []
update_actions verifications fits change (a ∷ rest) =
    let rest' = update_actions verifications fits change rest in
    cons_row (if fits a then before_update verifications a (change a) else some a) rest'
