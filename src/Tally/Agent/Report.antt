-- ===== src/Tally/Agent/Report.antt =====
-- report_result and _finish_job of firmos-backend/api/routes/tally_agent_actions.py, with record_verification's row of
-- verification_results. Whether the projection into a register raises is a parameter: Registers.antt.
use firmos.Base.{
  ℕ, Bool, true, false, ◌&&◌, Option, none, some, List, [], ◌∷◌, ◌++◌, if◌then◌else◌, map,
}
use firmos.Base.Lists.{find}
use firmos.Base.Text.{Text, same_text, is_empty_text}
use firmos.Base.Result.{Result, ok, raised, ◌>>=◌, ◌>>◌, raise_if, reraise}
use firmos.Actions.Status.{Status}
use firmos.Tally.Voucher.{Checked}
use firmos.Tally.Compare.{Readback, Mismatch, compare_purchase, compare_sales}
use firmos.Tally.Agent.{
  Store, Action, Device, Operation, Payload, Failure, conflict, invalid_payload, projection_error,
  action_lease_invalid, sales_voucher_create, set_status, update_where, update_jobs, has_id,
  holds_lease,
}
use firmos.Tally.Agent.Claim.{deterministic_remote_id}

-- The pattern of ActionResult.status.
pub data Reported : Type 0 where
  provider_accepted failed ambiguous : Reported

pub record ActionResult : Type 0 where
  pub status : Reported
  pub provider_guid : Text
  pub readback : Option Readback

abbrev pub final_status : Reported → Status
final_status Reported.ambiguous = Status.needs_review
final_status _ = Status.failed

abbrev pub close : Status → Action → Action
close status a = record a { status = status; lease_expires_at = none }

-- _finish_job
unfoldable pub finish_job : ℕ → Status → Store → Store
unfolding update_jobs
finish_job id status =
    update_jobs id λ j. record j { status = status; lease_owner = none; lease_expires_at = none }

-- `body.status != "PROVIDER_ACCEPTED" or not body.provider_guid or not body.readback`
abbrev pub accepted_readback : ActionResult → Option Readback
accepted_readback body = elim body.status [
  | Reported.provider_accepted ↦ if is_empty_text body.provider_guid then none else body.readback
  | other ↦ none
]

-- The mismatches, and one more where the read-back shows another guid.
pub data Difference : Type 0 where
  field_differs : Mismatch → Difference
  guid_differs : Text → Text → Difference

abbrev pub guid_difference : Text → Readback → List Difference
guid_difference guid r = if same_text r.guid guid then [] else guid_differs guid r.guid ∷ []

unfoldable pub compare :
    (Text → Option Text) → Operation → Payload → Readback → Text → Checked (List Mismatch)
unfolding compare_purchase compare_sales
compare compact_date sales_voucher_create p r remote = compare_sales p.sale r remote
compare compact_date _ p r remote = compare_purchase compact_date p.purchase r remote

abbrev pub is_none {ℓ} : {A : Type ℓ} → List A → Bool
is_none [] = true
is_none (x ∷ xs) = false

-- record_verification
abbrev pub record_verification : ℕ → Bool → Store → Store
record_verification id matched s = record s {
  verifications = s.verifications ++ record { action_id = id; matched = matched } ∷ [];
}

abbrev pub accept : Text → Action → Action
accept guid a = record a { status = Status.provider_accepted; external_reference_id = guid }

abbrev pub outcome : Bool → Status
outcome matched = if matched then Status.succeeded else Status.needs_review

pub record Reply : Type 0 where
  pub status : Status
  pub verified : Bool
  pub mismatches : List Difference

module _ (compact_date : Text → Option Text) (str_id : ℕ → Text)
    (projection_raises : Operation → ℕ → Bool) where
  unfoldable pub reject : ActionResult → ℕ → Store → Result Failure (Reply × Store)
  unfolding update_where finish_job
  reject body id s = do
    s' ← update_where (has_id id) (close (final_status body.status)) s
    ok (
      record { status = final_status body.status; verified = false; mismatches = [] },
      finish_job id (final_status body.status) s',
    )

  unfoldable pub differences : Action → Text → Readback → Result Failure (List Difference)
  unfolding compare
  differences a guid r =
      reraise invalid_payload
        (compare compact_date a.operation a.payload r (deterministic_remote_id (str_id a.id)))
      >>= λ ms. ok (map field_differs ms ++ guid_difference guid r)

  unfoldable pub verify : Action → Text → Readback → Store → Result Failure (Reply × Store)
  unfolding differences update_where finish_job
  verify a guid r s = do
    ms ← differences a guid r
    s1 ← update_where (has_id a.id) (accept guid) s
    s2 ← update_where (has_id a.id) (set_status Status.verifying) s1
    raise_if (is_none ms && projection_raises a.operation a.id) projection_error
    s3 ←
        update_where (has_id a.id) (close (outcome (is_none ms)))
          (record_verification a.id (is_none ms) s2)
    ok (
      record { status = outcome (is_none ms); verified = is_none ms; mismatches = ms },
      finish_job a.id (outcome (is_none ms)) s3,
    )

  unfoldable pub settle : ActionResult → Action → Store → Result Failure (Reply × Store)
  unfolding reject verify
  settle body a s = elim (accepted_readback body) [
    | none ↦ reject body a.id s
    | some r ↦ verify a body.provider_guid r s
  ]

  unfoldable pub settle_found :
      ActionResult → Option Action → Store → Result Failure (Reply × Store)
  unfolding settle update_where
  settle_found body none s = raised (conflict action_lease_invalid)
  settle_found body (some a) s =
      update_where (has_id a.id) (set_status Status.executing) s >>= settle body a

  unfoldable pub report_result : Device → ℕ → ActionResult → Store → Result Failure (Reply × Store)
  unfolding settle_found holds_lease
  report_result d id body s = settle_found body (find (holds_lease d id) s.actions) s
