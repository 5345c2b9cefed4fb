-- ===== src/Tally/Agent/Steps.antt =====
-- The routes of firmos-backend/api/routes/tally_agent_actions.py as steps, in any order, by any devices.
use firmos.Base.{ℕ, ◌≤◌, ◌≡◌, refl, Bool, true, Option, inl, inr, Bool-cases, ◌==◌}
use firmos.Base.Lists.{All}
use firmos.Base.Text.{Text}
use firmos.Base.Result.{ok, ensured}
use firmos.Tally.Agent.{Store, Device, Operation}
use firmos.Tally.Agent.Precondition.{Site}
use firmos.Tally.Agent.Claim.{Task, is_expired, claim_action, renew_lease}
use firmos.Tally.Agent.Report.{ActionResult, Reply, report_result}
use firmos.Tally.Agent.Stuck.{
  IsStuck, claim_action-waits, claim_action-keeps, renew_lease-IsStuck, report_result-IsStuck,
}

-- A request of a device that was answered without an exception, or time that passes.
pub data DeviceStep (compact_date : Text → Option Text) (str_id : ℕ → Text) (w : Site)
    (projection_raises : Operation → ℕ → Bool) (s s' : Store) : Type 0 where
  passes :
      (now : ℕ)
      → s' ≡ record s { now = now }
      → DeviceStep compact_date str_id w projection_raises s s'
  claims :
      (d : Device) (task : Option Task)
      → claim_action compact_date str_id w d s ≡ ok (task, s')
      → DeviceStep compact_date str_id w projection_raises s s'
  renews :
      (d : Device) (id : ℕ)
      → renew_lease d id s ≡ ok s'
      → DeviceStep compact_date str_id w projection_raises s s'
  reports :
      (d : Device) (id : ℕ) (body : ActionResult) (reply : Reply)
      → report_result compact_date str_id projection_raises d id body s ≡ ok (reply, s')
      → DeviceStep compact_date str_id w projection_raises s s'

module _ (compact_date : Text → Option Text) (str_id : ℕ → Text) (w : Site)
    (projection_raises : Operation → ℕ → Bool) where
  pub data Reaches (s : Store) : Store → Type 0 where
    starts : Reaches s s
    goes :
        {t u : Store}
        → Reaches s t
        → DeviceStep compact_date str_id w projection_raises t u
        → Reaches s u

  DeviceStep-IsStuck :
      (id : ℕ) {s s' : Store}
      → DeviceStep compact_date str_id w projection_raises s s'
      → IsStuck id s
      → IsStuck id s'
  DeviceStep-IsStuck id (passes now e) h = rw e h
  DeviceStep-IsStuck id {s} (claims d task e) h =
      ensured (task, _) e (claim_action-keeps compact_date str_id w id d s h)
  DeviceStep-IsStuck id {s} (renews d other e) h =
      ensured _ e (renew_lease-IsStuck compact_date str_id w id d other s h)
  DeviceStep-IsStuck id {s} (reports d other body reply e) h =
      ensured (reply, _) e
        (report_result-IsStuck compact_date str_id w id projection_raises d other body s h)

  Reaches-IsStuck : (id : ℕ) {s s' : Store} → Reaches s s' → IsStuck id s → IsStuck id s'
  Reaches-IsStuck id starts h = h
  Reaches-IsStuck id (goes r step) h = DeviceStep-IsStuck id step (Reaches-IsStuck id r h)

  -- Every row of an id is CLAIMED in the device's installation, by a third attempt whose lease ran out.
  abbrev pub HasSpent : ℕ → Device → Store → Type 0
  HasSpent id d s =
      All (λ a. (a.id == id) ≡ true → (is_expired d s.now a ≡ true) × (3 ≤ a.attempt_number))
        s.actions

  -- Once a device claims after the third lease of an action of its installation ran out, the action waits
  -- for a retry for ever: whatever requests and passing of time follow, its rows stay RETRY_SCHEDULED.
  pub claim_action-IsStuck :
      (id : ℕ) (d : Device) (task : Option Task) (s t u : Store)
      → claim_action compact_date str_id w d s ≡ ok (task, t)
      → HasSpent id d s
      → Reaches t u
      → IsStuck id u
  claim_action-IsStuck id d task s t u h spent r = Reaches-IsStuck id r (
      ensured (task, t) h
        (claim_action-waits compact_date str_id w id _ d s
          (λ a p. elim (Bool-cases (is_expired d s.now a)) [
            | inl hit ↦ rw hit (λ e. (refl, (p e).1))
            | inr out ↦ rw out (λ e. let held = (p e).0 in cc)
          ])
          spent))
