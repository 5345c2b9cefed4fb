-- ===== src/Tally/Agent/Denied.antt =====
-- The claims of a release that certifies no version of Tally: connectors/tally/versions.py and
-- api/routes/tally_agent_actions.py of firmos-backend.
use firmos.Base.{ℕ, ◌≡◌, refl, Option, none, some, inl, inr, ◌==◌, Bool-cases, Option-cases}
use firmos.Base.Lists.{find}
use firmos.Base.Text.{Text}
use firmos.Base.Result.{ok, ◌>>=◌, Ensures, returns, raises, binds, ensured}
use firmos.Tally.Agent.{
  Store, Action, Device, Operation, Reason, tally_license_unsupported, tally_version_uncertified,
  device_unhealthy, conflict,
}
use firmos.Tally.Agent.Precondition.{
  Site, DeviceRow, is_educational, is_healthy, xml_write, device_reason, precondition,
  certified_tally_versions,
}
use firmos.Tally.Agent.Claim.{
  Task, raise_reason, checked_task, take_action, take_oldest, claim_action, oldest, is_claimable,
}

-- No task, and no action that could be one.
abbrev Nothing : Device → Option Task × Store → Type 0
Nothing d r = (r.0 ≡ none) × (oldest (is_claimable d) r.1.actions ≡ none)

module _ (w : Site) (none_certified : w.certified_versions ≡ certified_tally_versions)
    (d : Device) where
  device_reason-denied :
      (operation : Operation) (row : DeviceRow)
      → (r : Reason) × (device_reason w d operation row ≡ some r)
  unfolding device_reason xml_write
  device_reason-denied operation row = elim (Bool-cases (is_educational row.license_mode)) [
    | inl school ↦ rw school (tally_license_unsupported, refl)
    | inr business ↦ rw business (rw none_certified (tally_version_uncertified, refl))
  ]

  precondition-denied :
      (now : ℕ) (operation : Operation) → (r : Reason) × (precondition w now d operation ≡ some r)
  unfolding precondition
  precondition-denied now operation = elim (Option-cases (find (λ r. r.id == d.id) w.devices)) [
    | inl missing ↦ rw (missing, precondition) (device_unhealthy, refl)
    | inr (row, there) ↦
        rw (there, precondition)
          (elim (Bool-cases (is_healthy now row.last_seen_at)) [
            | inl healthy ↦ rw healthy (device_reason-denied operation row)
            | inr silent ↦ rw silent (device_unhealthy, refl)
          ])
  ]

  module _ (compact_date : Text → Option Text) (str_id : ℕ → Text) where
    take_oldest-denied :
        (found : Option Action) (s : Store)
        → oldest (is_claimable d) s.actions ≡ found
        → Ensures (Nothing d) (take_oldest compact_date str_id w d found s)
    unfolding take_oldest take_action checked_task ◌>>=◌ raise_reason
    take_oldest-denied none s e = returns _ (refl, e)
    take_oldest-denied (some a) s e =
        let (r, denied) = precondition-denied s.now a.operation in rw denied (raises (conflict r))

-- While no version of Tally is certified, as in the source, a claim gives no task: one that is answered
-- without an exception found no claimable action after it had released the expired leases.
pub claim_action-denied :
    (compact_date : Text → Option Text) (str_id : ℕ → Text) (w : Site) (d : Device)
    (task : Option Task) (s s' : Store)
    → w.certified_versions ≡ certified_tally_versions
    → claim_action compact_date str_id w d s ≡ ok (task, s')
    → (task ≡ none) × (oldest (is_claimable d) s'.actions ≡ none)
unfolding claim_action
claim_action-denied compact_date str_id w d task s s' none_certified h =
    ensured {P = Nothing d} (task, s') h
      (binds _ _ λ s1 _. binds _ _ λ s2 _.
        take_oldest-denied w none_certified d compact_date str_id
          (oldest (is_claimable d) s2.actions) s2 refl)
