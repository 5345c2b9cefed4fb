-- ===== src/Tally/Agent/Lease.antt =====
-- The lease of an action that was claimed: claim_action, renew_lease and report_result of
-- firmos-backend/api/routes/tally_agent_actions.py.
use firmos.Base.{
  ℕ, ◌≡◌, refl, ap, sym, ◌∙◌, Bool, true, false, Option, none, some, List, [], ◌∷◌, inl, inr,
  Bool-cases, arith, ◌==◌, ◌+◌,
}
use firmos.Base.Lists.{All, find, any}
use firmos.Base.Text.{Text}
use firmos.Base.Result.{ok, raised, ◌>>=◌, raise_if, Ensures, returns, binds, ensured}
use firmos.Actions.Status.{Status}
use firmos.Actions.Store.{Verification}
use firmos.Tally.Agent.{
  Store, Action, Device, Operation, conflict, action_lease_invalid, holds_lease, is_leased_to,
  update_where, update_actions, update_jobs,
}
use firmos.Tally.Agent.Precondition.{Site}
use firmos.Tally.Agent.Rows.{update_where-set, update_where-changed}
use firmos.Tally.Agent.Claim.{
  oldest, is_claimable, Task, claim_row, lease_seconds, checked_task, take_action, take_oldest,
  claim_action, renew_lease,
}
use firmos.Tally.Agent.Report.{ActionResult, report_result, settle_found}

-- A row that a device holds the lease of.
abbrev pub IsLeased : Device → ℕ → Action → Type 0
IsLeased d now a =
    (a.status ≡ Status.claimed)
    × (a.lease_device_id ≡ some d.id)
    × (a.lease_expires_at ≡ some (now + lease_seconds))

abbrev pub Leased : Device → ℕ → ℕ → Store → Type 0
Leased d now id s = All (λ (a : Action). (a.id == id) ≡ true → IsLeased d now a) s.actions

module _ (compact_date : Text → Option Text) (str_id : ℕ → Text) (w : Site) (d : Device) where
  checked_task-id :
      (now : ℕ) (a : Action)
      → Ensures (λ t. t.action_id ≡ a.id) (checked_task compact_date str_id w d now a)
  unfolding checked_task
  checked_task-id now a =
      binds _ _ λ _ _. binds _ _ λ _ _. binds _ _ λ _ _. binds _ _ λ _ _. returns _ refl

  -- A task names an action whose rows the device has leased.
  abbrev Grants : ℕ → Option Task × Store → Type 0
  Grants now result = (t : Task) → result.0 ≡ some t → Leased d now t.action_id result.1

  take_oldest-Grants :
      (found : Option Action) (s : Store)
      → Ensures (Grants s.now) (take_oldest compact_date str_id w d found s)
  unfolding take_oldest take_action update_jobs
  take_oldest-Grants none s = returns _ (λ t e. cc)
  take_oldest-Grants (some a) s = binds _ _ λ task ht. binds _ _ λ s' hs. returns _ (λ t e.
      let same : a.id ≡ t.action_id =
        sym (ensured task ht (checked_task-id s.now a))
        ∙ ap (λ o. elim o [ some x ↦ x.action_id | none ↦ a.id ]) e in
      rw (sym same) (
        update_where-set (IsLeased d s.now) a.id (claim_row d s.now) s s' (λ b. (refl, refl, refl))
          hs))

  claim_action-Grants :
      (s : Store) → Ensures (Grants s.now) (claim_action compact_date str_id w d s)
  unfolding claim_action
  claim_action-Grants s = binds _ _ λ s1 h1. binds _ _ λ s2 h2.
      let same_now : s2.now ≡ s.now =
        ap (λ x. x.now) (update_where-changed _ _ s1 s2 h2)
        ∙ ap (λ x. x.now) (update_where-changed _ _ s s1 h1) in
      rw (sym same_now) (take_oldest-Grants (oldest (is_claimable d) s2.actions) s2)

not_held :
    (d other : Device) (now id : ℕ) (l : List Action)
    → (d.id == other.id) ≡ false
    → All (λ a. (a.id == id) ≡ true → IsLeased d now a) l
    → (find (holds_lease other id) l ≡ none) × (any (holds_lease other id) l ≡ false)
unfolding holds_lease
not_held d other now id [] far h = (refl, refl)
not_held d other now id (a ∷ l) far h =
    let rest = not_held d other now id l far h.1 in
    elim (Bool-cases (a.id == id)) [
      | inr out ↦ rw out rest
      | inl hit ↦
          let refused : is_leased_to a.lease_device_id other.id ≡ false = rw (h.0 hit).1 far in
          let fails : holds_lease other id a ≡ false = ground (arith, hit, refused) in
          (ground (arith, fails, rest.0), ground (arith, fails, rest.1))
    ]

update_actions-none :
    (vs : List Verification) (fits : Action → Bool) (change : Action → Action) (l : List Action)
    → any fits l ≡ false
    → update_actions vs fits change l ≡ ok l
unfolding update_actions ◌>>=◌
update_actions-none vs fits change [] h = refl
update_actions-none vs fits change (a ∷ l) h =
    let out : fits a ≡ false = ground arith in
    rw out (rw (update_actions-none vs fits change l (ground arith)) refl)

renew_lease-refused :
    (other : Device) (id : ℕ) (s : Store)
    → any (holds_lease other id) s.actions ≡ false
    → renew_lease other id s ≡ raised (conflict action_lease_invalid)
unfolding renew_lease update_where ◌>>=◌ raise_if
renew_lease-refused other id s h =
    rw (update_actions-none s.verifications (holds_lease other id) _ s.actions h) (rw h refl)

report_result-refused :
    (compact_date : Text → Option Text) (str_id : ℕ → Text)
    (projection_raises : Operation → ℕ → Bool) (other : Device) (id : ℕ) (body : ActionResult)
    (s : Store)
    → find (holds_lease other id) s.actions ≡ none
    → report_result compact_date str_id projection_raises other id body s
      ≡ raised (conflict action_lease_invalid)
unfolding report_result settle_found
report_result-refused compact_date str_id projection_raises other id body s h =
    rw (h, settle_found) refl

-- A claim that returns a task leaves each row of the task's action CLAIMED, leased to the device for 90
-- seconds; and until the rows change, a report or a renewal by any other device is refused.
pub claim_action-exclusive :
    (compact_date : Text → Option Text) (str_id : ℕ → Text) (w : Site)
    (projection_raises : Operation → ℕ → Bool) (d other : Device) (t : Task) (body : ActionResult)
    (s s' : Store)
    → claim_action compact_date str_id w d s ≡ ok (some t, s')
    → (d.id == other.id) ≡ false
    → Leased d s.now t.action_id s'
      × (report_result compact_date str_id projection_raises other t.action_id body s'
          ≡ raised (conflict action_lease_invalid))
      × (renew_lease other t.action_id s' ≡ raised (conflict action_lease_invalid))
claim_action-exclusive compact_date str_id w projection_raises d other t body s s' h far =
    let leased = ensured (some t, s') h (claim_action-Grants compact_date str_id w d s) t refl in
    let (unfound, none_held) = not_held d other s.now t.action_id s'.actions far leased in
    (
      leased,
      report_result-refused compact_date str_id projection_raises other t.action_id body s' unfound,
      renew_lease-refused other t.action_id s' none_held,
    )
