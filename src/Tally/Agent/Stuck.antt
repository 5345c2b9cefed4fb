-- ===== src/Tally/Agent/Stuck.antt =====
-- An action whose third lease runs out: the routes of firmos-backend/api/routes/tally_agent_actions.py as steps.
use firmos.Base.{
  ℕ, ◌≤◌, ◌≡◌, refl, sym, Bool, true, false, Option, none, some, inl, inr, Bool-cases, Option-cases,
  arith, ◌==◌, ltb,
}
use firmos.Base.Lists.{All, find}
use firmos.Base.Text.{Text}
use firmos.Base.Result.{ok, Ensures, returns, raises, binds}
use firmos.Actions.Status.{Status, same_status}
use firmos.Tally.Agent.{
  Store, Action, Device, Operation, holds_lease, update_where, update_jobs, has_id, set_status,
}
use firmos.Tally.Agent.Precondition.{Site}
use firmos.Tally.Agent.Rows.{changed, update_where-All, find-All, oldest-All}
use firmos.Tally.Agent.Claim.{
  is_expired, release, is_retriable, is_claimable, oldest, claim_row, take_action, take_oldest,
  claim_action, renew_lease, max_attempts,
}
use firmos.Tally.Agent.Report.{
  ActionResult, finish_job, reject, verify, settle, settle_found, report_result, accepted_readback,
}

-- Every row of an id waits for a retry and has had its three attempts.
abbrev pub WaitsSpent : ℕ → Action → Type 0
WaitsSpent id a = (a.id == id) ≡ true → (a.status ≡ Status.retry_scheduled) × (3 ≤ a.attempt_number)

abbrev pub IsStuck : ℕ → Store → Type 0
IsStuck id s = All (WaitsSpent id) s.actions

-- An update that fits no such row keeps them.
keeps :
    (id : ℕ) (fits : Action → Bool) (change : Action → Action) (s s' : Store)
    → ((a : Action) → (change a).id ≡ a.id)
    → ((a : Action) → WaitsSpent id a → fits a ≡ true → (a.id == id) ≡ false)
    → update_where fits change s ≡ ok s'
    → IsStuck id s
    → IsStuck id s'
keeps id fits change s s' same_id far =
    update_where-All (WaitsSpent id) (WaitsSpent id) fits change s s' λ a waits.
      elim (Bool-cases (fits a)) [
        | inr out ↦ rw out waits
        | inl hit ↦
            rw hit λ e.
              let other : ((change a).id == id) ≡ false = rw (same_id a) (far a waits hit) in cc
      ]

-- A row with another status has another id.
other_id :
    (id : ℕ) (status : Status) (a : Action)
    → same_status Status.retry_scheduled status ≡ false
    → same_status a.status status ≡ true
    → WaitsSpent id a
    → (a.id == id) ≡ false
other_id id status a differs is_so waits = elim (Bool-cases (a.id == id)) [
  | inr out ↦ out
  | inl hit ↦
      let same : same_status Status.retry_scheduled status ≡ true = rw (sym (waits hit).0) is_so in
      cc
]

spent_id :
    (id : ℕ) (a : Action)
    → ltb a.attempt_number max_attempts ≡ true
    → WaitsSpent id a
    → (a.id == id) ≡ false
spent_id id a few waits = elim (Bool-cases (a.id == id)) [
  | inr out ↦ out
  | inl hit ↦ ground (arith, (waits hit).1)
]

module _ (compact_date : Text → Option Text) (str_id : ℕ → Text) (w : Site) (id : ℕ) where
  take_oldest-IsStuck :
      (d : Device) (found : Option Action) (s : Store)
      → ((a : Action) → found ≡ some a → (a.id == id) ≡ false)
      → IsStuck id s
      → Ensures (λ r. IsStuck id r.1) (take_oldest compact_date str_id w d found s)
  unfolding take_oldest take_action update_jobs
  take_oldest-IsStuck d none s far h = returns _ h
  take_oldest-IsStuck d (some a) s far h = binds _ _ λ task _. binds _ _ λ s' hs.
      let apart = far a refl in
      returns _
        (keeps id (has_id a.id) (claim_row d s.now) s s' (λ b. refl) (λ b _ hit. ground arith) hs h)

  -- Whatever the rows were, when the release of expired leases makes them wait.
  pub claim_action-waits :
      (P : Action → Type 0) (d : Device) (s : Store)
      → ((a : Action) → P a → WaitsSpent id (changed (is_expired d s.now) release a))
      → All P s.actions
      → Ensures (λ r. IsStuck id r.1) (claim_action compact_date str_id w d s)
  unfolding claim_action same_status
  claim_action-waits P d s step h = binds _ _ λ s1 h1. binds _ _ λ s2 h2.
      let stuck1 = update_where-All P (WaitsSpent id) (is_expired d s.now) release s s1 step h1 h in
      let stuck2 =
        keeps id (is_retriable d) (set_status Status.queued) s1 s2 (λ b. refl)
          (λ b waits hit. spent_id id b (ground arith) waits) h2 stuck1 in
      take_oldest-IsStuck d (oldest (is_claimable d) s2.actions) s2
        (λ b found.
          let (waits, hit) =
            oldest-All (WaitsSpent id) (is_claimable d) s2.actions b found stuck2 in
          spent_id id b (ground arith) waits)
        stuck2

  pub claim_action-keeps :
      (d : Device) (s : Store)
      → IsStuck id s
      → Ensures (λ r. IsStuck id r.1) (claim_action compact_date str_id w d s)
  unfolding same_status
  claim_action-keeps d s = claim_action-waits (WaitsSpent id) d s λ a waits.
      elim (Bool-cases (is_expired d s.now a)) [
        | inr out ↦ rw out waits
        | inl hit ↦
            let other = other_id id Status.claimed a refl (ground arith) waits in rw hit (λ e. cc)
      ]

  pub renew_lease-IsStuck :
      (d : Device) (other : ℕ) (s : Store)
      → IsStuck id s
      → Ensures (IsStuck id) (renew_lease d other s)
  unfolding renew_lease holds_lease same_status
  renew_lease-IsStuck d other s h = binds _ _ λ s' hs. binds _ _ λ _ _. returns _ (
      keeps id (holds_lease d other) _ s s' (λ b. refl)
        (λ b waits hit. other_id id Status.claimed b refl (ground arith) waits) hs h)

  -- The updates of a report are of the rows of the action that was found.
  module _ (projection_raises : Operation → ℕ → Bool) (a : Action)
      (far : (a.id == id) ≡ false) where
    row-keeps :
        (change : Action → Action) (s s' : Store)
        → ((b : Action) → (change b).id ≡ b.id)
        → update_where (has_id a.id) change s ≡ ok s'
        → IsStuck id s
        → IsStuck id s'
    row-keeps change s s' same_id =
        keeps id (has_id a.id) change s s' same_id (λ b _ hit. ground arith)

    settle-IsStuck :
        (body : ActionResult) (s : Store)
        → IsStuck id s
        → Ensures (λ r. IsStuck id r.1) (settle compact_date str_id projection_raises body a s)
    unfolding settle reject verify finish_job update_jobs
    settle-IsStuck body s h = elim (Option-cases (accepted_readback body)) [
      | inl missing ↦
          rw (missing, settle) (binds _ _ λ s' hs. returns _ (row-keeps _ s s' (λ b. refl) hs h))
      | inr (r, there) ↦
          rw (there, settle)
            (binds _ _ λ ms _. binds _ _ λ s1 h1. binds _ _ λ s2 h2. binds _ _ λ _ _.
              binds _ _ λ s3 h3. returns _ (
                row-keeps _ _ s3 (λ b. refl) h3
                  (row-keeps _ s1 s2 (λ b. refl) h2 (row-keeps _ s s1 (λ b. refl) h1 h))))
    ]

  settle_found-IsStuck :
      (projection_raises : Operation → ℕ → Bool) (body : ActionResult) (found : Option Action)
      (s : Store)
      → ((a : Action) → found ≡ some a → (a.id == id) ≡ false)
      → IsStuck id s
      → Ensures
          (λ r. IsStuck id r.1)
          (settle_found compact_date str_id projection_raises body found s)
  unfolding settle_found
  settle_found-IsStuck raises_if body none s far h = raises _
  settle_found-IsStuck raises_if body (some a) s far h = binds _ _ λ s' hs.
      settle-IsStuck raises_if a (far a refl) body s'
        (row-keeps raises_if a (far a refl) _ s s' (λ b. refl) hs h)

  pub report_result-IsStuck :
      (projection_raises : Operation → ℕ → Bool) (d : Device) (other : ℕ) (body : ActionResult)
      (s : Store)
      → IsStuck id s
      → Ensures
          (λ r. IsStuck id r.1)
          (report_result compact_date str_id projection_raises d other body s)
  unfolding report_result holds_lease same_status
  report_result-IsStuck raises_if d other body s h =
      settle_found-IsStuck raises_if body (find (holds_lease d other) s.actions) s
        (λ a found.
          let (waits, hit) = find-All (WaitsSpent id) (holds_lease d other) s.actions a found h in
          other_id id Status.claimed a refl (ground arith) waits)
        h
