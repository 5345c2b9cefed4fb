-- ===== src/Actions/Engine/Safety.antt =====
-- The approvals of finance actions under propose, approve and cancel:
-- firmos-backend/core/finance_actions/engine.py.
use firmos.Base.{ℕ, ◌≡◌, ◌≢◌, refl, Bool, true, false, List, [], ◌∷◌, ◌++◌, if◌then◌else◌, arith}
use firmos.Base.Lists.{All, All-append}
use firmos.Actions.Status.{Status, approved, queued, cancelled, is_gated}
use firmos.Actions.Store.{Action, Job, Draft, Store}
use firmos.Actions.Store.Approval.{IsApproved, before_update-keeps, before_update-IsApproved}
use firmos.Actions.Store.Keeps.{
  Keeps, after, Keeps-or_raise, Rows, RowKeeps, Keeps-update_returning,
}
use firmos.Actions.Store.Monad.{update_returning, not_found, not_awaiting, database, only_unclaimed}
use firmos.Actions.Engine.{
  get_action, Proposal, repeat_proposal, insert_action, proposed, propose_action, enqueue,
  awaiting_with, approve_row, set_status, approve_action, cancellable, cancel_action, has_id,
  has_key,
}

abbrev Inv : Store → Type 0
Inv = Rows IsApproved

-- A change of the status to another than `approved`.
pub set_status-RowKeeps :
    (fits : Action → Bool) (status : Status)
    → status ≢ approved
    → RowKeeps IsApproved fits (set_status status)
set_status-RowKeeps fits status ne vs a c h hit e =
    before_update-IsApproved vs a (set_status status a) c e h ne refl refl

-- The approval itself writes the hash that it has compared.
approve-RowKeeps :
    (action_id firm by hash now : ℕ)
    → RowKeeps IsApproved (awaiting_with action_id firm hash) (approve_row by hash now)
approve-RowKeeps action_id firm by hash now vs a c h hit e g =
    let kept = before_update-keeps vs a (approve_row by hash now a) c e in
    let same : a.payload_hash ≡ hash = ground arith in cc

to_queued : (action_id firm : ℕ) → RowKeeps IsApproved (has_id action_id firm) (set_status queued)
to_queued action_id firm = set_status-RowKeeps (has_id action_id firm) queued (λ e. cc)

-- A repeated proposal writes the row as it is.
untouched : (p : Proposal) → RowKeeps IsApproved (has_key p.firm_id p.idempotency_key) (λ a. a)
untouched p vs a c h hit e g =
    let kept = before_update-keeps vs a a c e in
    let gated : is_gated a.status ≡ true = cc in let approval = h gated in cc

waits : (digest : ℕ → ℕ) (p : Proposal) → IsApproved (proposed digest p)
unfolding proposed
waits digest p g = cc

pub enqueue-actions : (action_id : ℕ) (s : Store) → (enqueue action_id s).actions ≡ s.actions
unfolding enqueue
enqueue-actions action_id s = ground arith

pub enqueue-verifications :
    (action_id : ℕ) (s : Store) → (enqueue action_id s).verifications ≡ s.verifications
unfolding enqueue
enqueue-verifications action_id s = ground arith

-- The blocks, for any invariant that their statements keep.
module _ (K : Store → Type 0) where
  pub approve_rule :
      (action_id firm by hash : ℕ)
      → ((now : ℕ)
          → Keeps K
              (update_returning (awaiting_with action_id firm hash) (approve_row by hash now)))
      → Keeps K (update_returning (has_id action_id firm) (set_status queued))
      → ((s : Store) → K s → K (record s { outbox = s.outbox ++ action_id ∷ [] }))
      → ((s : Store) → K s → K (enqueue action_id s))
      → Keeps K (approve_action action_id firm by hash)
  unfolding approve_action get_action
  approve_rule action_id firm by hash approving queueing event job s h = after K _ _ h λ found s h.
      after K _ _ (Keeps-or_raise K found not_found s h) λ action s h. after K _ _ h λ _ s h.
        after K _ _ h λ now s h. after K _ _ (approving now s h) λ row s h.
          after K _ _ (Keeps-or_raise K row not_awaiting s h) λ _ s h.
            after K _ _ (queueing s h) λ row s h.
              after K _ _ (Keeps-or_raise K row database s h)
                λ result s h. after K _ _ (event s h) λ _ s h. after K _ _ (job s h) λ _ s h. h

  pub cancel_rule :
      (action_id firm : ℕ)
      → Keeps K (update_returning (cancellable action_id firm) (set_status cancelled))
      → ((s : Store) (jobs : List Job) (drafts : List Draft)
          → K s
          → K (record s { jobs = jobs; drafts = drafts }))
      → Keeps K (cancel_action action_id firm)
  unfolding cancel_action
  cancel_rule action_id firm cancelling rest s h = after K _ _ (cancelling s h) λ row s h.
      after K _ _ (Keeps-or_raise K row only_unclaimed s h) λ result s h.
        after K _ _ (rest s _ s.drafts h) λ _ s h. after K _ _ (rest s s.jobs _ h) λ _ s h. h

  pub propose_rule :
      (digest : ℕ → ℕ) (p : Proposal)
      → Keeps K (update_returning (has_key p.firm_id p.idempotency_key) (λ a. a))
      → ((s : Store) → K s → K (record s { actions = s.actions ++ proposed digest p ∷ [] }))
      → Keeps K (propose_action digest p)
  unfolding propose_action
  propose_rule digest p again insert s h = after K _ _ h λ conflict s h. choice conflict s h
    where
      choice :
          (b : Bool) (s : Store)
          → K s
          → K ((if b then repeat_proposal p else insert_action (proposed digest p)) s).1
      choice true s h = after K _ _ (again s h) λ row s h. Keeps-or_raise K row database s h
      choice false s h = after K _ _ (insert s h) λ _ s h. h

-- If every action in a gated status carries an approval of its own payload hash, so it is after
-- approve_action, on every path: the action not found, a stale hash, an action that no longer waits,
-- a refusal of the database, and success.
pub approve_action-IsApproved :
    (action_id firm by hash : ℕ) (s : Store)
    → All IsApproved s.actions
    → All IsApproved (approve_action action_id firm by hash s).1.actions
approve_action-IsApproved action_id firm by hash =
    approve_rule Inv action_id firm by hash
      (λ now.
        Keeps-update_returning IsApproved (awaiting_with action_id firm hash)
          (approve_row by hash now) (approve-RowKeeps action_id firm by hash now))
      (Keeps-update_returning IsApproved (has_id action_id firm) (set_status queued)
        (to_queued action_id firm))
      (λ s h. h) (λ s h. rw (enqueue-actions action_id s) h)

-- If every action in a gated status carries an approval of its own payload hash, so it is after
-- cancel_action, on every path.
pub cancel_action-IsApproved :
    (action_id firm : ℕ) (s : Store)
    → All IsApproved s.actions
    → All IsApproved (cancel_action action_id firm s).1.actions
cancel_action-IsApproved action_id firm =
    cancel_rule Inv action_id firm
      (Keeps-update_returning IsApproved (cancellable action_id firm) (set_status cancelled)
        (set_status-RowKeeps (cancellable action_id firm) cancelled (λ e. cc)))
      (λ s jobs drafts h. h)

-- If every action in a gated status carries an approval of its own payload hash, so it is after
-- propose_action, whether the proposal is new or repeats an idempotency key.
pub propose_action-IsApproved :
    (digest : ℕ → ℕ) (p : Proposal) (s : Store)
    → All IsApproved s.actions
    → All IsApproved (propose_action digest p s).1.actions
propose_action-IsApproved digest p =
    propose_rule Inv digest p
      (Keeps-update_returning IsApproved (has_key p.firm_id p.idempotency_key) (λ a. a)
        (untouched p))
      (λ s h. All-append IsApproved s.actions (proposed digest p ∷ []) h (waits digest p, tt))
