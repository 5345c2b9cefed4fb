-- ===== src/Actions/System/Safety.antt =====
-- Theorems on the tables after any sequence of operations on finance actions.
use mathlib.Core.Path.{subst, sym}
use mathlib.Core.List.{Memᴰ}
use mathlib.Core.List.Memᴰ.{head, tail}
use firmos.Base.{ℕ, ◌≡◌, Bool, true, some, List, [], ◌∷◌, ◌++◌, Option-cases, inl, inr, arith}
use firmos.Base.Lists.{All, All-append}
use firmos.Actions.Status.{succeeded, same_status, is_gated}
use firmos.Actions.Store.{Action, Store, Verification, has_match, update_actions}
use firmos.Actions.Store.Approval.{
  IsApproved, IsVerified, before_update-IsVerified, update_actions-All,
}
use firmos.Actions.Store.Keeps.{Keeps, Rows}
use firmos.Actions.Store.Monad.{update, update_returning}
use firmos.Actions.Engine.{Proposal, proposed, enqueue}
use firmos.Actions.Engine.Safety.{
  approve_rule, cancel_rule, propose_rule, enqueue-actions, enqueue-verifications,
  approve_action-IsApproved, cancel_action-IsApproved, propose_action-IsApproved,
}
use firmos.Actions.Worker.Run.Rules.{run_rule, claim_rule, tick_rule}
use firmos.Actions.Worker.Run.Safety.{
  run_finance_action-IsApproved, claim-IsApproved, tick-IsApproved,
}
use firmos.Actions.System.{
  Step, passes, proposes, approves, cancels, claims, runs, ticks, Reaches, starts, goes,
}

-- Every success rests on a matched read-back.
abbrev Checked : Store → Type 0
Checked s = All (IsVerified s.verifications) s.actions

-- The trigger checks every row that is written, so every UPDATE keeps it.
Keeps-update-Checked :
    (fits : Action → Bool) (change : Action → Action) → Keeps Checked (update fits change)
unfolding update
Keeps-update-Checked fits change s h =
    elim (Option-cases (update_actions s.verifications fits change s.actions)) [
      | inl failed ↦ rw (failed, update) h
      | inr (rows, e) ↦
          rw (e, update)
            (update_actions-All (IsVerified s.verifications) s.verifications fits change
              (λ a c _ _ passed. before_update-IsVerified s.verifications a (change a) c passed)
              s.actions rows h e)
    ]

Keeps-update_returning-Checked :
    (fits : Action → Bool) (change : Action → Action) → Keeps Checked (update_returning fits change)
unfolding update_returning
Keeps-update_returning-Checked fits change s h =
    elim (Option-cases (update_actions s.verifications fits change s.actions)) [
      | inl failed ↦ rw (failed, update_returning) h
      | inr (rows, e) ↦
          rw (e, update_returning)
            (update_actions-All (IsVerified s.verifications) s.verifications fits change
              (λ a c _ _ passed. before_update-IsVerified s.verifications a (change a) c passed)
              s.actions rows h e)
    ]

-- A further result of a read-back takes nothing away.
has_match-append :
    (action_id : ℕ) (vs ws : List Verification)
    → has_match action_id vs ≡ true
    → has_match action_id (vs ++ ws) ≡ true
unfolding has_match
has_match-append action_id [] ws h = cc
has_match-append action_id (v ∷ vs) ws h = ground (arith, has_match-append action_id vs ws)

Checked-more :
    (vs ws : List Verification) (rows : List Action)
    → All (IsVerified vs) rows
    → All (IsVerified (vs ++ ws)) rows
Checked-more vs ws [] h = tt
Checked-more vs ws (a ∷ rows) h =
    ((λ e. has_match-append a.id vs ws (h.0 e)), Checked-more vs ws rows h.1)

framed :
    (s s' : Store)
    → s'.actions ≡ s.actions
    → s'.verifications ≡ s.verifications
    → Checked s
    → Checked s'
framed s s' e f h = rw (e, f) h

more :
    (s : Store) (v : Verification)
    → Checked s
    → Checked (record s { verifications = s.verifications ++ v ∷ [] })
more s v h = Checked-more s.verifications (v ∷ []) s.actions h

not_yet :
    (digest : ℕ → ℕ) (p : Proposal) (vs : List Verification) → IsVerified vs (proposed digest p)
unfolding proposed same_status
not_yet digest p vs e = cc

Step-Checked : (digest : ℕ → ℕ) (s t : Store) → Step digest s t → Checked s → Checked t
Step-Checked digest _ _ (passes s now) h = h
Step-Checked digest _ _ (proposes s p) h =
    propose_rule Checked digest p (Keeps-update_returning-Checked _ _)
      (λ s h.
        All-append (IsVerified s.verifications) s.actions (proposed digest p ∷ []) h
          (not_yet digest p s.verifications, tt))
      s h
Step-Checked digest _ _ (approves s action_id firm by hash) h =
    approve_rule Checked action_id firm by hash (λ now. Keeps-update_returning-Checked _ _)
      (Keeps-update_returning-Checked _ _) (λ s h. h)
      (λ s h.
        framed s (enqueue action_id s) (enqueue-actions action_id s)
          (enqueue-verifications action_id s) h)
      s h
Step-Checked digest _ _ (cancels s action_id firm) h =
    cancel_rule Checked action_id firm (Keeps-update_returning-Checked _ _) (λ s jobs drafts h. h) s
      h
Step-Checked digest _ _ (claims s worker) h =
    claim_rule Checked (λ fits change _. Keeps-update-Checked fits change) framed more worker s h
Step-Checked digest _ _ (runs s worker e job) h =
    run_rule Checked (λ fits change _. Keeps-update-Checked fits change) framed more worker e job s
      h
Step-Checked digest _ _ (ticks s) h =
    tick_rule Checked (λ fits change _. Keeps-update-Checked fits change) framed more s h

Step-IsApproved :
    (digest : ℕ → ℕ) (s t : Store) → Step digest s t → Rows IsApproved s → Rows IsApproved t
Step-IsApproved digest _ _ (passes s now) h = h
Step-IsApproved digest _ _ (proposes s p) h = propose_action-IsApproved digest p s h
Step-IsApproved digest _ _ (approves s action_id firm by hash) h =
    approve_action-IsApproved action_id firm by hash s h
Step-IsApproved digest _ _ (cancels s action_id firm) h =
    cancel_action-IsApproved action_id firm s h
Step-IsApproved digest _ _ (claims s worker) h = claim-IsApproved worker s h
Step-IsApproved digest _ _ (runs s worker e job) h = run_finance_action-IsApproved worker e job s h
Step-IsApproved digest _ _ (ticks s) h = tick-IsApproved s h

module _ (digest : ℕ → ℕ) (Inv : Store → Type 0)
    (step : (s t : Store) → Step digest s t → Inv s → Inv t) where
  Reaches-keeps : {s t : Store} → Reaches digest s t → Inv s → Inv t
  Reaches-keeps starts h = h
  Reaches-keeps (goes path last) h = step _ _ last (Reaches-keeps path h)

All-lookup :
    (P : Action → Type 0) (rows : List Action) {a : Action} → All P rows → Memᴰ a rows → P a
All-lookup P [] h m = elim m [ ]
All-lookup P (b ∷ rows) h (head e) = subst P (sym e) h.0
All-lookup P (b ∷ rows) h (tail m) = All-lookup P rows h.1 m

-- From tables with no action, whatever is proposed, approved, cancelled, claimed, run and released,
-- in any order and with any answers of the provider: an action in a gated status (approved, queued or
-- any later one but cancelled) carries an approval of its own payload hash.
pub reached-approved :
    (digest : ℕ → ℕ) (s t : Store) (a : Action)
    → s.actions ≡ []
    → Reaches digest s t
    → Memᴰ a t.actions
    → is_gated a.status ≡ true
    → a.approved_payload_hash ≡ some a.payload_hash
reached-approved digest s t a none_yet path there =
    All-lookup IsApproved t.actions
      (Reaches-keeps digest (Rows IsApproved) (Step-IsApproved digest) path (rw none_yet tt)) there

-- From tables with no action, whatever is proposed, approved, cancelled, claimed, run and released,
-- in any order and with any answers of the provider: an action that succeeded has a verification that
-- matched.
pub reached-verified :
    (digest : ℕ → ℕ) (s t : Store) (a : Action)
    → s.actions ≡ []
    → Reaches digest s t
    → Memᴰ a t.actions
    → same_status a.status succeeded ≡ true
    → has_match a.id t.verifications ≡ true
reached-verified digest s t a none_yet path there =
    All-lookup (IsVerified t.verifications) t.actions
      (Reaches-keeps digest Checked (Step-Checked digest) path (rw none_yet tt)) there
