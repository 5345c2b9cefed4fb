-- ===== src/Actions/Store/Approval.antt =====
-- The triggers on finance_actions and the approvals and verifications that they guard:
-- supabase/migrations/20260714000005_trust_spine.sql.
use mathlib.Core.Path.{subst}
use firmos.Base.{
  ◌≡◌, ◌≢◌, Bool, true, ◌⊎◌, inl, inr, Option, none, some, List, [], ◌∷◌, arith, Bool-cases,
}
use firmos.Base.Lists.{All}
use firmos.Actions.Status.{
  Status, approved, succeeded, same_status, allowed, is_gated, allowed-gated,
}
use firmos.Actions.Store.{
  Action, Verification, has_match, enforce_transition, require_verified_success, before_update,
  update_actions, cons_row,
}

-- A gated status rests on an approval of the very payload hash of the action.
abbrev pub IsApproved : Action → Type 0
IsApproved a = is_gated a.status ≡ true → a.approved_payload_hash ≡ some a.payload_hash

-- A success rests on a matched read-back.
abbrev pub IsVerified : List Verification → Action → Type 0
IsVerified vs a = same_status a.status succeeded ≡ true → has_match a.id vs ≡ true

pub same_status-gated : (a b : Status) → same_status a b ≡ true → is_gated a ≡ is_gated b
unfolding same_status
same_status-gated a b h = ground arith

module _ (vs : List Verification) (old new c : Action)
    (passed : before_update vs old new ≡ some c) where
  -- Only the version may differ from what was to be written.
  pub before_update-keeps :
      (c.status ≡ new.status)
      × (c.id ≡ new.id)
      × (c.payload ≡ new.payload)
      × (c.payload_hash ≡ new.payload_hash)
      × (c.approved_payload_hash ≡ new.approved_payload_hash)
  unfolding before_update enforce_transition require_verified_success
  before_update-keeps = ground arith

  pub before_update-moves :
      (same_status new.status old.status ≡ true) ⊎ (allowed old.status new.status ≡ true)
  unfolding before_update enforce_transition
  before_update-moves = ground arith

  pub before_update-IsVerified : IsVerified vs c
  unfolding before_update enforce_transition require_verified_success
  before_update-IsVerified h = ground arith

  -- Unless it writes `approved`, an update that leaves the two hashes alone keeps the approval.
  pub before_update-IsApproved :
      IsApproved old
      → new.status ≢ approved
      → new.payload_hash ≡ old.payload_hash
      → new.approved_payload_hash ≡ old.approved_payload_hash
      → IsApproved c
  before_update-IsApproved h ne same_hash same_approved g =
      let kept = before_update-keeps in
      let gated : is_gated new.status ≡ true = cc in
      let was_gated : is_gated old.status ≡ true = elim before_update-moves [
        | inl same ↦ let e = same_status-gated new.status old.status same in cc
        | inr moved ↦ allowed-gated old.status new.status moved gated ne
      ] in
      let approval = h was_gated in cc

cons_row-cons :
    (o : Option Action) (r : Option (List Action)) {c : Action} {cs : List Action}
    → cons_row o r ≡ some (c ∷ cs)
    → (o ≡ some c) × (r ≡ some cs)
cons_row-cons none r h = cc
cons_row-cons (some a) none h = cc
cons_row-cons (some a) (some l) h = (cc, cc)

cons_row-ne-nil : (o : Option Action) (r : Option (List Action)) → cons_row o r ≢ some []
cons_row-ne-nil none r h = cc
cons_row-ne-nil (some a) none h = cc
cons_row-ne-nil (some a) (some l) h = cc

-- What every row has after an UPDATE, if each row that was changed has it and so had all before.
module _ {ℓ} (P : Action → Type ℓ) (vs : List Verification) (fits : Action → Bool)
    (change : Action → Action) where
  pub update_actions-All :
      ((a c : Action) → P a → fits a ≡ true → before_update vs a (change a) ≡ some c → P c)
      → (rows rows' : List Action) → All P rows
      → update_actions vs fits change rows ≡ some rows'
      → All P rows'
  unfolding update_actions
  update_actions-All row [] [] h e = tt
  update_actions-All row [] (c ∷ cs) h e = cc
  update_actions-All row (a ∷ rest) [] h e = absurd (cons_row-ne-nil _ _ e)
  update_actions-All row (a ∷ rest) (c ∷ cs) h e =
      let parts = cons_row-cons _ _ e in
      (
        elim (Bool-cases (fits a)) [
          | inl hit ↦ row a c h.0 hit (rw hit at parts.0)
          | inr miss ↦
              let same : some a ≡ some c = rw miss at parts.0 in
              let e' : a ≡ c = cc in subst P e' h.0
        ],
        update_actions-All row rest cs h.1 parts.1,
      )
