-- ===== src/Tally/Agent/Rows.antt =====
-- What an update of finance_actions leaves behind: the statements of
-- firmos-backend/api/routes/tally_agent_actions.py.
use firmos.Base.{
  ℕ, ◌≡◌, refl, ap, sym, ◌∙◌, Bool, true, false, not, ◌&&◌, some, List, [], ◌∷◌, if◌then◌else◌, map,
  inl, inr, Bool-cases, Option-cases, arith, ◌==◌, leb,
}
use firmos.Base.Lists.{All, find}
use firmos.Base.Result.{ok, raised, Ensures, returns, raises, binds, ensured, bind-ok, ok_injective}
use firmos.Actions.Status.{same_status, allowed, succeeded}
use firmos.Actions.Store.{Verification, has_match}
use firmos.Tally.Agent.{has_id, Store, Action, Failure, before_update, update_actions, update_where}
use firmos.Tally.Agent.Claim.{oldest}

abbrev pub changed : (Action → Bool) → (Action → Action) → Action → Action
changed fits change a = if fits a then change a else a

passes :
    (stops unverified : Bool) (a : Action)
    → Ensures
        (λ b. b ≡ a)
        (if stops
          then raised Failure.database_error
          else if unverified
          then raised Failure.database_error
          else ok a)
passes true unverified a = raises _
passes false true a = raises _
passes false false a = returns a refl

one_row :
    (vs : List Verification) (fits : Action → Bool) (change : Action → Action) (a : Action)
    → Ensures
        (λ b. b ≡ changed fits change a)
        (if fits a then before_update vs a (change a) else ok a)
unfolding before_update
one_row vs fits change a = elim (Bool-cases (fits a)) [
  | inr out ↦ rw out (returns a refl)
  | inl hit ↦ rw hit (
      passes
        (not (same_status (change a).status a.status) && not (allowed a.status (change a).status))
        (same_status (change a).status succeeded && not (has_match (change a).id vs)) (change a))
]

pub update_actions-changed :
    (vs : List Verification) (fits : Action → Bool) (change : Action → Action) (l : List Action)
    → Ensures (λ l'. l' ≡ map (changed fits change) l) (update_actions vs fits change l)
unfolding update_actions
update_actions-changed vs fits change [] = returns [] refl
update_actions-changed vs fits change (a ∷ rest) = binds _ _ λ a' ha. binds _ _ λ rest' hr.
    returns (a' ∷ rest') (λ i.
      ensured a' ha (one_row vs fits change a) i
      ∷ ensured rest' hr (update_actions-changed vs fits change rest) i)

-- An update that returns has changed the rows that fit, and nothing else.
pub update_where-changed :
    (fits : Action → Bool) (change : Action → Action) (s s' : Store)
    → update_where fits change s ≡ ok s'
    → s' ≡ record s { actions = map (changed fits change) s.actions }
unfolding update_where
update_where-changed fits change s s' h =
    let (l, hl, e) = bind-ok (update_actions s.verifications fits change s.actions) _ s' h in
    let same = ensured l hl (update_actions-changed s.verifications fits change s.actions) in
    sym (ok_injective e) ∙ ap (λ x. record s { actions = x }) same

pub All-map :
    (P Q : Action → Type 0)
    → (f : Action → Action) → ((a : Action) → P a → Q (f a))
    → (l : List Action) → All P l
    → All Q (map f l)
All-map P Q f step [] h = tt
All-map P Q f step (a ∷ l) h = (step a h.0, All-map P Q f step l h.1)

-- What holds of every row holds of the row that is found.
pub find-All :
    (P : Action → Type 0)
    → (fits : Action → Bool) (l : List Action) (a : Action) → find fits l ≡ some a
    → All P l
    → P a × (fits a ≡ true)
find-All P fits [] a e h = cc
find-All P fits (b ∷ l) a e h = elim (Bool-cases (fits b)) [
  | inl hit ↦ let same : b ≡ a = ground (arith, hit) in rw (sym same) (h.0, hit)
  | inr out ↦ find-All P fits l a (ground (arith, out)) h.1
]

pub oldest-All :
    (P : Action → Type 0)
    → (fits : Action → Bool) (l : List Action) (a : Action) → oldest fits l ≡ some a
    → All P l
    → P a × (fits a ≡ true)
unfolding oldest
oldest-All P fits [] a e h = cc
oldest-All P fits (b ∷ l) a e h = elim (Bool-cases (fits b)) [
  | inr out ↦ oldest-All P fits l a (ground (arith, out)) h.1
  | inl hit ↦ elim (Option-cases (oldest fits l)) [
    | inl missing ↦ let same : b ≡ a = ground (arith, hit, missing) in rw (sym same) (h.0, hit)
    | inr (c, there) ↦ elim (Bool-cases (leb b.created_at c.created_at)) [
      | inl first ↦ let same : b ≡ a = ground (arith, hit, there, first) in rw (sym same) (h.0, hit)
      | inr second ↦
          let same : c ≡ a = ground (arith, hit, there, second) in
          oldest-All P fits l a (there ∙ ap some same) h.1
    ]
  ]
]

-- What is written to the rows of one id stands there.
pub update_where-set :
    (P : Action → Type 0) (id : ℕ) (change : Action → Action) (s s' : Store)
    → ((a : Action) → P (change a))
    → update_where (has_id id) change s ≡ ok s'
    → All (λ a. (a.id == id) ≡ true → P a) s'.actions
update_where-set P id change s s' step h =
    rw (update_where-changed (has_id id) change s s' h) (all_set s.actions)
  where
    all_set :
        (l : List Action)
        → All (λ a. (a.id == id) ≡ true → P a) (map (changed (has_id id) change) l)
    all_set [] = tt
    all_set (a ∷ l) = elim (Bool-cases (a.id == id)) [
      | inl hit ↦ rw hit ((λ _. step a), all_set l)
      | inr other ↦ rw other ((λ e. cc), all_set l)
    ]

-- What the change makes of each row, the update makes of the rows.
pub update_where-All :
    (P Q : Action → Type 0) (fits : Action → Bool) (change : Action → Action) (s s' : Store)
    → ((a : Action) → P a → Q (changed fits change a))
    → update_where fits change s ≡ ok s'
    → All P s.actions
    → All Q s'.actions
update_where-All P Q fits change s s' step h before =
    rw (update_where-changed fits change s s' h)
      (All-map P Q (changed fits change) step s.actions before)
