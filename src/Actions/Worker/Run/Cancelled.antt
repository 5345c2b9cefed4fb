-- ===== src/Actions/Worker/Run/Cancelled.antt =====
-- A run of a job whose action was cancelled meanwhile: firmos-backend/automation/worker.py.
use mathlib.Core.List.{Memᴰ}
use mathlib.Core.List.Memᴰ.{head, tail}
use firmos.Base.{
  ℕ, ap, ◌≡◌, refl, Bool, true, false, Option, none, some, List, [], ◌∷◌, arith, Bool-cases, inl,
  inr,
}
use firmos.Base.Lists.{find}
use firmos.Actions.Codes.{Code, blocked}
use firmos.Actions.Status.{Status, cancelled, failed, executing, same_status, targets, allowed}
use firmos.Actions.Store.{
  Action, Job, Store, Verification, before_update, enforce_transition, update_actions, cons_row,
}
use firmos.Actions.Store.Monad.{database, Result, err, update, commit, resume}
use firmos.Actions.Engine.{set_status}
use firmos.Actions.Worker.{Setting, is_action, write_precondition, exhausted, finish}
use firmos.Actions.Worker.Run.{run_finance_action, run_action, unless_blocked, heartbeat, start}

-- A cancelled action goes nowhere.
cancelled-stays :
    (vs : List Verification) (a b : Action)
    → a.status ≡ cancelled
    → same_status b.status cancelled ≡ false
    → before_update vs a b ≡ none
unfolding before_update enforce_transition allowed targets same_status
cancelled-stays vs a b h ne = ground arith

cons_row-none : (o : Option Action) → cons_row o none ≡ none
cons_row-none none = refl
cons_row-none (some a) = refl

-- One row that the triggers refuse, and the whole UPDATE is refused.
update_actions-refused :
    (vs : List Verification) (fits : Action → Bool) (change : Action → Action) (rows : List Action)
    {a : Action}
    → Memᴰ a rows
    → fits a ≡ true
    → before_update vs a (change a) ≡ none
    → update_actions vs fits change rows ≡ none
unfolding update_actions
update_actions-refused vs fits change [] m hit stop = elim m [ ]
update_actions-refused vs fits change (b ∷ rows) (head e) hit stop = rw (← e, hit, stop) refl
update_actions-refused vs fits change (b ∷ rows) (tail m) hit stop =
    rw (update_actions-refused vs fits change rows m hit stop) (cons_row-none _)

find-mem :
    (p : Action → Bool) (rows : List Action) {a : Action} → find p rows ≡ some a → Memᴰ a rows
find-mem p [] h = cc
find-mem p (b ∷ rows) {a} h = elim (Bool-cases (p b)) [
  | inl hit ↦ let e : some b ≡ some a = rw hit at h in head cc
  | inr miss ↦ tail (find-mem p rows (rw miss at h))
]

find-fits :
    (p : Action → Bool) (rows : List Action) {a : Action} → find p rows ≡ some a → p a ≡ true
find-fits p [] h = cc
find-fits p (b ∷ rows) {a} h = elim (Bool-cases (p b)) [
  | inl hit ↦ let e : some b ≡ some a = rw hit at h in cc
  | inr miss ↦ find-fits p rows (rw miss at h)
]

failed-ne : same_status failed cancelled ≡ false
unfolding same_status
failed-ne = refl

executing-ne : same_status executing cancelled ≡ false
unfolding same_status
executing-ne = refl

module _ (s : Store) (a : Action) (there : Memᴰ a s.actions) (gone : a.status ≡ cancelled) where
  update-refused :
      (fits : Action → Bool) (change : Action → Action)
      → fits a ≡ true
      → same_status (change a).status cancelled ≡ false
      → update fits change s ≡ (err database, s)
  unfolding update
  update-refused fits change hit ne =
      rw
        (
          update_actions-refused s.verifications fits change s.actions there hit
              (cancelled-stays s.verifications a (change a) gone ne),
          update,
        )
        refl

  -- So _finish raises, whatever the outcome that it is to write.
  finish-raises :
      (job : Job) (status : Status) (code : Code)
      → is_action job.aggregate_id a ≡ true
      → same_status status cancelled ≡ false
      → finish job status code s ≡ (err database, s)
  unfolding finish resume commit
  finish-raises job status code hit ne = elim (Bool-cases (exhausted job status)) [
    | inl worn ↦
        simp (worn, update-refused (is_action job.aggregate_id) (set_status failed) hit failed-ne)
          refl
    | inr fresh ↦
        simp (fresh, update-refused (is_action job.aggregate_id) (set_status status) hit ne) refl
  ]

  blocked-raises :
      (e : Setting) (job : Job) (action_id : ℕ) (code : Option Code) (reason : Option ℕ)
      → is_action job.aggregate_id a ≡ true
      → is_action action_id a ≡ true
      → unless_blocked e job action_id code reason s ≡ (err database, s)
  unfolding unless_blocked resume
  blocked-raises e job action_id (some code) reason hit own =
      finish-raises job failed code hit failed-ne
  blocked-raises e job action_id none (some reason) hit own =
      finish-raises job failed (blocked reason) hit failed-ne
  blocked-raises e job action_id none none hit own =
      simp (update-refused (is_action action_id) start own executing-ne) refl

action-raises :
    (worker : ℕ) (e : Setting) (job : Job) (s : Store) (a : Action)
    → Memᴰ a s.actions
    → a.status ≡ cancelled
    → is_action job.aggregate_id a ≡ true
    → (run_action worker e job (some a) s).0 ≡ err database
unfolding run_action heartbeat resume
action-raises worker e job s a there gone hit =
    let beaten = (heartbeat worker a.firm_id s).1 in
    ap (λ (p : Result (Unit {0}) × Store). p.0)
      (blocked-raises beaten a there gone e job a.id (write_precondition e a beaten) e.block_reason
        hit (ground arith))

-- A run of a job whose action is cancelled, the action that the run finds by its id, ends in an
-- exception of the database, whatever the preconditions and the provider's answers: every path comes to
-- an UPDATE that the transition trigger refuses, and no handler of the run catches it.
pub run_finance_action-cancelled :
    (worker : ℕ) (e : Setting) (job : Job) (s : Store) (a : Action)
    → find (is_action job.aggregate_id) s.actions ≡ some a
    → a.status ≡ cancelled
    → (run_finance_action worker e job s).0 ≡ err database
unfolding run_finance_action resume
run_finance_action-cancelled worker e job s a found gone =
    let there = find-mem (is_action job.aggregate_id) s.actions found in
    let hit = find-fits (is_action job.aggregate_id) s.actions found in
    rw found (action-raises worker e job s a there gone hit)
