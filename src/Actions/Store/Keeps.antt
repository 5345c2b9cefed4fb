-- ===== src/Actions/Store/Keeps.antt =====
-- Rules for invariants of the tables, for statements and for what is composed of them.
use firmos.Base.{◌≡◌, Bool, true, Option, none, some, List, Option-cases, inl, inr}
use firmos.Base.Lists.{All}
use firmos.Actions.Store.{Action, Store, Verification, before_update, update_actions}
use firmos.Actions.Store.Approval.{update_actions-All}
use firmos.Actions.Store.Monad.{
  Error, Result, ok, err, Db, or_raise, transaction, resume, commit, recover, on_error,
  update_returning, update,
}

module _ (Inv : Store → Type 0) where
  abbrev pub Keeps : {A : Type 0} → Db A → Type 0
  Keeps m = (s : Store) → Inv s → Inv (m s).1

  -- What a statement leaves, the rest of the block goes on from.
  pub after :
      {A B : Type 0} (p : Result A × Store) (f : A → Db B)
      → Inv p.1
      → ((a : A) (s : Store) → Inv s → Inv (f a s).1)
      → Inv (resume p f).1
  unfolding resume
  after (ok a, s) f h rest = rest a s h
  after (err e, s) f h rest = h

  pub Keeps-transaction : {A : Type 0} (m : Db A) → Keeps m → Keeps (transaction m)
  unfolding commit
  Keeps-transaction {A} m hm s h = go (m s) (hm s h)
    where
      go : (p : Result A × Store) → Inv p.1 → Inv (commit s p).1
      go (ok a, s') h' = h'
      go (err e, s') h' = h

  pub Keeps-on_error :
      {A : Type 0} (m handler : Db A) → Keeps m → Keeps handler → Keeps (on_error m handler)
  unfolding recover
  Keeps-on_error {A} m handler hm hh s h = go (m s) (hm s h)
    where
      go : (p : Result A × Store) → Inv p.1 → Inv (recover handler p).1
      go (ok a, s') h' = h'
      go (err e, s') h' = hh s' h'

  pub Keeps-or_raise : {A : Type 0} (o : Option A) (e : Error) → Keeps (or_raise o e)
  Keeps-or_raise none e s h = h
  Keeps-or_raise (some a) e s h = h

-- The rows of finance_actions, one by one.
module _ (P : Action → Type 0) where
  abbrev pub Rows : Store → Type 0
  Rows s = All P s.actions

  -- The change of a row that an UPDATE makes keeps what holds of the rows.
  abbrev pub RowKeeps : (Action → Bool) → (Action → Action) → Type 0
  RowKeeps fits change =
      (vs : List Verification) (a c : Action)
      → P a
      → fits a ≡ true
      → before_update vs a (change a) ≡ some c
      → P c

  pub Keeps-update_returning :
      (fits : Action → Bool) (change : Action → Action)
      → RowKeeps fits change
      → Keeps Rows (update_returning fits change)
  unfolding update_returning
  Keeps-update_returning fits change row s h =
      elim (Option-cases (update_actions s.verifications fits change s.actions)) [
        | inl failed ↦ rw (failed, update_returning) h
        | inr (rows, e) ↦
            rw (e, update_returning)
              (update_actions-All P s.verifications fits change (row s.verifications) s.actions rows
                h e)
      ]

  pub Keeps-update :
      (fits : Action → Bool) (change : Action → Action)
      → RowKeeps fits change
      → Keeps Rows (update fits change)
  unfolding update
  Keeps-update fits change row s h =
      elim (Option-cases (update_actions s.verifications fits change s.actions)) [
        | inl failed ↦ rw (failed, update) h
        | inr (rows, e) ↦
            rw (e, update)
              (update_actions-All P s.verifications fits change (row s.verifications) s.actions rows
                h e)
      ]
