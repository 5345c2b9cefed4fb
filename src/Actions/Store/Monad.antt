-- ===== src/Actions/Store/Monad.antt =====
-- A statement on the tables: state and exceptions. Outside a transaction every statement commits, so
-- what was written before an exception stays written; a transaction rolls back.
use firmos.Base.{Bool, Option, none, some, List, [], ◌∷◌, if◌then◌else◌}
use firmos.Actions.Store.{Action, Job, Verification, Store, before_update, update_actions}

-- The exceptions of the engine, and `database` for one that a statement raises.
pub data Error : Type 0 where
  not_found hash_mismatch not_awaiting only_unclaimed database : Error

pub data Result (A : Type 0) : Type 0 where
  ok : A → Result A
  err : Error → Result A

abbrev pub Db : Type 0 → Type 0
Db A = Store → Result A × Store

module _ {A : Type 0} where
  abbrev pub pure : A → Db A
  pure a s = (ok a, s)

  abbrev pub raise : Error → Db A
  raise e s = (err e, s)

  abbrev pub gets : (Store → A) → Db A
  gets f s = (ok (f s), s)

  abbrev pub or_raise : Option A → Error → Db A
  or_raise none e = raise e
  or_raise (some a) e = pure a

unfoldable pub resume : {A B : Type 0} → Result A × Store → (A → Db B) → Result B × Store
resume (ok a, s) f = f a s
resume (err e, s) f = (err e, s)

infixl 5 ◌>>=◌ ◌>>◌
abbrev pub ◌>>=◌ : {A B : Type 0} → Db A → (A → Db B) → Db B
◌>>=◌ m f s = resume (m s) f

abbrev pub ◌>>◌ : {A B : Type 0} → Db A → Db B → Db B
m >> k = m >>= λ _. k

abbrev pub modify : (Store → Store) → Db (Unit {0})
modify f s = (ok tt, f s)

abbrev pub raise_if : Bool → Error → Db (Unit {0})
raise_if b e s = (if b then err e else ok tt, s)

unfoldable pub commit : {A : Type 0} → Store → Result A × Store → Result A × Store
commit before (ok a, s) = (ok a, s)
commit before (err e, s) = (err e, before)

unfoldable pub recover : {A : Type 0} → Db A → Result A × Store → Result A × Store
recover handler (ok a, s) = (ok a, s)
recover handler (err e, s) = handler s

-- `async with conn.transaction()`
abbrev pub transaction : {A : Type 0} → Db A → Db A
transaction m s = commit s (m s)

-- `except Exception`
abbrev pub on_error : {A : Type 0} → Db A → Db A → Db A
on_error m handler s = recover handler (m s)

-- `RETURNING *` read by fetchrow: the first row that was updated.
pub returning :
    List Verification → (Action → Bool) → (Action → Action) → List Action → Option Action
returning verifications fits change [] = none
returning verifications fits change (a ∷ rest) =
    if fits a
    then before_update verifications a (change a)
    else returning verifications fits change rest

unfoldable pub update_returning : (Action → Bool) → (Action → Action) → Db (Option Action)
unfolding returning
update_returning fits change s = elim (update_actions s.verifications fits change s.actions) [
  | none ↦ (err database, s)
  | some rows ↦ (ok (returning s.verifications fits change s.actions), record s { actions = rows })
]

unfoldable pub update : (Action → Bool) → (Action → Action) → Db (Unit {0})
update fits change s = elim (update_actions s.verifications fits change s.actions) [
  | none ↦ (err database, s)
  | some rows ↦ (ok tt, record s { actions = rows })
]

-- `UPDATE automation_jobs SET ... WHERE ...`; no trigger guards that table.
unfoldable pub change_jobs : (Job → Bool) → (Job → Job) → List Job → List Job
change_jobs fits change [] = []
change_jobs fits change (j ∷ jobs) = (if fits j then change j else j) ∷ change_jobs fits change jobs

abbrev pub update_jobs : (Job → Bool) → (Job → Job) → Db (Unit {0})
update_jobs fits change = modify (λ s. record s { jobs = change_jobs fits change s.jobs })
