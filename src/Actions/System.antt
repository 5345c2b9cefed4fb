-- ===== src/Actions/System.antt =====
-- The finance actions as a system: the steps that the API (core/finance_actions/engine.py), the worker
-- and the scheduler of firmos-backend take on the tables, in any order. A step is one whole
-- operation; no two overlap.
pub mod Safety
use firmos.Base.{ℕ}
use firmos.Actions.Store.{Job, Store}
use firmos.Actions.Engine.{Proposal, propose_action, approve_action, cancel_action}
use firmos.Actions.Worker.{Setting}
use firmos.Actions.Worker.Run.{claim, run_finance_action}
use firmos.Actions.Scheduler.{tick}

pub data Step (digest : ℕ → ℕ) : Store → Store → Type 0 where
  passes : (s : Store) (now : ℕ) → Step digest s (record s { now = now })
  proposes : (s : Store) (p : Proposal) → Step digest s (propose_action digest p s).1
  approves :
      (s : Store) (action_id firm by hash : ℕ)
      → Step digest s (approve_action action_id firm by hash s).1
  cancels : (s : Store) (action_id firm : ℕ) → Step digest s (cancel_action action_id firm s).1
  claims : (s : Store) (worker : ℕ) → Step digest s (claim worker s).1
  runs :
      (s : Store) (worker : ℕ) (e : Setting) (job : Job)
      → Step digest s (run_finance_action worker e job s).1
  ticks : (s : Store) → Step digest s (tick s).1

pub data Reaches (digest : ℕ → ℕ) (s : Store) : Store → Type 0 where
  starts : Reaches digest s s
  goes : {t u : Store} → Reaches digest s t → Step digest t u → Reaches digest s u
