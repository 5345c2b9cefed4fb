-- ===== src/Hardening/Retry.antt =====
-- firmos-backend/core/hardening.py: retry_with_backoff. The wrapped function is a parameter: what its
-- call of each number, from 0 on, comes to. The delays are those of the argument, or RETRY_DELAYS where
-- it is empty or missing.
pub mod Laws
use firmos.Base.{
  ℕ, zero, suc, ◌+◌, ◌-◌, min, Bool, true, false, ◌&&◌, not, Option, none, some, List, [], ◌∷◌,
  ◌++◌, if◌then◌else◌, ltb,
}
use firmos.Base.Lists.{length}

-- A call returns, or raises an exception.
pub data Outcome (A : Type 0) : Type 0 where
  returns : A → Outcome A
  raises : ℕ → Outcome A

pub data Ending (A : Type 0) : Type 0 where
  returned : A → Ending A
  raised : ℕ → Ending A
  dead_letter : Option ℕ → Ending A

-- How it ends, how many calls were made, and what was slept between them.
pub record Trace (A : Type 0) : Type 0 where
  pub ending : Ending A
  pub calls : ℕ
  pub slept : List ℕ

abbrev pub retry_delays : List ℕ
retry_delays = 10 ∷ 20 ∷ 40 ∷ []

-- `delays or RETRY_DELAYS`
abbrev pub delays_or_default : List ℕ → List ℕ
delays_or_default [] = retry_delays
delays_or_default (d ∷ ds) = d ∷ ds

-- `delays[i]`, in range at every call.
abbrev pub delay_at : List ℕ → ℕ → ℕ
delay_at [] i = 0
delay_at (d ∷ ds) zero = d
delay_at (d ∷ ds) (suc i) = delay_at ds i

-- The delay after a call that raised, unless it was the last.
abbrev pub sleep_after : ℕ → List ℕ → ℕ → List ℕ → List ℕ
sleep_after max_retries delays attempt slept =
    if ltb attempt max_retries
    then slept ++ delay_at delays (min attempt (length delays - 1)) ∷ []
    else slept

module _ {A : Type 0} where
  abbrev pub as_ending : Outcome A → Ending A
  as_ending (returns a) = returned a
  as_ending (raises e) = raised e

  -- The rounds that are left of the loop, the last exception, and what was slept.
  unfoldable pub attempts : (ℕ → Outcome A) → ℕ → List ℕ → ℕ → ℕ → Option ℕ → List ℕ → Trace A
  attempts call max_retries delays zero attempt last slept = record {
    ending = dead_letter last;
    calls = attempt;
    slept = slept;
  }
  attempts call max_retries delays (suc rounds) attempt last slept = elim (call attempt) [
    | returns a ↦ record { ending = returned a; calls = attempt + 1; slept = slept }
    | raises e ↦
        attempts call max_retries delays rounds (attempt + 1) (some e)
          (sleep_after max_retries delays attempt slept)
  ]

  -- The wrapper; `guarded` says that the action is never to be retried and `keyed` that an idempotency
  -- key was given.
  unfoldable pub retry :
      (guarded keyed : Bool) (max_retries : ℕ) (delays : List ℕ) → (ℕ → Outcome A) → Trace A
  unfolding attempts
  retry guarded keyed max_retries delays call =
      if guarded && not keyed
      then record { ending = as_ending (call 0); calls = 1; slept = [] }
      else attempts call max_retries (delays_or_default delays) (max_retries + 1) 0 none []
