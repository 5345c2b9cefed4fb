-- ===== src/Hardening/Retry/Laws.antt =====
-- Theorems on retry_with_backoff of firmos-backend/core/hardening.py.
use native.Mathlib.Nat.{add-zero, zero-add}
use firmos.Base.{
  ℕ, zero, suc, ◌+◌, ◌≤◌, ◌<◌, ◌≡◌, refl, Bool, false, ◌&&◌, not, Option, none, some, List, [],
  arith,
}
use firmos.Hardening.Retry.{
  Outcome, returns, raises, returned, dead_letter, attempts, retry, delays_or_default, sleep_after,
}

module _ {A : Type 0} (call : ℕ → Outcome A) where
  -- The `k` calls from `attempt` on raise, and so does the call after them, with `e`.
  abbrev pub Fail : ℕ → ℕ → Type 0
  Fail attempt zero = Unit
  Fail attempt (suc k) = ((e : ℕ) × (call attempt ≡ raises e)) × Fail (attempt + 1) k

  module _ (max_retries : ℕ) (delays : List ℕ) where
    attempts-returns :
        (k rounds attempt : ℕ) (last : Option ℕ) (slept : List ℕ) (a : A)
        → k < rounds
        → Fail attempt k
        → call (attempt + k) ≡ returns a
        → ((attempts call max_retries delays rounds attempt last slept).ending ≡ returned a)
          × ((attempts call max_retries delays rounds attempt last slept).calls ≡ attempt + k + 1)
    unfolding attempts
    attempts-returns zero zero attempt last slept a lt fails ok = absurd (omega arith)
    attempts-returns (suc k) zero attempt last slept a lt fails ok = absurd (omega arith)
    attempts-returns zero (suc rounds) attempt last slept a lt fails ok =
        let here : call attempt ≡ returns a = rw add-zero at ok in
        (rw (here, attempts) refl, rw (here, attempts) (omega arith))
    attempts-returns (suc k) (suc rounds) attempt last slept a lt ((e, here), fails) ok =
        let shift : attempt + suc k ≡ attempt + 1 + k = omega arith in
        let rest =
          attempts-returns k rounds (attempt + 1) (some e)
            (sleep_after max_retries delays attempt slept) a (omega arith) fails (rw shift at ok) in
        (rw (here, attempts) rest.0, rw (here, attempts) (omega (arith, rest.1)))

    attempts-exhausted :
        (k attempt : ℕ) (last : Option ℕ) (slept : List ℕ) (e : ℕ)
        → Fail attempt k
        → call (attempt + k) ≡ raises e
        → ((attempts call max_retries delays (suc k) attempt last slept).ending
            ≡ dead_letter (some e))
          × ((attempts call max_retries delays (suc k) attempt last slept).calls ≡ attempt + k + 1)
    unfolding attempts
    attempts-exhausted zero attempt last slept e fails bad =
        let here : call attempt ≡ raises e = rw add-zero at bad in
        (rw (here, attempts) refl, rw (here, attempts) (omega arith))
    attempts-exhausted (suc k) attempt last slept e ((e', here), fails) bad =
        let shift : attempt + suc k ≡ attempt + 1 + k = omega arith in
        let rest =
          attempts-exhausted k (attempt + 1) (some e')
            (sleep_after max_retries delays attempt slept) e fails (rw shift at bad) in
        (rw (here, attempts) rest.0, rw (here, attempts) (omega (arith, rest.1)))

module _ {A : Type 0} where
  -- An action that may be retried: where call k is the first to return, and k is at most the number of
  -- retries, its value is returned after k + 1 calls.
  pub retry-returns :
      (guarded keyed : Bool) (max_retries : ℕ) (delays : List ℕ) (call : ℕ → Outcome A) (k : ℕ)
      (a : A)
      → guarded && not keyed ≡ false
      → k ≤ max_retries
      → Fail call 0 k
      → call k ≡ returns a
      → let t = retry guarded keyed max_retries delays call in
        (t.ending ≡ returned a) × (t.calls ≡ k + 1)
  unfolding retry
  retry-returns guarded keyed max_retries delays call k a free fits fails ok = rw free (
      simp zero-add at (
        attempts-returns call max_retries (delays_or_default delays) k (max_retries + 1) 0 none [] a
          (omega arith) fails (rw zero-add ok)))

  -- An action that may be retried: where the first call and all retries raise, the dead letter carries
  -- the last exception after one call more than there are retries.
  pub retry-exhausted :
      (guarded keyed : Bool) (max_retries : ℕ) (delays : List ℕ) (call : ℕ → Outcome A) (e : ℕ)
      → guarded && not keyed ≡ false
      → Fail call 0 max_retries
      → call max_retries ≡ raises e
      → let t = retry guarded keyed max_retries delays call in
        (t.ending ≡ dead_letter (some e)) × (t.calls ≡ max_retries + 1)
  unfolding retry
  retry-exhausted guarded keyed max_retries delays call e free fails bad =
      let round : max_retries + 1 ≡ suc max_retries = omega arith in
      let all =
        attempts-exhausted call max_retries (delays_or_default delays) max_retries 0 none [] e fails
          (rw zero-add bad) in
      rw (free, round) (all.0, omega (arith, all.1))
