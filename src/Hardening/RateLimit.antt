-- ===== src/Hardening/RateLimit.antt =====
-- firmos-backend/core/hardening.py: RateLimiter. A key of the buckets, "firm:connector", is compared
-- alone, so it is a number; a time is a natural number of clock ticks, of which `window` make 60
-- seconds. What the clock says at the append is an argument.
pub mod Laws
pub mod Overlapping
pub mod Slept
use firmos.Base.{
  ℕ, ◌+◌, ◌-◌, ◌≤◌, ◌≡◌, Bool, Option, none, some, List, [], ◌∷◌, ◌++◌, if◌then◌else◌, ltb, leb,
  ◌==◌,
}
use firmos.Base.Lists.{length, keep}

-- The buckets; a missing key has the empty list.
abbrev pub Buckets : Type 0
Buckets = ℕ → List ℕ

abbrev pub put : ℕ → List ℕ → Buckets → Buckets
put key bucket b k = if k == key then bucket else b k

-- `now - t < 60`, where the clock never goes back.
abbrev pub recent : (window now : ℕ) → ℕ → Bool
recent window now t = ltb (now - t) window

-- Why a call raises: the limit, or the IndexError of an empty bucket.
pub data Refusal : Type 0 where
  rate_limit_exceeded no_entry : Refusal

-- What acquire waits for: so many ticks; `none` is an IndexError.
abbrev pub wait_for : (window now : ℕ) → List ℕ → Option ℕ
wait_for window now [] = none
wait_for window now (oldest ∷ rest) = some (window + oldest - now)

-- What a call has come to when it ends or first awaits, with the bucket of its key as it leaves it.
pub data Arrival : Type 0 where
  passes : (bucket : List ℕ) → Arrival
  sleeps : (wait : ℕ) (bucket : List ℕ) → Arrival
  refuses : Refusal → (bucket : List ℕ) → Arrival

abbrev pub if_full : (window : ℕ) → List ℕ → Option ℕ → Arrival
if_full window bucket none = refuses no_entry bucket
if_full window bucket (some wait) =
    if ltb window wait then refuses rate_limit_exceeded bucket else sleeps wait bucket

-- RateLimiter.acquire from its start at `now` on the bucket of its key; a call that does not sleep appends
-- the time `later`.
unfoldable pub arrive : (window rate now later : ℕ) → List ℕ → Arrival
arrive window rate now later entries =
    let bucket = keep (recent window now) entries in
    if leb rate (length bucket)
    then if_full window bucket (wait_for window now bucket)
    else passes (bucket ++ later ∷ [])

-- What follows the sleep: the append, on the bucket as it is then.
abbrev pub wake : (key later : ℕ) → Buckets → Buckets
wake key later b = put key (b key ++ later ∷ []) b

-- Calls that overlap: the calls asleep with their keys and the times they wait for, the times that each key
-- was let through at, and those of them at which a call had slept. A step is a call up to its end or
-- its await, or a call that wakes, in any order, not before its time.
pub data Overlaps (window rate : ℕ)
    : Buckets → List (ℕ × ℕ) → (ℕ → List ℕ) → (ℕ → List ℕ) → ℕ → Type 0 where
  starts : Overlaps window rate (λ k. []) [] (λ k. []) (λ k. []) 0
  passing :
      {b : Buckets} {asleep : List (ℕ × ℕ)} {log woken : ℕ → List ℕ} {clock : ℕ} {bucket : List ℕ}
      → Overlaps window rate b asleep log woken clock
      → (key now later : ℕ) → clock ≤ now
      → now ≤ later
      → arrive window rate now later (b key) ≡ passes bucket
      → Overlaps window rate
          (put key bucket b)
          asleep
          (put key (log key ++ later ∷ []) log)
          woken
          later
  sleeping :
      {b : Buckets} {asleep : List (ℕ × ℕ)} {log woken : ℕ → List ℕ} {clock : ℕ} {bucket : List ℕ}
      → Overlaps window rate b asleep log woken clock
      → (key now later wait : ℕ) → clock ≤ now
      → arrive window rate now later (b key) ≡ sleeps wait bucket
      → Overlaps window rate (put key bucket b) ((key, now + wait) ∷ asleep) log woken now
  raising :
      {b : Buckets} {asleep : List (ℕ × ℕ)} {log woken : ℕ → List ℕ} {clock : ℕ} {bucket : List ℕ}
      → Overlaps window rate b asleep log woken clock
      → (key now later : ℕ) (reason : Refusal) → clock ≤ now
      → arrive window rate now later (b key) ≡ refuses reason bucket
      → Overlaps window rate (put key bucket b) asleep log woken now
  waking :
      {b : Buckets} {log woken : ℕ → List ℕ} {clock : ℕ}
      → (before after : List (ℕ × ℕ)) (key due later : ℕ)
      → Overlaps window rate b (before ++ (key, due) ∷ after) log woken clock
      → clock ≤ later
      → due ≤ later
      → Overlaps window rate
          (wake key later b)
          (before ++ after)
          (put key (log key ++ later ∷ []) log)
          (put key (woken key ++ later ∷ []) woken)
          later
