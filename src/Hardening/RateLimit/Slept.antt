-- ===== src/Hardening/RateLimit/Slept.antt =====
-- When a call of RateLimiter.acquire of firmos-backend/core/hardening.py that slept is let through.
use firmos.Base.{
  ℕ, ◌+◌, ◌≤◌, ◌≡◌, refl, true, List, [], ◌∷◌, ◌++◌, ◌==◌, ==_iff, arith, Bool-cases, inl, inr,
}
use firmos.Base.Lists.{keep, All, All-append, any-append, keep-All, member}
use firmos.Hardening.RateLimit.{
  Buckets, put, recent, sleeps, arrive, Overlaps, starts, passing, sleeping, raising, waking,
}
use firmos.Hardening.RateLimit.Laws.{count_in}
use firmos.Hardening.RateLimit.Overlapping.{
  Overlaps-count_in, decide-passes, decide-sleeps, decide-refuses, decide,
}

All-map :
    {A : Type 0} {P Q : A → Type 0} (xs : List A) → ((x : A) → P x → Q x) → All P xs → All Q xs
All-map [] f h = tt
All-map (x ∷ xs) f h = (f x h.0, All-map xs f h.1)

-- What holds of a list holds of the middle of it, and of the rest.
All-middle :
    {A : Type 0} (P : A → Type 0) (xs : List A) (y : A) (ys : List A)
    → All P (xs ++ y ∷ ys)
    → P y × All P (xs ++ ys)
All-middle P [] y ys h = h
All-middle P (x ∷ xs) y ys h =
    let (middle, rest) = All-middle P xs y ys h.1 in (middle, (h.0, rest))

-- A call for a key was let through at least a window before the time `t`.
abbrev pub After : (window : ℕ) → List ℕ → ℕ → Type 0
After window log t = (x : ℕ) × (member x log ≡ true) × (x + window ≤ t)

member-grow : (later x : ℕ) (xs : List ℕ) → member x xs ≡ true → member x (xs ++ later ∷ []) ≡ true
member-grow later x xs h = ground (arith, any-append (λ y. y == x) xs (later ∷ []), h)

grow :
    (key later : ℕ) (log : ℕ → List ℕ) (k x : ℕ)
    → member x (log k) ≡ true
    → member x (put key (log key ++ later ∷ []) log k) ≡ true
grow key later log k x h = elim (Bool-cases (k == key)) [
  | inl own ↦
      let same : k ≡ key = (==_iff k key).0 own in
      let there : member x (log key) ≡ true = rw same at h in
      rw own (member-grow later x (log key) there)
  | inr other ↦ rw other h
]

After-grow :
    (window key later : ℕ) (log : ℕ → List ℕ) (k t : ℕ)
    → After window (log k) t
    → After window (put key (log key ++ later ∷ []) log k) t
After-grow window key later log k t (x, there, le) = (x, grow key later log k x there, le)

-- A call sleeps until a window after the oldest of the entries.
decide-oldest :
    (window rate now later wait : ℕ) (bucket kept : List ℕ) (P : ℕ → Type 0)
    → decide window rate now later bucket kept ≡ sleeps wait bucket
    → All P kept
    → (x : ℕ) × P x × (x + window ≤ now + wait)
decide-oldest window rate now later wait bucket [] P h all = ground arith
decide-oldest window rate now later wait bucket (o ∷ rest) P h all = (o, all.0, ground arith)

record Slept (window : ℕ) (b : Buckets) (asleep : List (ℕ × ℕ)) (log woken : ℕ → List ℕ)
    : Type 0 where
  logged : (k : ℕ) → All (λ x. member x (log k) ≡ true) (b k)
  waiting : All (λ s. After window (log s.0) s.1) asleep
  waited : (k : ℕ) → All (After window (log k)) (woken k)

last_logged : (later : ℕ) (xs : List ℕ) → member later (xs ++ later ∷ []) ≡ true
last_logged later xs =
    ground (arith, any-append (λ y. y == later) xs (later ∷ []), (==_iff later later).1 refl)

-- A time that is appended to a bucket and to the log.
logged-append :
    (key later : ℕ) (b : Buckets) (log : ℕ → List ℕ) (bucket : List ℕ)
    → ((k : ℕ) → All (λ x. member x (log k) ≡ true) (b k))
    → All (λ x. member x (log key) ≡ true) bucket
    → (k : ℕ)
    → All
        (λ x. member x (put key (log key ++ later ∷ []) log k) ≡ true)
        (put key (bucket ++ later ∷ []) b k)
logged-append key later b log bucket before own_before k = elim (Bool-cases (k == key)) [
  | inl own ↦
      let mine : All (λ x. member x (log key ++ later ∷ []) ≡ true) bucket =
        All-map bucket (λ x. member-grow later x (log key)) own_before in
      rw own (All-append _ bucket (later ∷ []) mine (last_logged later (log key), tt))
  | inr other ↦ rw other (before k)
]

logged-recent :
    (key : ℕ) (b : Buckets) (log : ℕ → List ℕ) (bucket : List ℕ)
    → ((k : ℕ) → All (λ x. member x (log k) ≡ true) (b k))
    → All (λ x. member x (log key) ≡ true) bucket
    → (k : ℕ) → All (λ x. member x (log k) ≡ true) (put key bucket b k)
logged-recent key b log bucket before own_before k = elim (Bool-cases (k == key)) [
  | inl own ↦ let same : k ≡ key = (==_iff k key).0 own in rw (own, same) own_before
  | inr other ↦ rw other (before k)
]

After-append :
    (window later : ℕ) (xs : List ℕ) (t : ℕ) → After window xs t → After window (xs ++ later ∷ []) t
After-append window later xs t (x, there, le) = (x, member-grow later x xs there, le)

waking-waited :
    (window key due later : ℕ) (log woken : ℕ → List ℕ)
    → After window (log key) due
    → due ≤ later
    → ((k : ℕ) → All (After window (log k)) (woken k))
    → (k : ℕ)
    → All
        (After window (put key (log key ++ later ∷ []) log k))
        (put key (woken key ++ later ∷ []) woken k)
waking-waited window key due later log woken (x, there, le) on before k =
    elim (Bool-cases (k == key)) [
      | inl own ↦
          let earlier : All (After window (log key ++ later ∷ [])) (woken key) =
            All-map (woken key) (After-append window later (log key)) (before key) in
          rw own (
            All-append _ (woken key) (later ∷ []) earlier
              ((x, member-grow later x (log key) there, omega (arith, le, on)), tt))
      | inr other ↦ rw other (before k)
    ]

Overlaps-Slept :
    {window rate clock : ℕ} {b : Buckets} {asleep : List (ℕ × ℕ)} {log woken : ℕ → List ℕ}
    → Overlaps window rate b asleep log woken clock
    → Slept window b asleep log woken
unfolding arrive
Overlaps-Slept starts = record { logged = λ k. tt; waiting = tt; waited = λ k. tt }
Overlaps-Slept {window} {rate}
      (passing {b} {asleep} {log} {woken} {clock} {bucket} r key now later le on h) =
    let v = Overlaps-Slept r in
    let kept = keep (recent window now) (b key) in
    let e = (decide-passes window rate now later bucket kept h).0 in
    record {
      logged = rw e (
          logged-append key later b log kept v.logged
            (keep-All _ (recent window now) (b key) (v.logged key)));
      waiting = All-map asleep (λ s. After-grow window key later log s.0 s.1) v.waiting;
      waited = λ k. All-map (woken k) (After-grow window key later log k) (v.waited k);
    }
Overlaps-Slept {window} {rate}
      (sleeping {b} {asleep} {log} {woken} {clock} {bucket} r key now later wait le h) =
    let v = Overlaps-Slept r in
    let kept = keep (recent window now) (b key) in
    let there =
      keep-All (λ x. member x (log key) ≡ true) (recent window now) (b key) (v.logged key) in
    let e = decide-sleeps window rate now later bucket kept wait h in
    record {
      logged = rw e (logged-recent key b log kept v.logged there);
      waiting = (decide-oldest window rate now later wait bucket kept _ h there, v.waiting);
      waited = v.waited;
    }
Overlaps-Slept {window} {rate}
      (raising {b} {asleep} {log} {woken} {clock} {bucket} r key now later reason le h) =
    let v = Overlaps-Slept r in
    let kept = keep (recent window now) (b key) in
    let there =
      keep-All (λ x. member x (log key) ≡ true) (recent window now) (b key) (v.logged key) in
    let e = decide-refuses window rate now later bucket kept reason h in
    record {
      logged = rw e (logged-recent key b log kept v.logged there);
      waiting = v.waiting;
      waited = v.waited;
    }
Overlaps-Slept {window} (waking {b} {log} {woken} {clock} before after key due later r le on) =
    let v = Overlaps-Slept r in
    let (mine, others) = All-middle _ before (key, due) after v.waiting in
    record {
      logged = logged-append key later b log (b key) v.logged (v.logged key);
      waiting = All-map (before ++ after) (λ s. After-grow window key later log s.0 s.1) others;
      waited = waking-waited window key due later log woken mine on v.waited;
    }

-- However the calls overlap, with a clock that goes on and sleeps that last as long as asked: in no 60
-- seconds is a key let through more often than the rate and, beyond it, as often as calls for the
-- key that had slept were let through in these 60 seconds; and a call that had slept is let through
-- 60 seconds at least after a time at which the key was let through.
pub Overlaps-limited :
    (window rate clock : ℕ) (b : Buckets) (asleep : List (ℕ × ℕ)) (log woken : ℕ → List ℕ) (key : ℕ)
    → Overlaps window rate b asleep log woken clock
    → ((t : ℕ) → count_in window t (log key) ≤ rate + count_in window t (woken key))
      × All (After window (log key)) (woken key)
Overlaps-limited window rate clock b asleep log woken key r =
    (Overlaps-count_in window rate clock b asleep log woken key r, (Overlaps-Slept r).waited key)
