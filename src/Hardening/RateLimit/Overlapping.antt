-- ===== src/Hardening/RateLimit/Overlapping.antt =====
-- Calls of RateLimiter.acquire of firmos-backend/core/hardening.py that overlap.
use firmos.Base.{
  ℕ, ◌+◌, ◌≤◌, ◌<◌, ◌≡◌, refl, List, [], ◌∷◌, ◌++◌, leb, ◌==◌, ==_iff, arith, Bool-cases, inl, inr,
  if◌then◌else◌,
}
use firmos.Base.Lists.{length, keep, All, All-append}
use firmos.Hardening.RateLimit.{
  Buckets, put, recent, Refusal, Arrival, passes, sleeps, refuses, wait_for, if_full, arrive,
  Overlaps, starts, passing, sleeping, raising, waking,
}
use firmos.Hardening.RateLimit.Laws.{
  count_in, count_in-append, count_in-le-length, count_in-keep, keep-All, All-le, counts, one_if_le,
}

-- The bucket that an arrival leaves: the recent entries, and the time if it passes, which it does only if
-- they leave room.
module _ (window rate now later : ℕ) (bucket : List ℕ) where
  abbrev pub decide : List ℕ → Arrival
  decide kept =
      if leb rate (length kept)
      then if_full window kept (wait_for window now kept)
      else passes (kept ++ later ∷ [])

  pub decide-passes :
      (kept : List ℕ)
      → decide kept ≡ passes bucket
      → (bucket ≡ kept ++ later ∷ []) × (length kept < rate)
  decide-passes [] h = ground arith
  decide-passes (o ∷ rest) h = ground arith

  pub decide-sleeps : (kept : List ℕ) (wait : ℕ) → decide kept ≡ sleeps wait bucket → bucket ≡ kept
  decide-sleeps [] wait h = ground arith
  decide-sleeps (o ∷ rest) wait h = ground arith

  pub decide-refuses :
      (kept : List ℕ) (reason : Refusal) → decide kept ≡ refuses reason bucket → bucket ≡ kept
  decide-refuses [] reason h = ground arith
  decide-refuses (o ∷ rest) reason h = ground arith

record Inv (window rate clock : ℕ) (bucket log woken : List ℕ) : Type 0 where
  limited : (t : ℕ) → count_in window t log ≤ rate + count_in window t woken
  past : All (λ x. x ≤ clock) bucket
  same : (t : ℕ) → clock ≤ t → count_in window t log ≡ count_in window t bucket

Inv-later :
    {window rate clock later : ℕ} {bucket log woken : List ℕ}
    → clock ≤ later
    → Inv window rate clock bucket log woken
    → Inv window rate later bucket log woken
Inv-later {clock} {later} {bucket} le v = record {
  limited = v.limited;
  past = All-le bucket clock later le v.past;
  same = λ t h. v.same t (omega arith);
}

Inv-keep :
    {window rate clock : ℕ} (now : ℕ) {bucket log woken : List ℕ}
    → clock ≤ now
    → Inv window rate clock bucket log woken
    → Inv window rate now (keep (recent window now) bucket) log woken
Inv-keep {window} {clock} now {bucket} le v = record {
  limited = v.limited;
  past = keep-All window now (λ x. x ≤ now) bucket (All-le bucket clock now le v.past);
  same = λ t h. omega (arith, count_in-keep window now t bucket h, v.same t (omega arith));
}

-- One more entry at `later`, where the entries leave room for it.
Inv-append :
    {window rate clock : ℕ} (later : ℕ) {bucket log woken : List ℕ}
    → clock ≤ later
    → Inv window rate clock bucket log woken
    → ((t : ℕ) → later ≤ t → count_in window t log + 1 ≤ rate + count_in window t woken)
    → Inv window rate later (bucket ++ later ∷ []) (log ++ later ∷ []) woken
Inv-append {window} {rate} {clock} later {bucket} {log} {woken} le v room = record {
  limited = λ t. elim (Bool-cases (leb later t)) [
    | inl after ↦
        let past_later : later ≤ t = ground arith in
        omega (
          arith,
          count_in-append window t log (later ∷ []),
          room t past_later,
          one_if_le (counts window t later),
        )
    | inr before ↦ ground (arith, count_in-append window t log (later ∷ []), v.limited t)
  ];
  past =
      All-append (λ x. x ≤ later) bucket (later ∷ []) (All-le bucket clock later le v.past)
        (omega arith, tt);
  same = λ t after. omega (
    arith,
    count_in-append window t log (later ∷ []),
    count_in-append window t bucket (later ∷ []),
    v.same t (omega arith),
  );
}

Inv-passes :
    (window rate now later clock : ℕ) (bucket log woken : List ℕ)
    → Inv window rate clock bucket log woken
    → clock ≤ now
    → now ≤ later
    → length (keep (recent window now) bucket) < rate
    → Inv window rate later
        (keep (recent window now) bucket ++ later ∷ [])
        (log ++ later ∷ [])
        woken
Inv-passes window rate now later clock bucket log woken v le on room =
    let kept = keep (recent window now) bucket in
    let v' = Inv-keep now le v in
    Inv-append later on v'
      (λ t h. omega (arith, v'.same t (omega arith), count_in-le-length window t kept))

-- A wake counts on both sides from then on.
Inv-wakes :
    (window rate later clock : ℕ) (bucket log woken : List ℕ)
    → Inv window rate clock bucket log woken
    → clock ≤ later
    → Inv window rate later (bucket ++ later ∷ []) (log ++ later ∷ []) (woken ++ later ∷ [])
Inv-wakes window rate later clock bucket log woken v le = record {
  limited = λ t. omega (
    arith,
    v.limited t,
    count_in-append window t log (later ∷ []),
    count_in-append window t woken (later ∷ []),
  );
  past =
      All-append (λ x. x ≤ later) bucket (later ∷ []) (All-le bucket clock later le v.past)
        (omega arith, tt);
  same = λ t after. omega (
    arith,
    count_in-append window t log (later ∷ []),
    count_in-append window t bucket (later ∷ []),
    v.same t (omega arith),
  );
}

-- An arrival that sleeps or raises leaves the recent entries.
left_recent :
    {window rate clock : ℕ} (key now : ℕ) (b : Buckets) (log woken : ℕ → List ℕ) {bucket : List ℕ}
    → clock ≤ now
    → ((k : ℕ) → Inv window rate clock (b k) (log k) (woken k))
    → bucket ≡ keep (recent window now) (b key)
    → (k : ℕ) → Inv window rate now (put key bucket b k) (log k) (woken k)
left_recent key now b log woken le v e k = elim (Bool-cases (k == key)) [
  | inl own ↦
      let same : k ≡ key = (==_iff k key).0 own in rw (own, e, same) (Inv-keep now le (v key))
  | inr other ↦ rw other (Inv-later le (v k))
]

Overlaps-Inv :
    {window rate clock : ℕ} {b : Buckets} {asleep : List (ℕ × ℕ)} {log woken : ℕ → List ℕ}
    → Overlaps window rate b asleep log woken clock
    → (k : ℕ) → Inv window rate clock (b k) (log k) (woken k)
unfolding arrive
Overlaps-Inv starts k = record { limited = λ t. omega arith; past = tt; same = λ t h. refl }
Overlaps-Inv {window} {rate} (passing {b} {log} {woken} {clock} {bucket} r key now later le on h)
      k =
    let kept = keep (recent window now) (b key) in
    let (e, room) = decide-passes window rate now later bucket kept h in
    elim (Bool-cases (k == key)) [
      | inl own ↦
          let same : k ≡ key = (==_iff k key).0 own in
          let v =
            Inv-passes window rate now later clock (b key) (log key) (woken key)
              (Overlaps-Inv r key) le on room in
          rw (own, e, same) v
      | inr other ↦ let v = Inv-later {later = later} (omega arith) (Overlaps-Inv r k) in rw other v
    ]
Overlaps-Inv {window} {rate} (sleeping {b} {log} {woken} {bucket} r key now later wait le h) k =
    left_recent key now b log woken le (Overlaps-Inv r)
      (decide-sleeps window rate now later bucket (keep (recent window now) (b key)) wait h) k
Overlaps-Inv {window} {rate} (raising {b} {log} {woken} {bucket} r key now later reason le h) k =
    left_recent key now b log woken le (Overlaps-Inv r)
      (decide-refuses window rate now later bucket (keep (recent window now) (b key)) reason h) k
Overlaps-Inv {window} {rate} (waking {b} {log} {woken} {clock} before after key due later r le on)
      k =
    elim (Bool-cases (k == key)) [
      | inl own ↦
          let v =
            Inv-wakes window rate later clock (b key) (log key) (woken key) (Overlaps-Inv r key)
              le in
          rw own v
      | inr other ↦ let v = Inv-later {later = later} le (Overlaps-Inv r k) in rw other v
    ]

-- The calls that were let through in a window.
pub Overlaps-count_in :
    (window rate clock : ℕ) (b : Buckets) (asleep : List (ℕ × ℕ)) (log woken : ℕ → List ℕ) (key : ℕ)
    → Overlaps window rate b asleep log woken clock
    → (t : ℕ) → count_in window t (log key) ≤ rate + count_in window t (woken key)
Overlaps-count_in window rate clock b asleep log woken key r t = (Overlaps-Inv r key).limited t
