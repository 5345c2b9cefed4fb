-- ===== src/Matching/Bank/Laws.antt =====
-- Theorems on firmos-backend/engines/bank_matcher.py.
use firmos.Base.{
  ◌≡◌, inl, inr, refl, true, false, ◌&&◌, ◌||◌, List, [], ◌∷◌, ltb, leb, Bool-cases, arith,
}
use firmos.Base.Float.{lt_float}
use firmos.Base.Float.Order.{lt_float-false_trans, lt_float_asym, lt_float_irrefl}
use firmos.Base.Lists.{All}
use firmos.Matching.Bank.{
  Transaction, Candidate, Scored, day_drift, shared_tokens, score_of, amount_score, is_near,
  score_loop, insert, sorted, score_candidates,
}

-- What a scored candidate has: an amount within a rupee, and besides a near date or a shared token.
abbrev pub Supported : Transaction → Scored → Type 0
Supported t s =
    (is_near t s.candidate ≡ true)
    × (leb (day_drift t s.candidate) 3 || ltb 0 (shared_tokens t s.candidate) ≡ true)

-- Scores that do not rise.
abbrev pub Descending : List Scored → Type 0
Descending [] = Unit
Descending (x ∷ xs) = All (λ y. lt_float x.score y.score ≡ false) xs × Descending xs

score_of-supported :
    (t : Transaction) (c : Candidate)
    → lt_float amount_score (score_of t c) ≡ true
    → leb (day_drift t c) 3 || ltb 0 (shared_tokens t c) ≡ true
unfolding score_of
score_of-supported t c h = elim (Bool-cases (leb (day_drift t c) 3)) [
  | inl dated ↦ ground arith
  | inr far ↦ elim (Bool-cases (ltb 0 (shared_tokens t c))) [
    | inl shared ↦ ground arith
    | inr alone ↦
        let same : score_of t c ≡ amount_score = rw (far, alone, score_of) refl in
        let no : lt_float amount_score (score_of t c) ≡ false =
          rw same (lt_float_irrefl amount_score) in
        cc
  ]
]

score_loop-Supported : (t : Transaction) (cs : List Candidate) → All (Supported t) (score_loop t cs)
unfolding score_loop
score_loop-Supported t [] = tt
score_loop-Supported t (c ∷ cs) =
    elim (Bool-cases (is_near t c && lt_float amount_score (score_of t c))) [
      | inl kept ↦
          rw kept ((ground arith, score_of-supported t c (ground arith)), score_loop-Supported t cs)
      | inr left ↦ rw left (score_loop-Supported t cs)
    ]

insert-All :
    (P : Scored → Type 0) (x : Scored) (ys : List Scored) → P x → All P ys → All P (insert x ys)
unfolding insert
insert-All P x [] h hs = (h, tt)
insert-All P x (y ∷ ys) h hs = elim (Bool-cases (lt_float x.score y.score)) [
  | inl below ↦ rw below (hs.0, insert-All P x ys h hs.1)
  | inr above ↦ rw above (h, hs)
]

-- What does not rise above y does not rise above what y does not rise above.
unrisen_trans :
    (x y : Scored) (zs : List Scored)
    → lt_float x.score y.score ≡ false
    → All (λ z. lt_float y.score z.score ≡ false) zs
    → All (λ z. lt_float x.score z.score ≡ false) zs
unrisen_trans x y [] h all = tt
unrisen_trans x y (z ∷ zs) h all =
    (lt_float-false_trans z.score y.score x.score all.0 h, unrisen_trans x y zs h all.1)

insert-Descending : (x : Scored) (ys : List Scored) → Descending ys → Descending (insert x ys)
unfolding insert
insert-Descending x [] h = (tt, tt)
insert-Descending x (y ∷ ys) h = elim (Bool-cases (lt_float x.score y.score)) [
  | inl below ↦ rw below (
    insert-All (λ z. lt_float y.score z.score ≡ false) x ys (lt_float_asym x.score y.score below)
        h.0,
    insert-Descending x ys h.1,
  )
  | inr above ↦ rw above ((above, unrisen_trans x y ys above h.0), h)
]

sorted-All : (P : Scored → Type 0) (xs : List Scored) → All P xs → All P (sorted xs)
unfolding sorted
sorted-All P [] h = tt
sorted-All P (x ∷ xs) h = insert-All P x (sorted xs) h.0 (sorted-All P xs h.1)

sorted-Descending : (xs : List Scored) → Descending (sorted xs)
unfolding sorted
sorted-Descending [] = tt
sorted-Descending (x ∷ xs) = insert-Descending x (sorted xs) (sorted-Descending xs)

-- Every candidate that score_candidates returns has an amount within a rupee of the transaction's and also a
-- date within three days or a token in common, so that the amount alone never suffices; and the scores do
-- not rise along the list.
pub score_candidates-Supported :
    (t : Transaction) (cs : List Candidate)
    → All (Supported t) (score_candidates t cs) × Descending (score_candidates t cs)
unfolding score_candidates
score_candidates-Supported t cs = (
  sorted-All (Supported t) (score_loop t cs) (score_loop-Supported t cs),
  sorted-Descending (score_loop t cs),
)
