-- ===== src/Matching/Bank.antt =====
-- firmos-backend/engines/bank_matcher.py, on the transactions of firmos-backend/engines/bank_types.py. The
-- identity of a candidate is compared nowhere, so it is a number; a date is the number of its day. The
-- reasons are texts and are left out.
pub mod Laws
use firmos.Base.{
  ℕ, suc, ◌≡◌, refl, Bool, true, false, ◌&&◌, ◌||◌, not, List, [], ◌∷◌, ◌++◌, if◌then◌else◌, ltb,
  leb, ◌==◌,
}
use firmos.Base.Int.{ℤ, pos, ◌-ℤ◌, abs, eqb_ℤ}
use firmos.Base.Float.{Float, of_int, add, mul, round_ratio, lt_float}
use firmos.Base.Lists.{any, length}
use firmos.Base.Text.{Text, codes, same_text, upper, is_alphanumeric}

pub record Transaction : Type 0 where
  pub txn_date : ℕ
  pub debit : ℤ
  pub credit : ℤ
  pub normalized_tokens : List Text

-- BankTransaction.amount_paise
abbrev pub amount_paise : Transaction → ℤ
amount_paise t = if eqb_ℤ t.credit (pos 0) then t.debit else t.credit

pub record Candidate : Type 0 where
  pub candidate_id : ℕ
  pub txn_date : ℕ
  pub amount : ℤ
  pub party : Text
  pub reference : Text

pub record Scored : Type 0 where
  pub candidate : Candidate
  pub score : Float

-- _tokens: the longest runs of `[A-Z0-9]`, of three characters or more; `run` is the one that is read.
abbrev pub long_run : Text → List Text
long_run run = if leb 3 (length run) then run ∷ [] else []

unfoldable pub runs : Text → Text → List Text
runs run [] = long_run run
runs run (c ∷ cs) = elim (is_alphanumeric c) [
  | true ↦ runs (run ++ (c ∷ [])) cs
  | false ↦ long_run run ++ runs [] cs
]

unfoldable pub tokens : Text → List Text
unfolding runs
tokens value = runs [] (upper value)

-- The size of an intersection of sets.
abbrev pub has_text : Text → List Text → Bool
has_text t ts = any (λ s. same_text s t) ts

unfoldable pub overlap : List Text → List Text → ℕ
overlap [] refs = 0
overlap (t ∷ ts) refs =
    let rest = overlap ts refs in if not (has_text t ts) && has_text t refs then suc rest else rest

abbrev pub day_drift : Transaction → Candidate → ℕ
day_drift t c = abs (pos c.txn_date -ℤ pos t.txn_date)

unfoldable pub shared_tokens : Transaction → Candidate → ℕ
unfolding overlap tokens
shared_tokens t c = overlap t.normalized_tokens (tokens (c.reference ++ (codes " " ++ c.party)))

abbrev pub min_float : Float → Float → Float
min_float a b = if lt_float b a then b else a

abbrev pub amount_score : Float
amount_score = round_ratio 45 100

unfoldable pub score_of : Transaction → Candidate → Float
unfolding shared_tokens
score_of t c =
    let dated =
      if leb (day_drift t c) 3 then add amount_score (round_ratio 2 10) else amount_score in
    let n = shared_tokens t c in
    if ltb 0 n
    then add dated (min_float (round_ratio 35 100) (mul (round_ratio 1 10) (of_int n)))
    else dated

abbrev pub is_near : Transaction → Candidate → Bool
is_near t c = leb (abs (c.amount -ℤ amount_paise t)) 100

unfoldable pub score_loop : Transaction → List Candidate → List Scored
unfolding score_of
score_loop t [] = []
score_loop t (c ∷ cs) =
    let rest = score_loop t cs in
    if is_near t c && lt_float amount_score (score_of t c)
    then record { candidate = c; score = min_float (score_of t c) (of_int 1) } ∷ rest
    else rest

-- `sorted(scored, key=..., reverse=True)`, which keeps the order of equal scores.
unfoldable pub insert : Scored → List Scored → List Scored
insert x [] = x ∷ []
insert x (y ∷ ys) =
    let rest = insert x ys in if lt_float x.score y.score then y ∷ rest else x ∷ y ∷ ys

unfoldable pub sorted : List Scored → List Scored
unfolding insert
sorted [] = []
sorted (x ∷ xs) = insert x (sorted xs)

unfoldable pub score_candidates : Transaction → List Candidate → List Scored
unfolding score_loop sorted
score_candidates t cs = sorted (score_loop t cs)

words : tokens (codes "neft-ac12 x/ACME") ≡ codes "NEFT" ∷ codes "AC12" ∷ codes "ACME" ∷ []
unfolding tokens runs
words = refl
