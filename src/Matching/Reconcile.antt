-- ===== src/Matching/Reconcile.antt =====
-- firmos-backend/engines/reconcile.py. An identity of a line is compared alone, so it is a number, and the
-- empty text stands for a missing GSTIN or reference. fuzz.token_sort_ratio is a parameter on the lowered
-- counterparties. A match's id, a digest of the two identities, is left out.
pub mod Laws
pub mod Chosen
pub mod Totals
use firmos.Base.{
  ℕ, suc, ◌+◌, ◌-◌, ◌*◌, Bool, true, false, ◌&&◌, ◌||◌, not, Option, none, some, List, [], ◌∷◌,
  ◌++◌, map, if◌then◌else◌, ltb, leb, ◌==◌,
}
use firmos.Base.Text.{Text, same_text, lower, is_empty_text}
use firmos.Base.Lists.{keep, length, member}
use firmos.Base.Int.{ℤ, pos, ◌+ℤ◌, ◌-ℤ◌, abs}
use firmos.Base.Float.{Float, of_int, add, mul, div, sub_or_zero, round2, round_ratio, lt_float}

-- ReconLine
pub record Line : Type 0 where
  pub id : ℕ
  pub counterparty : Text
  pub amount : ℤ
  pub ref : Text
  pub gstin : Text

pub data Status : Type 0 where
  auto_matched suggested unmatched : Status

pub data Flag : Type 0 where
  amount_mismatch portal_entry_not_in_books : Flag

-- ReconMatch, which has a source, a target or both.
pub data Match : Type 0 where
  paired : Status → Float → Line → Line → Option Flag → Match
  source_only target_only : Line → Match

abbrev pub amount_tolerance : ℕ
amount_tolerance = 100

abbrev pub fuzzy_threshold : ℕ
fuzzy_threshold = 75

-- `a and b and a == b`
abbrev pub both_same : Text → Text → Bool
both_same a b = not (is_empty_text a) && not (is_empty_text b) && same_text a b

unfoldable pub key_match : Line → Line → Bool
key_match src tgt = both_same src.gstin tgt.gstin && both_same src.ref tgt.ref

abbrev pub amount_diff : Line → Line → ℕ
amount_diff src tgt = abs (src.amount -ℤ tgt.amount)

-- The candidate with the best score so far.
pub record Best : Type 0 where
  pub match : Line
  pub score : Float
  pub flag : Option Flag

abbrev pub best_score : Option Best → Float
best_score none = of_int 0
best_score (some b) = b.score

abbrev pub flag_of : Line → Line → Option Flag
flag_of src tgt = if ltb amount_tolerance (amount_diff src tgt) then some amount_mismatch else none

-- `combined`, from the names' score.
unfoldable pub combined : Bool → Float → ℕ → Float
combined true name_score diff = of_int 1
combined false name_score diff =
    let amount_score = sub_or_zero (of_int 100) (div (of_int diff) (of_int 100)) in
    div (add (mul name_score (round_ratio 6 10)) (mul amount_score (round_ratio 4 10))) (of_int 100)

module _ (token_sort_ratio : Text → Text → Float) where
  abbrev pub name_score : Line → Line → Float
  name_score src tgt = token_sort_ratio (lower src.counterparty) (lower tgt.counterparty)

  -- The two `continue`s after the key test.
  unfoldable pub passes : Line → Line → Bool
  unfolding key_match
  passes src tgt =
      key_match src tgt
      || (leb (amount_diff src tgt) amount_tolerance
          && not (lt_float (name_score src tgt) (of_int fuzzy_threshold)))

  abbrev pub score_of : Line → Line → Float
  score_of src tgt = combined (key_match src tgt) (name_score src tgt) (amount_diff src tgt)

  -- One target of the inner loop.
  unfoldable pub improve : Line → List ℕ → Option Best → Line → Option Best
  unfolding passes combined
  improve src matched best tgt =
      if not (member tgt.id matched)
        && passes src tgt
        && lt_float (best_score best) (score_of src tgt)
      then some (record { match = tgt; score = score_of src tgt; flag = flag_of src tgt })
      else best

  unfoldable pub best_loop : Line → List ℕ → List Line → Option Best → Option Best
  unfolding improve
  best_loop src matched [] best = best
  best_loop src matched (tgt ∷ tgts) best =
      best_loop src matched tgts (improve src matched best tgt)

  -- `best_score >= 0.8`
  abbrev pub status_of : Float → Status
  status_of score = if lt_float score (round_ratio 8 10) then suggested else auto_matched

  abbrev pub match_of : Line → Option Best → Match
  match_of src none = source_only src
  match_of src (some b) = paired (status_of b.score) (round2 b.score) src b.match b.flag

  abbrev pub mark : Option Best → List ℕ → List ℕ
  mark none matched = matched
  mark (some b) matched = b.match.id ∷ matched

  -- The loop over the sources, with the identities of the targets matched so far.
  unfoldable pub source_loop : List Line → List Line → List ℕ → List Match × List ℕ
  unfolding best_loop
  source_loop tgts [] matched = ([], matched)
  source_loop tgts (src ∷ srcs) matched =
      let best = best_loop src matched tgts none in
      let (rows, matched') = source_loop tgts srcs (mark best matched) in
      (match_of src best ∷ rows, matched')

  unfoldable pub matches : List Line → List Line → List Match
  unfolding source_loop
  matches srcs tgts =
      let (rows, matched) = source_loop tgts srcs [] in
      rows ++ map target_only (keep (λ t. not (member t.id matched)) tgts)

-- ReconciliationSummary
abbrev pub status : Match → Status
status (paired s score src tgt flag) = s
status (source_only src) = unmatched
status (target_only tgt) = unmatched

-- `(m.source or m.target).amount`
abbrev pub amount_of : Match → ℤ
amount_of (paired s score src tgt flag) = src.amount
amount_of (source_only src) = src.amount
amount_of (target_only tgt) = tgt.amount

abbrev pub same_status : Status → Status → Bool
same_status auto_matched auto_matched = true
same_status suggested suggested = true
same_status unmatched unmatched = true
same_status _ _ = false

abbrev pub with_status : Status → List Match → List Match
with_status s = keep (λ m. same_status (status m) s)

unfoldable pub total : List Match → ℤ
total [] = pos 0
total (m ∷ ms) = amount_of m +ℤ total ms

pub record Summary : Type 0 where
  pub auto_count : ℕ
  pub suggested_count : ℕ
  pub unmatched_count : ℕ
  pub total_auto : ℤ
  pub total_suggested : ℤ
  pub total_unmatched : ℤ

unfoldable pub summarize : List Match → Summary
unfolding total
summarize ms = record {
  auto_count = length (with_status auto_matched ms);
  suggested_count = length (with_status suggested ms);
  unmatched_count = length (with_status unmatched ms);
  total_auto = total (with_status auto_matched ms);
  total_suggested = total (with_status suggested ms);
  total_unmatched = total (with_status unmatched ms);
}

unfoldable pub reconcile : (Text → Text → Float) → List Line → List Line → List Match × Summary
unfolding matches summarize
reconcile token_sort_ratio srcs tgts =
    let ms = matches token_sort_ratio srcs tgts in (ms, summarize ms)
