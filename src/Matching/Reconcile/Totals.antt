-- ===== src/Matching/Reconcile/Totals.antt =====
-- Theorems on the summary of reconcile in firmos-backend/engines/reconcile.py.
use mathlib.Core.Path.{ap₂}
use firmos.Base.{
  ℕ, ◌+◌, ◌≡◌, inl, inr, refl, ap, ◌∙◌, not, List, [], ◌∷◌, ◌++◌, map, arith, Option-cases, none,
}
use firmos.Base.Text.{Text}
use firmos.Base.Lists.{keep, length, member}
use firmos.Base.Int.{ℤ, pos, ◌+ℤ◌, int_laws}
use firmos.Base.Float.{Float}
use firmos.Matching.Reconcile.{
  Line, Match, paired, source_only, target_only, auto_matched, suggested, unmatched, with_status,
  total, summarize, source_loop, matches, reconcile, best_loop,
}

counts-length :
    (ms : List Match)
    → length (with_status auto_matched ms)
        + length (with_status suggested ms)
        + length (with_status unmatched ms)
      ≡ length ms
counts-length [] = refl
counts-length (paired auto_matched r s t f ∷ ms) = omega (arith, counts-length ms)
counts-length (paired suggested r s t f ∷ ms) = omega (arith, counts-length ms)
counts-length (paired unmatched r s t f ∷ ms) = omega (arith, counts-length ms)
counts-length (source_only s ∷ ms) = omega (arith, counts-length ms)
counts-length (target_only t ∷ ms) = omega (arith, counts-length ms)

totals-total :
    (ms : List Match)
    → total (with_status auto_matched ms)
        +ℤ (total (with_status suggested ms) +ℤ total (with_status unmatched ms))
      ≡ total ms
unfolding total
totals-total [] = grind int_laws
totals-total (paired auto_matched r s t f ∷ ms) = grind (int_laws, totals-total ms)
totals-total (paired suggested r s t f ∷ ms) = grind (int_laws, totals-total ms)
totals-total (paired unmatched r s t f ∷ ms) = grind (int_laws, totals-total ms)
totals-total (source_only s ∷ ms) = grind (int_laws, totals-total ms)
totals-total (target_only t ∷ ms) = grind (int_laws, totals-total ms)

-- The total amount of lines.
unfoldable pub lines_total : List Line → ℤ
lines_total [] = pos 0
lines_total (l ∷ ls) = l.amount +ℤ lines_total ls

total-append : (xs ys : List Match) → total (xs ++ ys) ≡ total xs +ℤ total ys
unfolding total
total-append [] ys = grind int_laws
total-append (x ∷ xs) ys = grind (int_laws, total-append xs ys)

total-targets : (tgts : List Line) → total (map target_only tgts) ≡ lines_total tgts
unfolding total lines_total
total-targets [] = refl
total-targets (t ∷ tgts) = ap (t.amount +ℤ◌) (total-targets tgts)

total-sources :
    (ratio : Text → Text → Float) (tgts srcs : List Line) (matched : List ℕ)
    → total (source_loop ratio tgts srcs matched).0 ≡ lines_total srcs
unfolding source_loop total lines_total
total-sources ratio tgts [] matched = refl
total-sources ratio tgts (src ∷ srcs) matched =
    elim (Option-cases (best_loop ratio src matched tgts none)) [
      | inl e ↦ rw e (ap (src.amount +ℤ◌) (total-sources ratio tgts srcs matched))
      | inr (b, e) ↦
          rw e (ap (src.amount +ℤ◌) (total-sources ratio tgts srcs (b.match.id ∷ matched)))
    ]

-- The target lines that no source was matched with.
abbrev pub left_over : (Text → Text → Float) → List Line → List Line → List Line
left_over ratio srcs tgts = keep (λ t. not (member t.id (source_loop ratio tgts srcs []).1)) tgts

-- The three counts of reconcile's summary make up its matches, and its three totals make up the amounts of
-- the source lines and of the target lines that no source was matched with.
pub reconcile-accounts :
    (ratio : Text → Text → Float) (srcs tgts : List Line)
    → let (ms, s) = reconcile ratio srcs tgts in
      (s.auto_count + s.suggested_count + s.unmatched_count ≡ length ms)
      × (s.total_auto +ℤ (s.total_suggested +ℤ s.total_unmatched)
          ≡ lines_total srcs +ℤ lines_total (left_over ratio srcs tgts))
unfolding reconcile summarize matches
reconcile-accounts ratio srcs tgts =
    let rest = left_over ratio srcs tgts in
    let ms = matches ratio srcs tgts in
    (
      counts-length ms,
      totals-total ms
          ∙ total-append (source_loop ratio tgts srcs []).0 (map target_only rest)
          ∙ ap₂ (λ a b. a +ℤ b) (total-sources ratio tgts srcs []) (total-targets rest),
    )
