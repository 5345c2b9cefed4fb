-- ===== src/Matching/Reconcile/Laws.antt =====
-- Theorems on the loops of reconcile in firmos-backend/engines/reconcile.py.
use mathlib.Core.Path.{subst}
use firmos.Base.{
  ℕ, ◌≡◌, inl, inr, refl, ap, ◌∙◌, Bool, true, false, ◌&&◌, ◌||◌, not, Option, none, some, List, [],
  ◌∷◌, ◌++◌, map, arith, Bool-cases, Option-cases,
}
use firmos.Base.Text.{Text}
use firmos.Base.Lists.{keep, member, member-map-rest, Distinct}
use firmos.Base.Float.{Float, lt_float}
use firmos.Matching.Reconcile.{
  Line, Match, paired, source_only, target_only, Best, best_score, flag_of, passes, score_of,
  improve, best_loop, source_loop, matches,
}

-- The targets that a match is with, and the sources and targets of a list of matches.
abbrev pub target_of : Match → List ℕ
target_of (paired s score src tgt flag) = tgt.id ∷ []
target_of (source_only src) = []
target_of (target_only tgt) = tgt.id ∷ []

abbrev pub source_of : Match → List Line
source_of (paired s score src tgt flag) = src ∷ []
source_of (source_only src) = src ∷ []
source_of (target_only tgt) = []

abbrev pub targets : List Match → List ℕ
targets [] = []
targets (m ∷ ms) = target_of m ++ targets ms

abbrev pub sources : List Match → List Line
sources [] = []
sources (m ∷ ms) = source_of m ++ sources ms

module _ (ratio : Text → Text → Float) where
  -- What a candidate of the inner loop meets.
  abbrev pub Admitted : Line → List ℕ → Best → Type 0
  Admitted src matched b =
      (member b.match.id matched ≡ false)
      × (passes ratio src b.match ≡ true)
      × (b.score ≡ score_of ratio src b.match)
      × (b.flag ≡ flag_of src b.match)

  abbrev pub AdmittedIf : Line → List ℕ → Option Best → Type 0
  AdmittedIf src matched none = Unit
  AdmittedIf src matched (some b) = Admitted src matched b

  abbrev pub taken : Line → List ℕ → Option Best → Line → Bool
  taken src matched best tgt =
      not (member tgt.id matched)
      && passes ratio src tgt
      && lt_float (best_score best) (score_of ratio src tgt)

  improve-AdmittedIf :
      (src : Line) (matched : List ℕ) (best : Option Best) (tgt : Line)
      → AdmittedIf src matched best
      → AdmittedIf src matched (improve ratio src matched best tgt)
  unfolding improve
  improve-AdmittedIf src matched best tgt h = elim (Bool-cases (taken src matched best tgt)) [
    | inl better ↦ rw better (ground arith, ground arith, refl, refl)
    | inr worse ↦ rw worse h
  ]

  pub best_loop-AdmittedIf :
      (src : Line) (matched : List ℕ) (tgts : List Line) (best : Option Best)
      → AdmittedIf src matched best
      → AdmittedIf src matched (best_loop ratio src matched tgts best)
  unfolding best_loop
  best_loop-AdmittedIf src matched [] best h = h
  best_loop-AdmittedIf src matched (tgt ∷ tgts) best h =
      best_loop-AdmittedIf src matched tgts (improve ratio src matched best tgt)
        (improve-AdmittedIf src matched best tgt h)

  best-unmatched :
      (src : Line) (matched : List ℕ) (tgts : List Line) (b : Best)
      → best_loop ratio src matched tgts none ≡ some b
      → member b.match.id matched ≡ false
  best-unmatched src matched tgts b e =
      (subst (AdmittedIf src matched) e (best_loop-AdmittedIf src matched tgts none tt)).0

  source_loop-matched :
      (tgts srcs : List Line) (matched : List ℕ) (k : ℕ)
      → member k (source_loop ratio tgts srcs matched).1
        ≡ member k (targets (source_loop ratio tgts srcs matched).0) || member k matched
  unfolding source_loop
  source_loop-matched tgts [] matched k = refl
  source_loop-matched tgts (src ∷ srcs) matched k =
      elim (Option-cases (best_loop ratio src matched tgts none)) [
        | inl e ↦ rw e (source_loop-matched tgts srcs matched k)
        | inr (b, e) ↦ rw e (ground (arith, source_loop-matched tgts srcs (b.match.id ∷ matched) k))
      ]

  source_loop-fresh :
      (tgts srcs : List Line) (matched : List ℕ) (k : ℕ)
      → member k matched ≡ true
      → member k (targets (source_loop ratio tgts srcs matched).0) ≡ false
  unfolding source_loop
  source_loop-fresh tgts [] matched k h = refl
  source_loop-fresh tgts (src ∷ srcs) matched k h =
      elim (Option-cases (best_loop ratio src matched tgts none)) [
        | inl e ↦ rw e (source_loop-fresh tgts srcs matched k h)
        | inr (b, e) ↦ rw e (
            ground (
              arith,
              source_loop-fresh tgts srcs (b.match.id ∷ matched) k,
              best-unmatched src matched tgts b e,
            ))
      ]

  -- No target is matched with two sources of reconcile's outer loop.
  pub source_loop-Distinct :
      (tgts srcs : List Line) (matched : List ℕ)
      → Distinct (targets (source_loop ratio tgts srcs matched).0)
  unfolding source_loop
  source_loop-Distinct tgts [] matched = tt
  source_loop-Distinct tgts (src ∷ srcs) matched =
      elim (Option-cases (best_loop ratio src matched tgts none)) [
        | inl e ↦ rw e (source_loop-Distinct tgts srcs matched)
        | inr (b, e) ↦ rw e (
          source_loop-fresh tgts srcs (b.match.id ∷ matched) b.match.id (grind arith),
          source_loop-Distinct tgts srcs (b.match.id ∷ matched),
        )
      ]

  pub source_loop-sources :
      (tgts srcs : List Line) (matched : List ℕ)
      → sources (source_loop ratio tgts srcs matched).0 ≡ srcs
  unfolding source_loop
  source_loop-sources tgts [] matched = refl
  source_loop-sources tgts (src ∷ srcs) matched =
      elim (Option-cases (best_loop ratio src matched tgts none)) [
        | inl e ↦ rw e (ap (◌∷◌ src) (source_loop-sources tgts srcs matched))
        | inr (b, e) ↦ rw e (ap (◌∷◌ src) (source_loop-sources tgts srcs (b.match.id ∷ matched)))
      ]

pub member-targets-append :
    (k : ℕ) (xs ys : List Match)
    → member k (targets (xs ++ ys)) ≡ member k (targets xs) || member k (targets ys)
member-targets-append k [] ys = refl
member-targets-append k (paired s score src tgt flag ∷ xs) ys =
    ground (arith, member-targets-append k xs ys)
member-targets-append k (source_only src ∷ xs) ys = member-targets-append k xs ys
member-targets-append k (target_only tgt ∷ xs) ys = ground (arith, member-targets-append k xs ys)

targets-only : (tgts : List Line) → targets (map target_only tgts) ≡ map (λ t. t.id) tgts
targets-only [] = refl
targets-only (t ∷ tgts) = ap (◌∷◌ t.id) (targets-only tgts)

-- Every target line is in some match of reconcile, with a source or on its own.
pub matches-targets :
    (ratio : Text → Text → Float) (srcs tgts : List Line) (k : ℕ)
    → member k (map (λ t. t.id) tgts) ≡ true
    → member k (targets (matches ratio srcs tgts)) ≡ true
unfolding matches
matches-targets ratio srcs tgts k e =
    let (rows, matched) = source_loop ratio tgts srcs [] in
    let rest = keep (λ t. not (member t.id matched)) tgts in
    let both = member-targets-append k rows (map target_only rest) in
    elim (Bool-cases (member k matched)) [
      | inl seen ↦ ground (arith, both, source_loop-matched ratio tgts srcs [] k)
      | inr free ↦
          let named : member k (targets (map target_only rest)) ≡ true =
            ap (member k) (targets-only rest) ∙ member-map-rest (λ t. t.id) matched tgts k free e in
          ground (arith, both, named)
    ]
