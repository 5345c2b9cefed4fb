-- ===== src/Matching/Reconcile/Chosen.antt =====
-- Theorems on the choice of a match by reconcile in firmos-backend/engines/reconcile.py.
use firmos.Base.{ℕ, ◌≡◌, inl, inr, true, false, Option, none, List, [], ◌∷◌, arith, Bool-cases}
use firmos.Base.Text.{Text}
use firmos.Base.Lists.{All}
use firmos.Base.Float.{Float, lt_float}
use firmos.Base.Float.Order.{lt_float-false_trans, lt_float_asym, lt_float_irrefl}
use firmos.Matching.Reconcile.{Line, Best, best_score, score_of, improve, best_loop}
use firmos.Matching.Reconcile.Laws.{AdmittedIf, best_loop-AdmittedIf, taken}

module _ (ratio : Text → Text → Float) where
  -- A better candidate is beaten by nothing that the former was not beaten by.
  taken-false_mono :
      (src : Line) (matched : List ℕ) (b b' : Option Best) (tgt : Line)
      → lt_float (best_score b') (best_score b) ≡ false
      → taken ratio src matched b tgt ≡ false
      → taken ratio src matched b' tgt ≡ false
  taken-false_mono src matched b b' tgt h e =
      ground (arith, lt_float-false_trans (score_of ratio src tgt) (best_score b) (best_score b'))

  improve-kept :
      (src : Line) (matched : List ℕ) (b : Option Best) (tgt : Line)
      → (lt_float (best_score (improve ratio src matched b tgt)) (best_score b) ≡ false)
        × (taken ratio src matched (improve ratio src matched b tgt) tgt ≡ false)
  unfolding improve
  improve-kept src matched b tgt = elim (Bool-cases (taken ratio src matched b tgt)) [
    | inl better ↦
        let more : lt_float (best_score b) (score_of ratio src tgt) ≡ true = ground arith in
        let self = lt_float_irrefl (score_of ratio src tgt) in
        rw better (lt_float_asym (best_score b) (score_of ratio src tgt) more, ground (arith, self))
    | inr worse ↦ rw worse (lt_float_irrefl (best_score b), worse)
  ]

  best_loop-score :
      (src : Line) (matched : List ℕ) (tgts : List Line) (b : Option Best)
      → lt_float (best_score (best_loop ratio src matched tgts b)) (best_score b) ≡ false
  unfolding best_loop
  best_loop-score src matched [] b = lt_float_irrefl (best_score b)
  best_loop-score src matched (tgt ∷ tgts) b =
      let b' = improve ratio src matched b tgt in
      lt_float-false_trans (best_score b) (best_score b')
        (best_score (best_loop ratio src matched tgts b')) (improve-kept src matched b tgt).0
        (best_loop-score src matched tgts b')

  best_loop-unbeaten :
      (src : Line) (matched : List ℕ) (tgts : List Line) (b : Option Best)
      → All (λ tgt. taken ratio src matched (best_loop ratio src matched tgts b) tgt ≡ false) tgts
  unfolding best_loop
  best_loop-unbeaten src matched [] b = tt
  best_loop-unbeaten src matched (tgt ∷ tgts) b =
      let b' = improve ratio src matched b tgt in
      (
        taken-false_mono src matched b' (best_loop ratio src matched tgts b') tgt
            (best_loop-score src matched tgts b') (improve-kept src matched b tgt).1,
        best_loop-unbeaten src matched tgts b',
      )

  -- What reconcile's inner loop chooses for a source is a target that no earlier source took, with the same
  -- GSTIN and reference or else within the tolerance and with a name score of at least 75; its score and flag
  -- are those of the pair, and no target that it could have taken has a higher score.
  pub best_loop-chosen :
      (src : Line) (matched : List ℕ) (tgts : List Line)
      → AdmittedIf ratio src matched (best_loop ratio src matched tgts none)
        × All
            (λ tgt. taken ratio src matched (best_loop ratio src matched tgts none) tgt ≡ false)
            tgts
  best_loop-chosen src matched tgts = (
    best_loop-AdmittedIf ratio src matched tgts none tt,
    best_loop-unbeaten src matched tgts none,
  )
