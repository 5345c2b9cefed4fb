-- ===== src/Workpapers/Rows/Laws.antt =====
-- Theorems on the ITC tables of firmos-backend/core/gst_workpapers/calculation.py.
use Prim.Native.String.{String}
use firmos.Base.{◌≡◌, refl, Bool, true, false, ◌&&◌, ◌||◌, not, Option, none, some, if◌then◌else◌}
use firmos.Base.Text.{codes, contains, upper}
use firmos.Base.Dict.{is_some}
use firmos.Workpapers.{Review, Treatment, reviewer_adjusted, system_calculated, imported}
use firmos.Workpapers.Rows.{
  reversal, ineligible, labelled, is_rejected, is_pending, itc_table, itc_other, itc_rcm,
  itc_reversed, itc_ineligible, Warning, itc_decision_required, rcm_payment_evidence_required,
  imported_if,
}

-- A table of claimed credit.
abbrev pub is_claim : String → Bool
is_claim table = contains (codes "4(A)") (codes table)

-- The policy on a purchase: whether its credit is refused outright, whether a decision or an evidence is
-- still open, and whether it may be claimed.
unfoldable pub refused : Review → Bool
refused r =
    labelled reversal (upper r.itc_classification)
    || labelled ineligible (upper r.itc_classification)
    || is_rejected r

unfoldable pub open_question : Review → Bool
open_question r =
    is_pending r
    || (r.reverse_charge && not (contains (codes "RCM_PAID") (upper r.itc_classification)))

-- The table and the warning by the tests of _itc_table.
decided :
    Bool → Bool → Bool → Bool → Bool → Bool → Treatment → String × (Treatment × Option Warning)
decided reversed labelled rejected pending charge paid t =
    if reversed
    then (itc_reversed, (reviewer_adjusted, none))
    else if labelled || rejected
    then (itc_ineligible, (t, none))
    else if pending
    then (itc_ineligible, (t, some itc_decision_required))
    else if charge
    then if paid
      then (itc_rcm, (reviewer_adjusted, none))
      else (itc_ineligible, (system_calculated, some rcm_payment_evidence_required))
    else (itc_other, (imported, none))

abbrev Policy : Bool → Bool → String × (Treatment × Option Warning) → Type 0
Policy denied unsettled row =
    (is_claim row.0 ≡ not denied && not unsettled) × (is_some row.1.1 ≡ not denied && unsettled)

decided-Policy :
    (reversed labels rejected pending charge paid : Bool) (t : Treatment)
    → Policy
        (reversed || labels || rejected)
        (pending || (charge && not paid))
        (decided reversed labels rejected pending charge paid t)
unfolding decided
decided-Policy true labels rejected pending charge paid t = (refl, refl)
decided-Policy false true rejected pending charge paid t = (refl, refl)
decided-Policy false false true pending charge paid t = (refl, refl)
decided-Policy false false false true charge paid t = (refl, refl)
decided-Policy false false false false true true t = (refl, refl)
decided-Policy false false false false true false t = (refl, refl)
decided-Policy false false false false false paid t = (refl, refl)

-- _itc_table puts a purchase in a table of claimed credit exactly if the credit is not refused outright (by a
-- label of a reversal or of ineligibility, or a rejected match or IMS decision) and nothing is open (a
-- pending decision, or a reverse charge without a record of its payment); it raises an exception exactly if
-- it is not refused and something is open.
pub itc_table-policy :
    (r : Review)
    → (is_claim (itc_table r).0 ≡ not (refused r) && not (open_question r))
      × (is_some (itc_table r).1.1 ≡ not (refused r) && open_question r)
unfolding itc_table refused open_question decided
itc_table-policy r =
    decided-Policy (labelled reversal (upper r.itc_classification))
      (labelled ineligible (upper r.itc_classification)) (is_rejected r) (is_pending r)
      r.reverse_charge (contains (codes "RCM_PAID") (upper r.itc_classification))
      (imported_if r.match_decision)
