-- ===== src/Tally/Agent/Verified.antt =====
-- What a report that is verified says: report_result of firmos-backend/api/routes/tally_agent_actions.py.
use firmos.Base.{
  ℕ, ◌≡◌, refl, ap, ◌∙◌, Bool, true, Option, none, some, List, [], ◌∷◌, ◌++◌, map, inl, inr,
  Option-cases, arith, ◌==◌,
}
use firmos.Base.Lists.{All, find}
use firmos.Base.Text.{Text, codes, eq_of_same_text}
use firmos.Base.Result.{
  Result, ok, raised, reraise, bind-ok, ok_injective, Ensures, returns, binds, ensured,
}
use firmos.Actions.Status.{Status}
use firmos.Tally.{Line}
use firmos.Tally.Voucher.{Voucher}
use firmos.Tally.Compare.{Readback, Mismatch, actual_entries}
use firmos.Tally.Compare.Laws.{IsCopy, compare_purchase-IsCopy, compare_sales-IsCopy}
use firmos.Tally.Agent.{
  Store, Action, Device, Operation, Payload, sales_voucher_create, purchase_voucher_create,
  other_operation, holds_lease, update_jobs,
}
use firmos.Tally.Agent.Rows.{update_where-set}
use firmos.Tally.Agent.Claim.{validate, deterministic_remote_id}
use firmos.Tally.Agent.Report.{
  ActionResult, accepted_readback, Difference, guid_difference, compare, is_none, outcome, Reply,
  final_status, finish_job, reject, differences, verify, settle, settle_found, report_result,
  field_differs,
}

abbrev pub kind_of : Operation → Text
kind_of sales_voucher_create = codes "Sales"
kind_of _ = codes "Purchase"

module _ (compact_date : Text → Option Text) where
  -- The read-back shows the voucher that the payload validates to, in balance.
  pub record Shows (operation : Operation) (p : Payload) (r : Readback) (remote : Text)
      : Type 0 where
    pub voucher : Voucher
    pub lines : List Line
    pub is_valid : validate compact_date operation p ≡ ok voucher
    pub are_lines : actual_entries r.entries ≡ ok lines
    pub is_copy : IsCopy (kind_of operation) remote voucher r lines

  compare-Shows :
      (operation : Operation) (p : Payload) (r : Readback) (remote : Text)
      → compare compact_date operation p r remote ≡ ok []
      → Shows operation p r remote
  unfolding compare validate
  compare-Shows sales_voucher_create p r remote h =
      let (v, lines, hv, hl, copy) = compare_sales-IsCopy p.sale r remote h in
      record { voucher = v; lines = lines; is_valid = hv; are_lines = hl; is_copy = copy }
  compare-Shows purchase_voucher_create p r remote h =
      let (v, lines, _, hv, hl, _, copy, _) =
        compare_purchase-IsCopy compact_date p.purchase r remote h in
      record { voucher = v; lines = lines; is_valid = hv; are_lines = hl; is_copy = copy }
  compare-Shows other_operation p r remote h =
      let (v, lines, _, hv, hl, _, copy, _) =
        compare_purchase-IsCopy compact_date p.purchase r remote h in
      record { voucher = v; lines = lines; is_valid = hv; are_lines = hl; is_copy = copy }

reraise-ok {ℓ} :
    {E F : Type 0} {A : Type ℓ} (f : F) (m : Result E A) (a : A) → reraise f m ≡ ok a → m ≡ ok a
unfolding reraise
reraise-ok f (ok b) a h = ap (λ r. elim r [ ok x ↦ ok x | raised e ↦ ok b ]) h
reraise-ok f (raised e) a h = cc

no_differences :
    (ms : List Mismatch) (guid : Text) (r : Readback)
    → is_none (map field_differs ms ++ guid_difference guid r) ≡ true
    → (ms ≡ []) × (r.guid ≡ guid)
no_differences [] guid r h = (refl, eq_of_same_text r.guid guid (ground arith))
no_differences (m ∷ ms) guid r h = cc

-- Every row of an id has a status.
abbrev pub HasStatus : ℕ → Status → Store → Type 0
HasStatus id status s = All (λ (a : Action). (a.id == id) ≡ true → a.status ≡ status) s.actions

module _ (compact_date : Text → Option Text) (str_id : ℕ → Text)
    (projection_raises : Operation → ℕ → Bool) where
  differences-none :
      (a : Action) (guid : Text) (r : Readback) (ms : List Difference)
      → differences compact_date str_id projection_raises a guid r ≡ ok ms
      → is_none ms ≡ true
      → (r.guid ≡ guid)
        × Shows compact_date a.operation a.payload r (deterministic_remote_id (str_id a.id))
  unfolding differences
  differences-none a guid r ms h empty =
      let remote = deterministic_remote_id (str_id a.id) in
      let (found, hf, e) = bind-ok _ _ ms h in
      let (none_found, same) = no_differences found guid r (ap is_none (ok_injective e) ∙ empty) in
      let agreed = reraise-ok _ (compare compact_date a.operation a.payload r remote) found hf in
      (same, compare-Shows compact_date a.operation a.payload r remote (agreed ∙ ap ok none_found))

  -- The result of a request that a found action is settled by.
  abbrev pub Settles : ActionResult → Action → Reply × Store → Type 0
  Settles body a result =
      HasStatus a.id result.0.status result.1
      × (result.0.verified ≡ true
          → (result.0.status ≡ Status.succeeded)
            × (r : Readback) × (accepted_readback body ≡ some r)
            × (r.guid ≡ body.provider_guid)
            × Shows compact_date a.operation a.payload r (deterministic_remote_id (str_id a.id)))

  reject-Settles :
      (body : ActionResult) (a : Action) (s : Store)
      → Ensures (Settles body a) (reject compact_date str_id projection_raises body a.id s)
  unfolding reject finish_job update_jobs
  reject-Settles body a s = binds _ _ λ s' h. returns _ (
    update_where-set (λ b. b.status ≡ final_status body.status) a.id _ s s' (λ b. refl) h,
    λ e. cc,
  )

  verify-Settles :
      (body : ActionResult) (a : Action) (r : Readback) (s : Store)
      → accepted_readback body ≡ some r
      → Ensures
          (Settles body a)
          (verify compact_date str_id projection_raises a body.provider_guid r s)
  unfolding verify finish_job update_jobs
  verify-Settles body a r s there = binds _ _ λ ms hm. binds _ _ λ s1 _. binds _ _ λ s2 _.
      binds _ _ λ _ _. binds _ _ λ s3 h. returns _ (
        update_where-set (λ b. b.status ≡ outcome (is_none ms)) a.id _ _ s3 (λ b. refl) h,
        λ clean.
            let shown = differences-none a body.provider_guid r ms hm clean in
            (ap outcome clean, r, there, shown.0, shown.1),
      )

  settle-Settles :
      (body : ActionResult) (a : Action) (s : Store)
      → Ensures (Settles body a) (settle compact_date str_id projection_raises body a s)
  unfolding settle
  settle-Settles body a s = elim (Option-cases (accepted_readback body)) [
    | inl missing ↦ rw (missing, settle) (reject-Settles body a s)
    | inr (r, there) ↦ rw (there, settle) (verify-Settles body a r s there)
  ]

  settle_found-Settles :
      (body : ActionResult) (found : Option Action) (s : Store) (result : Reply × Store)
      → settle_found compact_date str_id projection_raises body found s ≡ ok result
      → (a : Action) × (found ≡ some a) × Settles body a result
  unfolding settle_found
  settle_found-Settles body none s result h = cc
  settle_found-Settles body (some a) s result h =
      (a, refl, ensured result h (binds _ _ λ s1 _. settle-Settles body a s1))

  -- A report that returns was made by the device that holds the action's lease, and leaves the
  -- action's rows with the status of the reply. One whose reply says verified leaves them SUCCEEDED,
  -- and carried a read-back with the reported guid which shows the voucher that the approved
  -- payload validates to: its remote id, company, type, date, party, total and lines, in balance.
  pub report_result-Settles :
      (d : Device) (id : ℕ) (body : ActionResult) (s s' : Store) (reply : Reply)
      → report_result compact_date str_id projection_raises d id body s ≡ ok (reply, s')
      → (a : Action) × (find (holds_lease d id) s.actions ≡ some a) × Settles body a (reply, s')
  unfolding report_result
  report_result-Settles d id body s s' reply =
      settle_found-Settles body (find (holds_lease d id) s.actions) s (reply, s')
