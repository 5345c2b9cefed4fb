-- ===== src/Tests/Agent.antt =====
-- The actions of a Tally device at concrete inputs.
use firmos.Base.{ℕ, ◌≡◌, refl, Bool, true, false, Option, none, some, [], ◌∷◌, arith, ◌+◌}
use firmos.Base.Int.{◌+ℤ◌, ◌-ℤ◌}
use firmos.Base.Lists.{find}
use firmos.Base.Text.{Text, codes, strip, drop_spaces}
use firmos.Base.Result.{ok, raised, ◌>>=◌, raise_if, reraise}
use firmos.Base.Sorting.{sorted, insert, same_list}
use firmos.Actions.Status.{Status, same_status, allowed, targets}
use firmos.Actions.Store.{Provider, has_match}
use firmos.Hardening.Flags.{
  scoped_write_block_reason, write_block_reason, override_reason, table, matches,
}
use firmos.Tally.{str_ℤ, digits}
use firmos.Tally.Voucher.{
  Sale, validate_purchase, validate_sales, read_entries, read_gst, given_entries,
}
use firmos.Tally.Compare.{
  compare_purchase, checks, text_mismatches, entries_mismatch, gst_mismatch, actual_entries,
  actual_gst, field, compare_sales,
}
use firmos.Tally.Agent.{
  Operation, Action, Device, Store, holds_lease, update_where, update_actions, before_update,
  update_jobs, conflict, action_lease_invalid, purchase_voucher_create,
}
use firmos.Tally.Agent.Precondition.{Site, Ledger, precondition, device_reason, xml_write}
use firmos.Tally.Agent.Claim.{
  Task, claim_action, renew_lease, take_oldest, take_action, checked_task, oldest, is_claimable,
  validate, distinct_names, raise_reason,
}
use firmos.Tally.Agent.Report.{
  ActionResult, Reported, Reply, report_result, settle_found, settle, verify, reject, differences,
  compare, finish_job,
}
use firmos.Tests.Tally.{iso, invoice, remote, shown, voucher}
use firmos.Tally.Agent.Verified.{report_result-Settles, Settles}
use firmos.Tally.Agent.Lease.{claim_action-exclusive, Leased}
use firmos.Tally.Agent.Stuck.{IsStuck}
use firmos.Tally.Agent.Steps.{claim_action-IsStuck, starts, goes, passes}
use firmos.Tally.Agent.Denied.{claim_action-denied}

abbrev str_id : ℕ → Text
str_id id = (b'0' + id) ∷ []

abbrev projects : Operation → ℕ → Bool
projects operation id = false

abbrev device : Device
device = record {
  id = 5;
  firm_id = 1;
  client_id = 2;
  installation_id = 3;
  company_guid = codes "g1";
  lease_owner = 55;
}

abbrev other_device : Device
other_device = record device { id = 6; lease_owner = 66 }

abbrev sale : Sale
sale = record {
  company_name = [];
  company_guid = [];
  party_ledger = [];
  sales_ledger = [];
  date = [];
  total_paise = none;
  entries = [];
  tax_total_paise = none;
  narration = [];
  reference = [];
  voucher_number = [];
}

abbrev action : Status → ℕ → Option ℕ → Option ℕ → Action
action status attempt lease expires = record {
  id = 1;
  firm_id = 1;
  client_id = 2;
  installation_id = 3;
  provider = Provider.tally_prime;
  operation = purchase_voucher_create;
  payload = record { purchase = invoice; sale = sale };
  status = status;
  attempt_number = attempt;
  lease_device_id = lease;
  lease_expires_at = expires;
  external_reference_id = [];
  created_at = 10;
}

abbrev store : Action → Store
store a = record { now = 1000; actions = a ∷ []; jobs = []; verifications = [] }

abbrev ledger : Text → Ledger
ledger name = record { installation_id = 3; company_guid = codes "g1"; name = name; active = true }

abbrev site : Site
site = record {
  devices =
      record {
        id = 5;
        last_seen_at = some 500;
        license_mode = codes "LICENSED";
        tally_version = codes "3.0";
        write_enabled = true;
      }
      ∷ [];
  sync_logs =
      record {
        installation_id = 3;
        company_guid = codes "g1";
        is_success = true;
        is_complete = true;
      }
      ∷ [];
  certifications =
      record {
        firm_id = 1;
        capability_key = purchase_voucher_create;
        provider = Provider.tally_prime;
        provider_version = codes "3.0";
        installation_id = 3;
        certification_level = 5;
      }
      ∷ [];
  mappings =
      record { installation_id = 3; mapping_type = codes "company"; active = true }
      ∷ record { installation_id = 3; mapping_type = codes "ledger"; active = true }
      ∷ [];
  ledgers = ledger (codes "IGST") ∷ ledger (codes "Vendor") ∷ ledger (codes "Purchases") ∷ [];
  certified_versions = codes "3.0" ∷ [];
  settings = record {
    provider_writes_enabled = true;
    zoho_writes_enabled = false;
    tally_writes_enabled = true;
  };
  connection = table [];
  key = λ operation. 7;
}

abbrev result : ActionResult
result = record {
  status = Reported.provider_accepted;
  provider_guid = codes "T1";
  readback = some shown;
}

abbrev verified_store : Store
verified_store =
    record (store
      (record (action Status.succeeded 1 (some 5) none) { external_reference_id = codes "T1" })) {
        verifications = record { action_id = 1; matched = true } ∷ [];
      }

abbrev verified_reply : Reply
verified_reply = record { status = Status.succeeded; verified = true; mismatches = [] }

reported :
    report_result iso str_id projects device 1 result
      (store (action Status.claimed 1 (some 5) (some 1090)))
    ≡ ok (verified_reply, verified_store)
unfolding report_result settle_found settle verify reject differences compare finish_job
    update_where update_actions before_update update_jobs allowed targets same_status has_match
    holds_lease compare_purchase compare_sales validate_purchase validate_sales strip drop_spaces
    given_entries read_entries read_gst ◌>>=◌ raise_if reraise ◌+ℤ◌ ◌-ℤ◌ actual_entries actual_gst
    checks text_mismatches entries_mismatch gst_mismatch field sorted insert same_list str_ℤ digits
reported = refl

report_result-Settles_example :
    (a : Action) × (find (holds_lease device 1) (action Status.claimed 1 (some 5) (some 1090) ∷ [])
      ≡ some a)
    × Settles iso str_id projects result a (verified_reply, verified_store)
report_result-Settles_example =
    report_result-Settles iso str_id projects device 1 result
      (store (action Status.claimed 1 (some 5) (some 1090))) verified_store verified_reply reported

abbrev task : Task
task = record {
  action_id = 1;
  operation = purchase_voucher_create;
  remote_id = remote;
  payload = voucher;
}

abbrev claimed_store : Store
claimed_store = store (action Status.claimed 1 (some 5) (some 1090))

-- The lease of another device ran out, and the action is claimed again.
claimed :
    claim_action iso str_id site device (store (action Status.claimed 0 (some 6) (some 900)))
    ≡ ok (some task, claimed_store)
unfolding claim_action take_oldest take_action checked_task oldest validate distinct_names
    raise_reason precondition device_reason xml_write scoped_write_block_reason write_block_reason
    override_reason matches update_where update_actions before_update update_jobs allowed targets
    same_status has_match holds_lease compare_purchase compare_sales validate_purchase
    validate_sales strip drop_spaces given_entries read_entries read_gst ◌>>=◌ raise_if reraise ◌+ℤ◌
    ◌-ℤ◌ actual_entries actual_gst checks text_mismatches entries_mismatch gst_mismatch field sorted
    insert same_list str_ℤ digits
claimed = refl

claim_action-exclusive_example :
    Leased device 1000 1 claimed_store
    × (report_result iso str_id projects other_device 1 result claimed_store
        ≡ raised (conflict action_lease_invalid))
    × (renew_lease other_device 1 claimed_store ≡ raised (conflict action_lease_invalid))
claim_action-exclusive_example =
    claim_action-exclusive iso str_id site projects device other_device task result
      (store (action Status.claimed 0 (some 6) (some 900))) claimed_store claimed refl

-- The third lease ran out.
abbrev spent_store : Store
spent_store = store (action Status.claimed 3 (some 5) (some 900))

abbrev waiting_store : Store
waiting_store = store (action Status.retry_scheduled 3 none none)

released : claim_action iso str_id site device spent_store ≡ ok (none, waiting_store)
unfolding claim_action take_oldest oldest update_where update_actions before_update update_jobs
    allowed targets same_status has_match holds_lease compare_purchase compare_sales
    validate_purchase validate_sales strip drop_spaces given_entries read_entries read_gst ◌>>=◌
    raise_if reraise ◌+ℤ◌ ◌-ℤ◌ actual_entries actual_gst checks text_mismatches entries_mismatch
    gst_mismatch field sorted insert same_list str_ℤ digits
released = refl

abbrev later : Store
later = record waiting_store { now = 9000 }

claim_action-IsStuck_example : IsStuck 1 later
unfolding same_status
claim_action-IsStuck_example =
    claim_action-IsStuck iso str_id site projects 1 device none spent_store waiting_store later
      released ((λ e. (refl, omega arith)), tt) (goes starts (passes 9000 refl))

abbrev uncertified : Site
uncertified = record site { certified_versions = [] }

released_uncertified :
    claim_action iso str_id uncertified device spent_store ≡ ok (none, waiting_store)
unfolding claim_action take_oldest oldest update_where update_actions before_update update_jobs
    allowed targets same_status has_match holds_lease compare_purchase compare_sales
    validate_purchase validate_sales strip drop_spaces given_entries read_entries read_gst ◌>>=◌
    raise_if reraise ◌+ℤ◌ ◌-ℤ◌ actual_entries actual_gst checks text_mismatches entries_mismatch
    gst_mismatch field sorted insert same_list str_ℤ digits
released_uncertified = refl

claim_action-denied_example :
    (◌≡◌ {A = Option Task} none none) × (oldest (is_claimable device) waiting_store.actions ≡ none)
claim_action-denied_example =
    claim_action-denied iso str_id uncertified device none spent_store waiting_store refl
      released_uncertified
