-- ===== src/Tally/Agent/Precondition.antt =====
-- _precondition of firmos-backend/api/routes/tally_agent_actions.py and version_support of
-- connectors/tally/versions.py. The tables that these routes only read are lists of rows. The
-- certified versions are an argument too: certified_tally_versions are those of the source.
use firmos.Base.{
  ℕ, ◌+◌, Bool, true, false, ◌&&◌, ◌||◌, not, Option, none, some, List, [], if◌then◌else◌, ltb,
  ◌==◌,
}
use firmos.Base.Lists.{any, find}
use firmos.Base.Text.{Text, codes, same_text, strip, upper}
use firmos.Actions.Store.{Provider}
use firmos.Hardening.Flags.{Settings, Connection, Scope, scoped_write_block_reason}
use firmos.Tally.Agent.{
  Device, Operation, Reason, purchase_voucher_create, sales_voucher_create, other_operation,
  device_unhealthy, tally_license_unsupported, tally_version_uncertified,
  installation_write_disabled, read_sync_required, certification_l5_required, mappings_required,
  write_blocked,
}

-- A row of tally_devices.
pub record DeviceRow : Type 0 where
  pub id : ℕ
  pub last_seen_at : Option ℕ
  pub license_mode : Text
  pub tally_version : Text
  pub write_enabled : Bool

-- A row of tally_sync_logs.
pub record SyncLog : Type 0 where
  pub installation_id : ℕ
  pub company_guid : Text
  pub is_success : Bool
  pub is_complete : Bool

-- A row of capability_certifications.
pub record Certification : Type 0 where
  pub firm_id : ℕ
  pub capability_key : Operation
  pub provider : Provider
  pub provider_version : Text
  pub installation_id : ℕ
  pub certification_level : ℕ

-- A row of connector_mappings, and of tally_ledgers.
pub record Mapping : Type 0 where
  pub installation_id : ℕ
  pub mapping_type : Text
  pub active : Bool

pub record Ledger : Type 0 where
  pub installation_id : ℕ
  pub company_guid : Text
  pub name : Text
  pub active : Bool

-- What the routes read: `key` numbers the operations for the overrides.
pub record Site : Type 0 where
  pub devices : List DeviceRow
  pub sync_logs : List SyncLog
  pub certifications : List Certification
  pub mappings : List Mapping
  pub ledgers : List Ledger
  pub certified_versions : List Text
  pub settings : Settings
  pub connection : Connection
  pub key : Operation → ℕ

abbrev pub same_operation : Operation → Operation → Bool
same_operation purchase_voucher_create purchase_voucher_create = true
same_operation sales_voucher_create sales_voucher_create = true
same_operation other_operation other_operation = true
same_operation _ _ = false

abbrev pub is_tally : Provider → Bool
is_tally Provider.tally_prime = true
is_tally _ = false

-- 15 minutes
abbrev pub health_window : ℕ
health_window = 900

-- CERTIFIED_TALLY_VERSIONS
abbrev pub certified_tally_versions : List Text
certified_tally_versions = []

abbrev pub is_educational : Text → Bool
is_educational mode =
    same_text (upper mode) (codes "EDUCATIONAL")
    || same_text (upper mode) (codes "SILVER EDUCATIONAL")

-- `version_support(version)["xml_write"]`
unfoldable pub xml_write : List Text → Text → Bool
unfolding strip
xml_write certified version = any (same_text (strip version)) certified

abbrev pub has_synced : Device → List SyncLog → Bool
has_synced d = any λ l.
    l.installation_id == d.installation_id
    && (same_text l.company_guid d.company_guid && (l.is_success && l.is_complete))

abbrev pub has_certification : Device → Operation → Text → List Certification → Bool
has_certification d operation version = any λ c.
    c.firm_id == d.firm_id
    && (same_operation c.capability_key operation
        && (is_tally c.provider
            && (same_text c.provider_version version
                && (c.installation_id == d.installation_id && c.certification_level == 5))))

abbrev pub has_mapping : Device → Text → List Mapping → Bool
has_mapping d kind =
    any λ m. m.installation_id == d.installation_id && (m.active && same_text m.mapping_type kind)

abbrev pub scope_of : Site → Device → Operation → Scope
scope_of w d operation = record {
  provider = Provider.tally_prime;
  firm_id = d.firm_id;
  client_id = d.client_id;
  installation_id = 0;
  capability_key = w.key operation;
}

unfoldable pub device_reason : Site → Device → Operation → DeviceRow → Option Reason
unfolding xml_write scoped_write_block_reason
device_reason w d operation row =
    if is_educational row.license_mode
    then some tally_license_unsupported
    else if not (xml_write w.certified_versions row.tally_version)
    then some tally_version_uncertified
    else if not row.write_enabled
    then some installation_write_disabled
    else if not (has_synced d w.sync_logs)
    then some read_sync_required
    else if not (has_certification d operation row.tally_version w.certifications)
    then some certification_l5_required
    else if not
        (has_mapping d (codes "company") w.mappings && has_mapping d (codes "ledger") w.mappings)
    then some mappings_required
    else elim (scoped_write_block_reason w.settings (scope_of w d operation) w.connection) [
      | none ↦ none
      | some reason ↦ some (write_blocked reason)
    ]

-- `last_seen_at > NOW() - interval '15 minutes'`, which is not true of NULL.
abbrev pub is_healthy : ℕ → Option ℕ → Bool
is_healthy now none = false
is_healthy now (some t) = ltb now (t + health_window)

unfoldable pub precondition : Site → ℕ → Device → Operation → Option Reason
unfolding device_reason
precondition w now d operation = elim (find (λ r. r.id == d.id) w.devices) [
  | none ↦ some device_unhealthy
  | some row ↦
      if is_healthy now row.last_seen_at
      then device_reason w d operation row
      else some device_unhealthy
]
