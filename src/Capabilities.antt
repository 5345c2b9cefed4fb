-- ===== src/Capabilities.antt =====
-- firmos-backend/connectors/platform/capabilities.py: what a firm may do with each provider. The texts of a
-- reason, of an action that the user is asked for, and of a message are the constructors of a type.
pub mod Laws
use firmos.Base.{
  ℕ, Bool, true, false, ◌&&◌, ◌||◌, not, Option, none, some, List, [], ◌∷◌, ◌++◌, map,
  if◌then◌else◌, ltb,
}
use firmos.Base.Dict.{Dict, lookup, get_or}
use firmos.Base.Lists.{any}
use firmos.Base.Text.{Text, codes, same_text, contains, upper}
use firmos.Actions.Store.{Provider}
use firmos.Hardening.Flags.{BlockReason, Override, Scope, same_provider, write_block_reason}
use firmos.Hardening.Flags

pub data CapabilityState : Type 0 where
  unavailable disabled internal_only configuration_required available degraded : CapabilityState
  blocked_auth blocked_mapping blocked_device failed_certification : CapabilityState

pub data ReasonCode : Type 0 where
  no_reason not_implemented manual_review_required private_storage_unavailable : ReasonCode
  extractor_credentials_missing missing_oauth_scope installation_unhealthy : ReasonCode
  connector_not_installed role_required mappings_required certification_l5_required : ReasonCode
  blocked : BlockReason → ReasonCode

pub data UserAction : Type 0 where
  no_action use_web_application record_response configure_storage configure_extraction : UserAction
  reconnect_and_approve run_health_checks connect_provider ask_firm_owner : UserAction
  restore_connector_health confirm_tally_identities approve_mappings complete_pilot : UserAction
  enable_write_control : UserAction

pub data Message : Type 0 where
  no_message whatsapp_disabled emails_not_sent writes_disabled : Message
  certification_is : ℕ → Message

-- core/config.py, as far as it is used here.
pub record Settings : Type 0 where
  pub firmos_environment : Text
  pub has_supabase_url : Bool
  pub has_supabase_service_key : Bool
  pub local_storage_allowed : Bool
  pub has_sarvam_api_key : Bool
  pub has_gemini_api_key : Bool
  pub writes : Flags.Settings

-- `number` numbers the keys for the overrides.
pub record CapabilityContext : Type 0 where
  pub role : Text
  pub installations : List Provider
  pub healthy_installations : List Provider
  pub reported_capabilities : List Text
  pub mapped_capabilities : List Text
  pub certification_levels : Dict ℕ
  pub certification_versions : Dict Text
  pub overrides : List Override
  pub firm_id : ℕ
  pub client_id : ℕ
  pub number : Text → ℕ

pub record Capability : Type 0 where
  pub capability_key : Text
  pub state : CapabilityState
  pub environment : Text
  pub reason_code : ReasonCode
  pub reason_message : Message
  pub required_user_action : UserAction
  pub certification_version : Option Text
  pub certification_level : ℕ
  pub feature_flag : Text

-- The defaults of the dataclass.
abbrev pub capability : Text → CapabilityState → Text → ReasonCode → UserAction → Capability
capability key state environment reason action = record {
  capability_key = key;
  state = state;
  environment = environment;
  reason_code = reason;
  reason_message = no_message;
  required_user_action = action;
  certification_version = none;
  certification_level = 0;
  feature_flag = [];
}

abbrev pub has_provider : Provider → List Provider → Bool
has_provider p = any (same_provider p)

abbrev pub has_text : Text → List Text → Bool
has_text t = any (same_text t)

module _ (c : Settings) where
  unfoldable pub document_upload : Capability
  document_upload =
      let enabled = (c.has_supabase_url && c.has_supabase_service_key) || c.local_storage_allowed in
      capability (codes "documents.upload") (if enabled then available else configuration_required)
        c.firmos_environment (if enabled then no_reason else private_storage_unavailable)
        (if not enabled then configure_storage else no_action)

  unfoldable pub extraction : Capability
  extraction =
      let has_key = c.has_sarvam_api_key || c.has_gemini_api_key in
      capability (codes "documents.extract.invoice")
        (if has_key then available else configuration_required) c.firmos_environment
        (if has_key then no_reason else extractor_credentials_missing)
        (if not has_key then configure_extraction else no_action)

  module _ (x : CapabilityContext) where
    unfoldable pub connector_read : Text → Provider → Capability
    connector_read key provider =
        let installed = has_provider provider x.installations in
        let healthy = has_provider provider x.healthy_installations in
        let reported = has_text key x.reported_capabilities in
        capability key
          (if installed && (healthy && reported)
            then available
            else if installed && healthy
            then blocked_auth
            else if installed
            then degraded
            else configuration_required)
          c.firmos_environment
          (if installed && (healthy && reported)
            then no_reason
            else if installed && healthy
            then missing_oauth_scope
            else if installed
            then installation_unhealthy
            else connector_not_installed)
          (if installed && healthy
            then reconnect_and_approve
            else if installed
            then run_health_checks
            else connect_provider)

    abbrev pub is_approver : Bool
    is_approver =
        same_text (upper x.role) (codes "OWNER") || same_text (upper x.role) (codes "ADMIN")

    abbrev pub is_unmapped : Text → Bool
    is_unmapped key = contains (codes ".write.") key && not (has_text key x.mapped_capabilities)

    abbrev pub ask_mapping : Provider → UserAction
    ask_mapping Provider.tally_prime = confirm_tally_identities
    ask_mapping _ = approve_mappings

    abbrev pub scope : Text → Provider → Scope
    scope key provider = record {
      provider = provider;
      firm_id = x.firm_id;
      client_id = x.client_id;
      installation_id = 0;
      capability_key = x.number key;
    }

    -- Below the required level.
    unfoldable pub uncertified : Text → ℕ → Capability
    unfolding lookup
    uncertified key level =
        record (capability key failed_certification c.firmos_environment certification_l5_required
          complete_pilot) {
            reason_message = certification_is level;
            certification_level = level;
            certification_version = lookup key x.certification_versions;
          }

    -- The last return: the switches and the overrides.
    unfoldable pub certified : Text → ℕ → Option BlockReason → Capability
    unfolding lookup
    certified key level none =
        record (capability key available c.firmos_environment no_reason no_action) {
          certification_version = lookup key x.certification_versions;
          certification_level = level;
          feature_flag = codes "provider_writes_enabled";
        }
    certified key level (some reason) =
        record (capability key disabled c.firmos_environment (blocked reason)
          enable_write_control) {
            reason_message = writes_disabled;
            certification_version = lookup key x.certification_versions;
            certification_level = level;
            feature_flag = codes "provider_writes_enabled";
          }

    unfoldable pub connector_write : Text → Provider → Capability
    unfolding uncertified certified write_block_reason lookup
    connector_write key provider =
        let level = get_or 0 key x.certification_levels in
        if not is_approver
        then capability key disabled c.firmos_environment role_required ask_firm_owner
        else if not (has_provider provider x.installations)
        then capability key configuration_required c.firmos_environment connector_not_installed
            connect_provider
        else if not (has_provider provider x.healthy_installations)
        then capability key degraded c.firmos_environment installation_unhealthy
            restore_connector_health
        else if not (has_text key x.reported_capabilities)
        then capability key blocked_auth c.firmos_environment missing_oauth_scope
            reconnect_and_approve
        else if is_unmapped key
        then capability key blocked_mapping c.firmos_environment mappings_required
            (ask_mapping provider)
        else if ltb level 5
        then uncertified key level
        else certified key level (write_block_reason c.writes (scope key provider) x.overrides)

    abbrev pub zoho_reads : List Text
    zoho_reads =
        codes "zoho.connection.oauth"
        ∷ codes "zoho.read.organizations"
        ∷ codes "zoho.read.contacts"
        ∷ codes "zoho.read.accounts"
        ∷ codes "zoho.read.items"
        ∷ codes "zoho.read.taxes"
        ∷ codes "zoho.read.purchase_bills"
        ∷ codes "zoho.read.sales_invoices"
        ∷ codes "zoho.read.object"
        ∷ []

    abbrev pub zoho_writes : List Text
    zoho_writes =
        codes "zoho.write.purchase_bill.create"
        ∷ codes "zoho.verify.purchase_bill"
        ∷ codes "zoho.write.sales_invoice.create"
        ∷ codes "zoho.verify.sales_invoice"
        ∷ []

    abbrev pub tally_reads : List Text
    tally_reads =
        codes "tally.device.pair"
        ∷ codes "tally.read.companies"
        ∷ codes "tally.read.ledgers"
        ∷ codes "tally.read.vouchers"
        ∷ []

    abbrev pub tally_writes : List Text
    tally_writes =
        codes "tally.write.purchase_voucher.create"
        ∷ codes "tally.verify.purchase_voucher"
        ∷ codes "tally.write.sales_voucher.create"
        ∷ codes "tally.verify.sales_voucher"
        ∷ []

    abbrev pub fixed : List Capability
    fixed =
        capability (codes "gst.manual_filing") available c.firmos_environment no_reason no_action
        ∷ record (capability (codes "whatsapp.inbound") disabled c.firmos_environment
            not_implemented use_web_application) {
              reason_message = whatsapp_disabled;
              feature_flag = codes "whatsapp.inbound";
            }
        ∷ record (capability (codes "decision.email_delivery") disabled c.firmos_environment
            manual_review_required record_response) {
              reason_message = emails_not_sent;
              feature_flag = codes "decision.email_delivery";
            }
        ∷ []

    unfoldable pub evaluate_capabilities : List Capability
    unfolding document_upload extraction connector_read connector_write
    evaluate_capabilities =
        document_upload
        ∷ extraction
        ∷ (map (λ key. connector_read key Provider.zoho_books) zoho_reads
            ++ (map (λ key. connector_write key Provider.zoho_books) zoho_writes
                ++ (map (λ key. connector_read key Provider.tally_prime) tally_reads
                    ++ (map (λ key. connector_write key Provider.tally_prime) tally_writes
                        ++ fixed))))
