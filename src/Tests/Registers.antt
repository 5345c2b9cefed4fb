-- ===== src/Tests/Registers.antt =====
-- Projections and capabilities at concrete inputs.
use firmos.Base.{ℕ, ◌≡◌, ◌↔◌, refl, true, false, Option, none, some, [], ◌∷◌, arith}
use firmos.Base.Int.{pos}
use firmos.Base.Lists.{All}
use firmos.Base.Dict.{lookup}
use firmos.Base.Text.{Text, codes, strip, drop_spaces}
use firmos.Base.Result.{ok, ◌>>=◌}
use firmos.Actions.Store.{Provider}
use firmos.Money.{Number, finite, rupees_to_paise, parse_decimal, decimal_to_paise, quantize}
use firmos.Hardening.Flags
use firmos.Capabilities.{
  Settings, CapabilityContext, available, connector_write, evaluate_capabilities, certified,
  uncertified,
}
use firmos.Capabilities.Laws.{evaluate_capabilities-IsExplained, Permitted, IsExplained}
use firmos.Tally.{digits}
use firmos.Registers.{
  Verified, Entry, Tables, project_verified, project_matched, entry_of, purchase_entry, period,
  amount, field, write, upsert,
}
use firmos.Registers.Laws.{IsRegister}
use firmos.Registers.Replay.{project_verified-Projected, Projected}

abbrev month_year : Text → Option (ℕ × ℕ)
month_year s = some (6, 2026)

abbrev identity : ℕ → ℕ → ℕ
identity provider object = object

abbrev digest : ℕ → ℕ → ℕ
digest source version = version

-- A reading of texts as the number 9.
abbrev nine : Text → Option Number
nine s = some (finite (record { mant = pos 9; places = 0 }))

abbrev verified : Verified
verified = record {
  action_id = 1;
  firm_id = 1;
  client_id = 2;
  provider = 4;
  draft_id = 7;
  document_id = 8;
  verification_id = 9;
  is_matched = true;
  provider_object_uuid = 11;
  provider_id = 12;
  snapshot_hash = 21;
  provider_status = 0;
  vendor_name = codes "Vendor";
  payload = record {
    date = codes "2026-06-30";
    bill_number = codes "B1";
    voucher_number = [];
    invoice_number = [];
    place_of_supply = [];
    tax_total_paise = some (pos 18);
    tax_paise = none;
    subtotal_paise = none;
    taxable_paise = some (pos 100);
    total_paise = some (pos 118);
  };
  totals = record {
    tax_paise = none;
    taxable_paise = none;
    total_paise = none;
    other_charges_paise = none;
  };
  fields = record { key = codes "gstin"; value = codes " 27A " } ∷ [];
  snapshot = record { customer_name = []; customer_gstin = [] };
}

abbrev entry : ℕ → Entry
entry version = record {
  id = version;
  firm_id = 1;
  client_id = 2;
  period = codes "062026";
  number = codes "B1";
  party_name = codes "Vendor";
  party_gstin = codes "27A";
  date = codes "2026-06-30";
  place_of_supply = [];
  total_paise = pos 118;
  tax_total_paise = pos 18;
  taxable_paise = pos 100;
  cgst_paise = pos 900;
  sgst_paise = pos 900;
  igst_paise = pos 900;
  other_paise = pos 0;
  status = 0;
  source_identity = 11;
  source_version = version;
  provider = 4;
  provider_object_id = 12;
  document_id = 8;
  draft_id = 7;
  action_id = 1;
  verification_id = 9;
  active = true;
  superseded_at = none;
}

-- An earlier version is active.
abbrev before : Tables
before = record {
  now = 50;
  entries = entry 20 ∷ [];
  documents = record { id = 8; posted = false } ∷ [];
  drafts = record { id = 7; posted = false; external_reference_id = none } ∷ [];
}

abbrev later : Tables
later = record {
  now = 50;
  entries = record (entry 20) { active = false; superseded_at = some 50 } ∷ entry 21 ∷ [];
  documents = record { id = 8; posted = true } ∷ [];
  drafts = record { id = 7; posted = true; external_reference_id = some 12 } ∷ [];
}

projected :
    project_verified month_year identity digest nine true (some verified) before ≡ ok (true, later)
unfolding project_verified project_matched entry_of purchase_entry period amount field write upsert
    strip drop_spaces ◌>>=◌ rupees_to_paise parse_decimal decimal_to_paise quantize digits
projected = refl

before-IsRegister : IsRegister before.entries
before-IsRegister = record {
  one_version = λ firm client source version. ground arith;
  one_active = λ firm client source. ground arith;
}

project_verified-Projected_example :
    Projected month_year identity digest nine true verified (true, later)
project_verified-Projected_example =
    project_verified-Projected month_year identity digest nine true verified before later projected
      before-IsRegister

abbrev settings : Settings
settings = record {
  firmos_environment = codes "production";
  has_supabase_url = true;
  has_supabase_service_key = true;
  local_storage_allowed = false;
  has_sarvam_api_key = false;
  has_gemini_api_key = true;
  writes = record {
    provider_writes_enabled = true;
    zoho_writes_enabled = true;
    tally_writes_enabled = false;
  };
}

abbrev context : CapabilityContext
context = record {
  role = codes "owner";
  installations = Provider.zoho_books ∷ [];
  healthy_installations = Provider.zoho_books ∷ [];
  reported_capabilities = codes "zoho.write.purchase_bill.create" ∷ [];
  mapped_capabilities = codes "zoho.write.purchase_bill.create" ∷ [];
  certification_levels = (codes "zoho.write.purchase_bill.create", 5) ∷ [];
  certification_versions = [];
  overrides = [];
  firm_id = 1;
  client_id = 2;
  number = λ key. 3;
}

bill_available :
    (connector_write settings context
      (codes "zoho.write.purchase_bill.create")
      Provider.zoho_books).state
    ≡ available
unfolding connector_write lookup Flags.write_block_reason Flags.override_reason certified
    uncertified
bill_available = refl

evaluate_capabilities-IsExplained_example :
    ((key : Text) (provider : Provider)
      → ((connector_write settings context key provider).state ≡ available)
        ↔ Permitted settings context key provider)
    × All (IsExplained settings context) (evaluate_capabilities settings context)
evaluate_capabilities-IsExplained_example = evaluate_capabilities-IsExplained settings context
