-- ===== src/Hardening/Flags.antt =====
-- firmos-backend/core/feature_flags.py. Texts are compared alone, so each is a number; 0 is the empty
-- one. The settings of the process are an argument.
pub mod Laws
use firmos.Base.{
  ℕ, Bool, true, false, ◌&&◌, ◌||◌, not, Option, none, some, List, [], ◌∷◌, if◌then◌else◌, ◌==◌,
}
use firmos.Base.Lists.{keep}
use firmos.Actions.Store.{Provider}

pub record Settings : Type 0 where
  pub provider_writes_enabled : Bool
  pub zoho_writes_enabled : Bool
  pub tally_writes_enabled : Bool

-- What is to be written, and where.
pub record Scope : Type 0 where
  pub provider : Provider
  pub firm_id : ℕ
  pub client_id : ℕ
  pub installation_id : ℕ
  pub capability_key : ℕ

-- A row of capability_overrides; `none` is NULL, and a missing key for the two flags.
pub record Override : Type 0 where
  pub provider : Option Provider
  pub firm_id : Option ℕ
  pub client_id : Option ℕ
  pub installation_id : Option ℕ
  pub capability_key : Option ℕ
  pub is_enabled : Option Bool
  pub enabled : Option Bool

pub data BlockReason : Type 0 where
  provider_writes_disabled provider_write_disabled : BlockReason
  capability_disabled capability_override_unavailable : BlockReason

abbrev pub same_provider : Provider → Provider → Bool
same_provider Provider.zoho_books Provider.zoho_books = true
same_provider Provider.tally_prime Provider.tally_prime = true
same_provider Provider.other_provider Provider.other_provider = true
same_provider _ _ = false

-- `not override.get(key) or override[key] == value`
abbrev pub agrees : Option ℕ → ℕ → Bool
agrees none value = true
agrees (some key) value = key == 0 || key == value

abbrev pub agrees_provider : Option Provider → Provider → Bool
agrees_provider none value = true
agrees_provider (some key) value = same_provider key value

-- _matches
unfoldable pub matches : Override → Scope → Bool
matches o s =
    agrees_provider o.provider s.provider
    && (agrees o.firm_id s.firm_id
        && (agrees o.client_id s.client_id
            && (agrees o.installation_id s.installation_id
                && agrees o.capability_key s.capability_key)))

abbrev pub flag : Option Bool → Option Bool → Bool
flag (some b) other = b
flag none (some b) = b
flag none none = false

-- `bool(override.get("is_enabled", override.get("enabled", False)))`
abbrev pub allows : Override → Bool
allows o = flag o.is_enabled o.enabled

abbrev pub provider_enabled : Settings → Provider → Bool
provider_enabled c Provider.zoho_books = c.zoho_writes_enabled
provider_enabled c Provider.tally_prime = c.tally_writes_enabled
provider_enabled c Provider.other_provider = false

-- The loop over the overrides.
unfoldable pub override_reason : Scope → List Override → Option BlockReason
override_reason s [] = none
override_reason s (o ∷ os) =
    if matches o s && not (allows o) then some capability_disabled else override_reason s os

unfoldable pub write_block_reason : Settings → Scope → List Override → Option BlockReason
unfolding override_reason
write_block_reason c s os =
    if not c.provider_writes_enabled
    then some provider_writes_disabled
    else if not (provider_enabled c s.provider)
    then some provider_write_disabled
    else override_reason s os

-- The connection: none, one whose query raises, or one to the table.
pub data Connection : Type 0 where
  no_connection broken_connection : Connection
  table : List Override → Connection

-- `WHERE firm_id IS NULL OR firm_id=$1`
abbrev pub of_firm : ℕ → Override → Bool
of_firm firm o = elim o.firm_id [ none ↦ true | some id ↦ id == firm ]

-- The caller gives no installation.
abbrev pub uninstalled : Scope → Scope
uninstalled s = record s { installation_id = 0 }

abbrev pub table_reason : Settings → Scope → Connection → Option BlockReason
table_reason c s no_connection = none
table_reason c s broken_connection = some capability_override_unavailable
table_reason c s (table rows) = write_block_reason c s (keep (of_firm s.firm_id) rows)

abbrev pub reason_or : Option BlockReason → Option BlockReason → Option BlockReason
reason_or (some reason) other = some reason
reason_or none other = other

unfoldable pub scoped_write_block_reason : Settings → Scope → Connection → Option BlockReason
unfolding write_block_reason
scoped_write_block_reason c s conn =
    reason_or (write_block_reason c (uninstalled s) []) (table_reason c (uninstalled s) conn)
