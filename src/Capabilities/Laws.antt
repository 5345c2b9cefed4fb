-- ===== src/Capabilities/Laws.antt =====
-- When a write is available: firmos-backend/connectors/platform/capabilities.py.
use firmos.Base.{◌≤◌, ◌≡◌, ◌↔◌, true, false, none, List, [], ◌∷◌, ◌++◌, map, arith}
use firmos.Base.Dict.{get_or}
use firmos.Base.Lists.{All}
use firmos.Base.Text.{Text}
use firmos.Actions.Store.{Provider}
use firmos.Hardening.Flags.{write_block_reason}
use firmos.Capabilities.{
  Settings, CapabilityContext, Capability, available, no_reason, reconnect_and_approve,
  has_provider, has_text, is_approver, is_unmapped, scope, uncertified, certified, connector_write,
  connector_read, document_upload, extraction, evaluate_capabilities, zoho_reads, zoho_writes,
  tally_reads, tally_writes, fixed,
}

module _ (c : Settings) (x : CapabilityContext) where
  -- A capability has a reason exactly if it is not available.
  abbrev pub IsExplained : Capability → Type 0
  IsExplained k = (k.state ≡ available) ↔ (k.reason_code ≡ no_reason)

  -- What a write needs.
  pub record Permitted (key : Text) (provider : Provider) : Type 0 where
    pub approver : is_approver c x ≡ true
    pub installed : has_provider provider x.installations ≡ true
    pub healthy : has_provider provider x.healthy_installations ≡ true
    pub reported : has_text key x.reported_capabilities ≡ true
    pub mapped : is_unmapped c x key ≡ false
    pub has_level : 5 ≤ get_or 0 key x.certification_levels
    pub unblocked : write_block_reason c.writes (scope c x key provider) x.overrides ≡ none

  available-Permitted :
      (key : Text) (provider : Provider)
      → (connector_write c x key provider).state ≡ available
      → Permitted key provider
  unfolding connector_write certified uncertified
  available-Permitted key provider h = record {
    approver = ground arith;
    installed = ground arith;
    healthy = ground arith;
    reported = ground arith;
    mapped = ground arith;
    has_level = ground arith;
    unblocked = ground arith;
  }

  Permitted-available :
      (key : Text) (provider : Provider)
      → Permitted key provider
      → (connector_write c x key provider).state ≡ available
  unfolding connector_write certified
  Permitted-available key provider p = ground arith

  read-IsExplained :
      (key : Text) (provider : Provider) → IsExplained (connector_read c x key provider)
  unfolding connector_read
  read-IsExplained key provider = ground arith

  write-IsExplained :
      (key : Text) (provider : Provider) → IsExplained (connector_write c x key provider)
  unfolding connector_write certified uncertified
  write-IsExplained key provider = ground arith

  reads-IsExplained :
      (provider : Provider) (keys : List Text) (rest : List Capability)
      → All IsExplained rest
      → All IsExplained (map (λ key. connector_read c x key provider) keys ++ rest)
  reads-IsExplained provider [] rest h = h
  reads-IsExplained provider (key ∷ keys) rest h =
      (read-IsExplained key provider, reads-IsExplained provider keys rest h)

  writes-IsExplained :
      (provider : Provider) (keys : List Text) (rest : List Capability)
      → All IsExplained rest
      → All IsExplained (map (λ key. connector_write c x key provider) keys ++ rest)
  writes-IsExplained provider [] rest h = h
  writes-IsExplained provider (key ∷ keys) rest h =
      (write-IsExplained key provider, writes-IsExplained provider keys rest h)

  storage-IsExplained : IsExplained (document_upload c) × IsExplained (extraction c)
  unfolding document_upload extraction
  storage-IsExplained = ground arith

  fixed-IsExplained : All IsExplained (fixed c x)
  fixed-IsExplained = ground arith

  -- The ends of the catalog.
  abbrev from_tally_writes : List Capability
  from_tally_writes =
      map (λ key. connector_write c x key Provider.tally_prime) (tally_writes c x) ++ fixed c x

  abbrev from_tally_reads : List Capability
  from_tally_reads =
      map (λ key. connector_read c x key Provider.tally_prime) (tally_reads c x)
      ++ from_tally_writes

  abbrev from_zoho_writes : List Capability
  from_zoho_writes =
      map (λ key. connector_write c x key Provider.zoho_books) (zoho_writes c x) ++ from_tally_reads

  -- A write is available exactly if an owner or admin asks, the provider is installed and healthy and has
  -- reported the capability, its mappings are confirmed where it writes, it is certified at level 5 or
  -- above, and neither a switch nor an override blocks it. Every capability of the catalog has a
  -- reason code exactly if it is not available.
  pub evaluate_capabilities-IsExplained :
      ((key : Text) (provider : Provider)
        → ((connector_write c x key provider).state ≡ available) ↔ Permitted key provider)
      × All IsExplained (evaluate_capabilities c x)
  unfolding evaluate_capabilities
  evaluate_capabilities-IsExplained = (
    λ key provider. (available-Permitted key provider, Permitted-available key provider),
    (
      storage-IsExplained.0,
      (
        storage-IsExplained.1,
        reads-IsExplained Provider.zoho_books (zoho_reads c x) from_zoho_writes (
            writes-IsExplained Provider.zoho_books (zoho_writes c x) from_tally_reads (
              reads-IsExplained Provider.tally_prime (tally_reads c x) from_tally_writes (
                writes-IsExplained Provider.tally_prime (tally_writes c x) (fixed c x)
                  fixed-IsExplained))),
      ),
    ),
  )

  -- An available read asks the user to reconnect all the same.
  read_available-asks :
      (key : Text) (provider : Provider)
      → (connector_read c x key provider).state ≡ available
      → (connector_read c x key provider).required_user_action ≡ reconnect_and_approve
  unfolding connector_read
  read_available-asks key provider h = ground arith
