-- ===== src/Hardening/Flags/Laws.antt =====
-- Theorems on firmos-backend/core/feature_flags.py.
use firmos.Base.{
  ◌≡◌, ◌≢◌, ◌↔◌, ◌⊎◌, refl, true, false, none, some, List, [], ◌∷◌, inl, inr, arith, Bool-cases,
}
use firmos.Base.Lists.{All, keep}
use firmos.Hardening.Flags.{
  Settings, Scope, Override, matches, allows, provider_enabled, override_reason, write_block_reason,
  uninstalled, Connection, no_connection, broken_connection, table, of_firm,
  scoped_write_block_reason,
}

-- An override lets a write pass if it speaks of something else or allows it.
abbrev pub Passes : Scope → Override → Type 0
Passes s o = (matches o s ≡ false) ⊎ (allows o ≡ true)

override_reason-none :
    (s : Scope) (os : List Override) → (override_reason s os ≡ none) ↔ All (Passes s) os
unfolding override_reason
override_reason-none s [] = (λ h. tt, λ h. refl)
override_reason-none s (o ∷ os) =
    let ih = override_reason-none s os in (ground (arith, ih.0), ground (arith, ih.1))

-- A write passes exactly if the writes of the process and those of its provider (Zoho Books or Tally
-- alone) are on and no override that matches it is off.
pub write_block_reason-none :
    (c : Settings) (s : Scope) (os : List Override)
    → (write_block_reason c s os ≡ none) ↔ (
        (c.provider_writes_enabled ≡ true)
        × (provider_enabled c s.provider ≡ true)
        × All (Passes s) os)
unfolding write_block_reason
write_block_reason-none c s os =
    let h = override_reason-none s os in (ground (arith, h.0), ground (arith, h.1))

-- What a connection says against a write.
abbrev pub Clear : Scope → Connection → Type 0
Clear s no_connection = Unit
Clear s broken_connection = ⊥
Clear s (table rows) = All (Passes s) rows

-- No row of the table has the empty text for its firm.
abbrev pub Named : Connection → Type 0
Named (table rows) = All (λ o. o.firm_id ≢ some 0) rows
Named _ = Unit

other_firm :
    (s : Scope) (o : Override)
    → o.firm_id ≢ some 0
    → of_firm s.firm_id o ≡ false
    → matches o s ≡ false
unfolding matches
other_firm s o named other = ground arith

-- The WHERE clause drops no row that would block.
of_firm-Passes :
    (s : Scope) (rows : List Override)
    → All (λ o. o.firm_id ≢ some 0) rows
    → All (Passes s) (keep (of_firm s.firm_id) rows) ↔ All (Passes s) rows
of_firm-Passes s [] named = (λ h. tt, λ h. tt)
of_firm-Passes s (o ∷ rows) (named, rest) =
    let ih = of_firm-Passes s rows rest in
    elim (Bool-cases (of_firm s.firm_id o)) [
      | inl mine ↦ rw mine (λ h. (h.0, ih.0 h.1), λ h. (h.0, ih.1 h.1))
      | inr other ↦ rw other (λ h. (inl (other_firm s o named other), ih.0 h), λ h. ih.1 h.1)
    ]

-- With the rows of the database, a write passes exactly if it passes the switches of the process and
-- no row of the whole table blocks it: a query that raises blocks it, and the WHERE clause hides no
-- row that would. No row may have the empty text for its firm.
pub scoped_write_block_reason-none :
    (c : Settings) (s : Scope) (conn : Connection)
    → Named conn
    → (scoped_write_block_reason c s conn ≡ none) ↔ (
        (c.provider_writes_enabled ≡ true)
        × (provider_enabled c s.provider ≡ true)
        × Clear (uninstalled s) conn)
unfolding scoped_write_block_reason
scoped_write_block_reason-none c s no_connection named =
    let first = write_block_reason-none c (uninstalled s) [] in
    (ground (arith, first.0), ground (arith, first.1))
scoped_write_block_reason-none c s broken_connection named = (ground arith, ground arith)
scoped_write_block_reason-none c s (table rows) named =
    let first = write_block_reason-none c (uninstalled s) [] in
    let kept = of_firm-Passes (uninstalled s) rows named in
    let second = write_block_reason-none c (uninstalled s) (keep (of_firm s.firm_id) rows) in
    (ground (arith, first.0, second.0, kept.0), ground (arith, first.1, second.1, kept.1))
