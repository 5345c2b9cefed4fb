-- ===== src/Registers/Laws.antt =====
-- One active row for each source: firmos-backend/core/purchase_invoices/projection.py and
-- core/sales_invoices/projection.py.
use firmos.Base.{
  ℕ, ◌≤◌, ◌≡◌, refl, Bool, true, false, ◌&&◌, List, [], ◌∷◌, map, if◌then◌else◌, ◌==◌, inl, inr,
  Bool-cases, arith,
}
use firmos.Base.Lists.{sum_by}
use firmos.Registers.{Entry, is_source, supersede, upsert}

-- How many rows of a source are active, and how many have a version.
abbrev pub active_rows : ℕ → ℕ → ℕ → List Entry → ℕ
active_rows firm client identity =
    sum_by λ e. if is_source firm client identity e && e.active then 1 else 0

abbrev pub version_rows : ℕ → ℕ → ℕ → ℕ → List Entry → ℕ
version_rows firm client identity version =
    sum_by λ e. if is_source firm client identity e && e.source_version == version then 1 else 0

-- The rows of the new row's source that the first statement leaves active have its version.
module _ (purchases : Bool) (now : ℕ) (new : Entry) where
  abbrev own_active : List Entry → ℕ
  own_active = active_rows new.firm_id new.client_id new.source_identity

  abbrev own_version : List Entry → ℕ
  own_version = version_rows new.firm_id new.client_id new.source_identity new.source_version

  -- No row of the version: the new row is the only active one.
  upsert_fresh :
      (l : List Entry)
      → new.active ≡ true
      → own_version l ≡ 0
      → own_active (upsert purchases new (map (supersede now new) l)) ≡ 1
  unfolding upsert
  upsert_fresh [] a h = ground arith
  upsert_fresh (e ∷ l) a h = ground (arith, upsert_fresh l a)

  superseded_none :
      (l : List Entry) → own_version l ≡ 0 → own_active (map (supersede now new) l) ≡ 0
  superseded_none [] h = refl
  superseded_none (e ∷ l) h = ground (arith, superseded_none l)

  -- One row of the version: it is the only active one.
  upsert_known :
      (l : List Entry)
      → own_version l ≡ 1
      → own_active (upsert purchases new (map (supersede now new) l)) ≡ 1
  unfolding upsert
  upsert_known [] h = cc
  upsert_known (e ∷ l) h = ground (arith, upsert_known l, superseded_none l)

  -- The rows of other sources stay as many.
  upsert_apart :
      (firm client identity : ℕ) (l : List Entry)
      → is_source firm client identity new ≡ false
      → active_rows firm client identity (upsert purchases new (map (supersede now new) l))
        ≡ active_rows firm client identity l
  unfolding upsert
  upsert_apart firm client identity [] h = ground arith
  upsert_apart firm client identity (e ∷ l) h =
      ground (arith, upsert_apart firm client identity l h, superseded_apart l)
    where
      superseded_apart :
          (l : List Entry)
          → active_rows firm client identity (map (supersede now new) l)
            ≡ active_rows firm client identity l
      superseded_apart [] = refl
      superseded_apart (e ∷ l) = ground (arith, superseded_apart l)

  version_map :
      (firm client identity version : ℕ) (l : List Entry)
      → version_rows firm client identity version (map (supersede now new) l)
        ≡ version_rows firm client identity version l
  version_map firm client identity version [] = refl
  version_map firm client identity version (e ∷ l) =
      ground (arith, version_map firm client identity version l)

  version_apart :
      (firm client identity version : ℕ) (l : List Entry)
      → is_source firm client identity new && new.source_version == version ≡ false
      → version_rows firm client identity version (upsert purchases new (map (supersede now new) l))
        ≡ version_rows firm client identity version l
  unfolding upsert
  version_apart firm client identity version [] h = ground arith
  version_apart firm client identity version (e ∷ l) h = ground (
    arith,
    version_apart firm client identity version l h,
    version_map firm client identity version l,
  )

  version_own :
      (l : List Entry)
      → own_version l ≤ 1
      → own_version (upsert purchases new (map (supersede now new) l)) ≡ 1
  unfolding upsert
  version_own [] h = ground arith
  version_own (e ∷ l) h = ground (
    arith,
    version_own l,
    version_map new.firm_id new.client_id new.source_identity new.source_version l,
  )

-- The unique index, and at most one active row for each source.
pub record IsRegister (l : List Entry) : Type 0 where
  pub one_version :
      (firm client identity version : ℕ) → version_rows firm client identity version l ≤ 1
  pub one_active : (firm client identity : ℕ) → active_rows firm client identity l ≤ 1

module _ (purchases : Bool) (now : ℕ) (new : Entry) where
  abbrev pub after : List Entry → List Entry
  after l = upsert purchases new (map (supersede now new) l)

  pub after-active :
      (l : List Entry)
      → new.active ≡ true
      → IsRegister l
      → active_rows new.firm_id new.client_id new.source_identity (after l) ≡ 1
  after-active l a h = elim (Bool-cases (own_version purchases now new l == 0)) [
    | inl fresh ↦ upsert_fresh purchases now new l a (ground arith)
    | inr known ↦
        let few = h.one_version new.firm_id new.client_id new.source_identity new.source_version in
        upsert_known purchases now new l (ground arith)
  ]

  pub after-IsRegister : (l : List Entry) → new.active ≡ true → IsRegister l → IsRegister (after l)
  after-IsRegister l a h = record {
    one_version = λ firm client identity version.
        elim (Bool-cases (is_source firm client identity new && new.source_version == version)) [
          | inl same ↦
              let f : firm ≡ new.firm_id = ground (arith, same) in
              let c : client ≡ new.client_id = ground (arith, same) in
              let i : identity ≡ new.source_identity = ground (arith, same) in
              let v : version ≡ new.source_version = ground (arith, same) in
              let few =
                h.one_version new.firm_id new.client_id new.source_identity new.source_version in
              rw f (rw c (rw i (rw v (omega (arith, version_own purchases now new l few)))))
          | inr apart ↦ omega (
            arith,
            version_apart purchases now new firm client identity version l apart,
            h.one_version firm client identity version,
          )
        ];
    one_active = λ firm client identity. elim (Bool-cases (is_source firm client identity new)) [
      | inl same ↦
          let f : firm ≡ new.firm_id = ground (arith, same) in
          let c : client ≡ new.client_id = ground (arith, same) in
          let i : identity ≡ new.source_identity = ground (arith, same) in
          rw f (rw c (rw i (omega (arith, after-active l a h))))
      | inr apart ↦ omega (
        arith,
        upsert_apart purchases now new firm client identity l apart,
        h.one_active firm client identity,
      )
    ];
  }
