-- ===== src/Registers.antt =====
-- firmos-backend/core/purchase_invoices/projection.py and core/sales_invoices/projection.py: the row of a register that
-- a matched verification makes. Ids, hashes and texts that are only compared are numbers. Parameters: the
-- month and year that datetime.fromisoformat reads, the text of a source identity, SHA-256, and what
-- Decimal reads.
pub mod Laws
pub mod Replay
use firmos.Base.{
  ℕ, suc, Bool, true, false, ◌&&◌, ◌||◌, not, Option, none, some, List, [], ◌∷◌, ◌++◌, map,
  if◌then◌else◌, ◌==◌, ltb,
}
use firmos.Base.Int.{ℤ, pos}
use firmos.Base.Lists.{any, find}
use firmos.Base.Text.{Text, codes, same_text, is_empty_text, strip}
use firmos.Base.Result.{Result, ok, raised, ◌>>=◌}
use firmos.Money.{
  Number, Converted, converted, money_parse_error, invalid_operation, written, rupees_to_paise,
}
use firmos.Tally.{digits}

-- An item of documents.fields, and `_field`.
pub record Item : Type 0 where
  pub key : Text
  pub value : Text

unfoldable pub field : List Item → List Text → Text
unfolding strip
field items keys = elim (find (λ i. any (same_text i.key) keys) items) [
  | none ↦ []
  | some i ↦ strip i.value
]

-- The payload and the totals; an amount is `none` where its key is missing.
pub record Payload : Type 0 where
  pub date : Text
  pub bill_number : Text
  pub voucher_number : Text
  pub invoice_number : Text
  pub place_of_supply : Text
  pub tax_total_paise : Option ℤ
  pub tax_paise : Option ℤ
  pub subtotal_paise : Option ℤ
  pub taxable_paise : Option ℤ
  pub total_paise : Option ℤ

pub record Totals : Type 0 where
  pub tax_paise : Option ℤ
  pub taxable_paise : Option ℤ
  pub total_paise : Option ℤ
  pub other_charges_paise : Option ℤ

pub record Snapshot : Type 0 where
  pub customer_name : Text
  pub customer_gstin : Text

-- The row of the joined tables.
pub record Verified : Type 0 where
  pub action_id : ℕ
  pub firm_id : ℕ
  pub client_id : ℕ
  pub provider : ℕ
  pub draft_id : ℕ
  pub document_id : ℕ
  pub verification_id : ℕ
  pub is_matched : Bool
  pub provider_object_uuid : ℕ
  pub provider_id : ℕ
  pub snapshot_hash : ℕ
  pub provider_status : ℕ
  pub vendor_name : Text
  pub payload : Payload
  pub totals : Totals
  pub fields : List Item
  pub snapshot : Snapshot

-- A row of purchase_register or of sales_register; `other_paise` is other charges, or cess.
pub record Entry : Type 0 where
  pub id : ℕ
  pub firm_id : ℕ
  pub client_id : ℕ
  pub period : Text
  pub number : Text
  pub party_name : Text
  pub party_gstin : Text
  pub date : Text
  pub place_of_supply : Text
  pub total_paise : ℤ
  pub tax_total_paise : ℤ
  pub taxable_paise : ℤ
  pub cgst_paise : ℤ
  pub sgst_paise : ℤ
  pub igst_paise : ℤ
  pub other_paise : ℤ
  pub status : ℕ
  pub source_identity : ℕ
  pub source_version : ℕ
  pub provider : ℕ
  pub provider_object_id : ℕ
  pub document_id : ℕ
  pub draft_id : ℕ
  pub action_id : ℕ
  pub verification_id : ℕ
  pub active : Bool
  pub superseded_at : Option ℕ

pub record Document : Type 0 where
  pub id : ℕ
  pub posted : Bool

pub record Draft : Type 0 where
  pub id : ℕ
  pub posted : Bool
  pub external_reference_id : Option ℕ

pub record Tables : Type 0 where
  pub now : ℕ
  pub entries : List Entry
  pub documents : List Document
  pub drafts : List Draft

pub data Failure : Type 0 where
  bad_date bad_amount : Failure

abbrev pub or_else : Option ℤ → ℤ → ℤ
or_else none b = b
or_else (some a) b = a

-- `a or b`, of texts
abbrev pub text_or : Text → Text → Text
text_or a b = if is_empty_text a then b else a

abbrev pub as_result : Converted ℤ → Result Failure ℤ
as_result (converted n) = ok n
as_result money_parse_error = raised bad_amount
as_result invalid_operation = raised bad_amount

-- `f"{month:02d}{year}"`
abbrev pub period_text : ℕ × ℕ → Text
period_text (month, year) =
    (if ltb month 10 then b'0' ∷ digits (suc month) month else digits (suc month) month)
    ++ digits (suc year) year

-- One source: a firm's client's provider object.
abbrev pub is_source : ℕ → ℕ → ℕ → Entry → Bool
is_source firm client identity e =
    e.firm_id == firm && (e.client_id == client && e.source_identity == identity)

abbrev pub same_source : Entry → Entry → Bool
same_source new = is_source new.firm_id new.client_id new.source_identity

-- `UPDATE ... SET active=false ... AND source_version<>$4 AND active`
abbrev pub supersede : ℕ → Entry → Entry → Entry
supersede now new e =
    if same_source new e && (not (e.source_version == new.source_version) && e.active)
    then record e { active = false; superseded_at = some now }
    else e

-- `DO UPDATE SET`, of the purchases; the sales leave `provider_object_id` as it is.
abbrev pub merge : Bool → Entry → Entry → Entry
merge purchases new e = record e {
  status = new.status;
  verification_id = new.verification_id;
  provider_object_id = if purchases then new.provider_object_id else e.provider_object_id;
  active = true;
  superseded_at = none;
}

-- `INSERT ... ON CONFLICT(firm_id,client_id,source_identity,source_version)`
unfoldable pub upsert : Bool → Entry → List Entry → List Entry
upsert purchases new [] = new ∷ []
upsert purchases new (e ∷ es) =
    let rest = upsert purchases new es in
    if same_source new e && e.source_version == new.source_version
    then merge purchases new e ∷ es
    else e ∷ rest

abbrev pub post_document : ℕ → Document → Document
post_document id d = if d.id == id then record d { posted = true } else d

abbrev pub post_draft : ℕ → ℕ → Draft → Draft
post_draft id reference d =
    if d.id == id then record d { posted = true; external_reference_id = some reference } else d

-- The four statements.
unfoldable pub write : Bool → Verified → Entry → Tables → Tables
unfolding upsert
write purchases v new t = record t {
  entries = upsert purchases new (map (supersede t.now new) t.entries);
  documents = map (post_document v.document_id) t.documents;
  drafts = map (post_draft v.draft_id v.provider_id) t.drafts;
}

module _ (month_year : Text → Option (ℕ × ℕ)) (identity digest : ℕ → ℕ → ℕ)
    (decimal : Text → Option Number) where
  -- `_period(date)`, of the first ten characters
  unfoldable pub period : Text → Result Failure Text
  period date = elim (month_year date) [
    | none ↦ raised bad_date
    | some when ↦ ok (period_text when)
  ]

  -- `rupees_to_paise(_field(fields, key) or 0)`
  unfoldable pub amount : List Item → Text → Result Failure ℤ
  unfolding field rupees_to_paise
  amount items key =
      as_result
        (rupees_to_paise decimal true (written (text_or (field items (key ∷ [])) (codes "0"))))

  abbrev pub document_date : Verified → Text
  document_date v =
      text_or v.payload.date (field v.fields (codes "invoiceDate" ∷ codes "invoice_date" ∷ []))

  -- The row that both projections share; the caller fills in what differs.
  abbrev pub base_entry : Verified → Text → ℤ → ℤ → ℤ → ℤ → Entry
  base_entry v when cgst sgst igst other = record {
    id = digest (identity v.provider v.provider_object_uuid) v.snapshot_hash;
    firm_id = v.firm_id;
    client_id = v.client_id;
    period = when;
    number = [];
    party_name = v.vendor_name;
    party_gstin = [];
    date = document_date v;
    place_of_supply = [];
    total_paise = or_else v.totals.total_paise (or_else v.payload.total_paise (pos 0));
    tax_total_paise = pos 0;
    taxable_paise = pos 0;
    cgst_paise = cgst;
    sgst_paise = sgst;
    igst_paise = igst;
    other_paise = other;
    status = v.provider_status;
    source_identity = identity v.provider v.provider_object_uuid;
    source_version = v.snapshot_hash;
    provider = v.provider;
    provider_object_id = v.provider_id;
    document_id = v.document_id;
    draft_id = v.draft_id;
    action_id = v.action_id;
    verification_id = v.verification_id;
    active = true;
    superseded_at = none;
  }

  -- A row that was not found, or whose verification does not match, projects nothing.
  unfoldable pub purchase_entry : Verified → Result Failure Entry
  unfolding period amount field
  purchase_entry v = do
    cgst ← amount v.fields (codes "cgst")
    sgst ← amount v.fields (codes "sgst")
    igst ← amount v.fields (codes "igst")
    when ← period (document_date v)
    ok (record (base_entry v when cgst sgst igst (or_else v.totals.other_charges_paise (pos 0))) {
      number = text_or v.payload.bill_number (
          text_or v.payload.voucher_number
            (field v.fields (codes "invoiceNumber" ∷ codes "invoice_number" ∷ [])));
      party_gstin =
          field v.fields (codes "gstin" ∷ codes "vendorGstin" ∷ codes "vendor_gstin" ∷ []);
      tax_total_paise =
          or_else v.totals.tax_paise
            (or_else v.payload.tax_total_paise (or_else v.payload.tax_paise (pos 0)));
      taxable_paise =
          or_else v.totals.taxable_paise
            (or_else v.payload.subtotal_paise (or_else v.payload.taxable_paise (pos 0)));
    })

  unfoldable pub sale_entry : Verified → Result Failure Entry
  unfolding period amount field
  sale_entry v = do
    when ← period (document_date v)
    cgst ← amount v.fields (codes "cgst")
    sgst ← amount v.fields (codes "sgst")
    igst ← amount v.fields (codes "igst")
    cess ← amount v.fields (codes "cess")
    ok (record (base_entry v when cgst sgst igst cess) {
      number = v.payload.invoice_number;
      party_name = text_or v.snapshot.customer_name v.vendor_name;
      party_gstin =
          text_or v.snapshot.customer_gstin
            (field v.fields (codes "customerGstin" ∷ codes "gstin" ∷ []));
      place_of_supply = v.payload.place_of_supply;
      tax_total_paise = or_else v.totals.tax_paise (or_else v.payload.tax_total_paise (pos 0));
      taxable_paise = or_else v.totals.taxable_paise (or_else v.payload.subtotal_paise (pos 0));
    })

  unfoldable pub entry_of : Bool → Verified → Result Failure Entry
  unfolding purchase_entry sale_entry
  entry_of purchases v = if purchases then purchase_entry v else sale_entry v

  -- project_verified_purchase and project_verified_sale: whether a row was projected, and the tables.
  unfoldable pub project_matched : Bool → Verified → Tables → Result Failure (Bool × Tables)
  unfolding entry_of write
  project_matched purchases v t = entry_of purchases v >>= λ new. ok (true, write purchases v new t)

  unfoldable pub project_verified : Bool → Option Verified → Tables → Result Failure (Bool × Tables)
  unfolding project_matched
  project_verified purchases none t = ok (false, t)
  project_verified purchases (some v) t =
      if v.is_matched then project_matched purchases v t else ok (false, t)
