-- ===== src/Gst/Parser.antt =====
-- firmos-backend/engines/gstr2b_parser.py, the JSON export. Parameters: what Decimal reads, strptime with a pattern,
-- the text of a date, and SHA-256. A text is `str(value or "")`; an amount is `missing` where it is
-- None or the number 0, and no amount is a Boolean. The Excel export is left out.
pub mod Laws
use firmos.Base.{
  ℕ, suc, ◌+◌, Bool, true, false, ◌&&◌, ◌||◌, not, Option, none, some, List, [], ◌∷◌, ◌++◌,
  if◌then◌else◌, ◌==◌,
}
use firmos.Base.Dict.{Dict, update}
use firmos.Base.Int.{ℤ, pos, ◌+ℤ◌}
use firmos.Base.Lists.{keep, all, length}
use firmos.Base.Text.{Text, codes, is_empty_text, is_digit, is_alphanumeric, strip, upper}
use firmos.Base.Result.{Result, ok, raised, ◌>>=◌, ◌>>◌, raise_if}
use firmos.Money.{
  Number, Value, missing, written, Converted, converted, money_parse_error, rupees_to_paise,
}
use firmos.Money
use firmos.Tally.{sum_ℤ}

-- The codes of the AppErrors, and the context's InvalidOperation, which no handler catches.
pub data ParseError : Type 0 where
  invalid_date invalid_amount invalid_document empty_file uncaught_operation : ParseError

pub data Section : Type 0 where
  b2b b2ba cdnr cdnra : Section

pub record Detail : Type 0 where
  pub txval : Value
  pub iamt : Value
  pub camt : Value
  pub samt : Value
  pub csamt : Value

pub record Raw : Type 0 where
  pub gstin : Text
  pub inum : Text
  pub ntnum : Text
  pub invoice_number : Text
  pub idt : Text
  pub ntdt : Text
  pub invoice_date : Text
  pub itms : List Detail
  pub val : Value
  pub invoice_value : Value
  pub oinum : Text
  pub ont_num : Text
  pub oidt : Text
  pub ont_dt : Text

-- A supplier of a section, with the list that the section's child names.
pub record Supplier : Type 0 where
  pub ctin : Text
  pub raws : List Raw

pub record Document : Type 0 where
  pub identity_key : ℕ
  pub supplier_gstin : Text
  pub invoice_number : Text
  pub invoice_date : ℕ
  pub document_type : Text
  pub amendment_of_key : Option ℕ
  pub taxable_paise : ℤ
  pub igst_paise : ℤ
  pub cgst_paise : ℤ
  pub sgst_paise : ℤ
  pub cess_paise : ℤ
  pub total_paise : ℤ
  pub section : Section

-- _clean_gstin and _invoice_number
unfoldable pub clean : Text → Text
clean s = keep is_alphanumeric (upper s)

-- GSTIN_PATTERN
unfoldable pub is_gstin : Text → Bool
is_gstin (a ∷ b ∷ rest) =
    is_digit a && (is_digit b && (length rest == 13 && all is_alphanumeric rest))
is_gstin _ = false

abbrev pub text_or : Text → Text → Text
text_or a b = if is_empty_text a then b else a

-- `a or b`, of amounts
abbrev pub value_or : Value → Value → Value
value_or missing b = b
value_or (written a) b = if is_empty_text a then b else written a

abbrev pub document_type : Section → Text
document_type b2b = codes "INVOICE"
document_type b2ba = codes "INVOICE"
document_type cdnr = codes "CREDIT_NOTE"
document_type cdnra = codes "CREDIT_NOTE"

abbrev pub section_key : Section → Text
section_key b2b = codes "b2b"
section_key b2ba = codes "b2ba"
section_key cdnr = codes "cdnr"
section_key cdnra = codes "cdnra"

abbrev pub as_app_error : Converted ℤ → Result ParseError ℤ
as_app_error (converted n) = ok n
as_app_error money_parse_error = raised invalid_amount
as_app_error Money.invalid_operation = raised uncaught_operation

pub record Taxes : Type 0 where
  pub taxable : ℤ
  pub igst : ℤ
  pub cgst : ℤ
  pub sgst : ℤ
  pub cess : ℤ

abbrev pub no_taxes : Taxes
no_taxes = record { taxable = pos 0; igst = pos 0; cgst = pos 0; sgst = pos 0; cess = pos 0 }

abbrev pub bar : Text
bar = b'|' ∷ []

module _ (decimal : Text → Option Number) (strptime : Text → Text → Option ℕ) (isoformat : ℕ → Text)
    (sha256 : Text → ℕ) where
  -- _date, of a text
  unfoldable pub first_date : Text → List Text → Result ParseError ℕ
  first_date text [] = raised invalid_date
  first_date text (pattern' ∷ patterns) =
      let rest = first_date text patterns in
      elim (strptime pattern' text) [ none ↦ rest | some d ↦ ok d ]

  unfoldable pub date : Text → Result ParseError ℕ
  unfolding first_date strip
  date value =
      first_date (strip value)
        (codes "%d-%m-%Y" ∷ codes "%d/%m/%Y" ∷ codes "%Y-%m-%d" ∷ codes "%Y-%m-%d %H:%M:%S" ∷ [])

  -- _paise
  unfoldable pub paise : Value → Result ParseError ℤ
  unfolding rupees_to_paise
  paise value = as_app_error (rupees_to_paise decimal true (value_or value (written (codes "0"))))

  -- _identity, and the text that it digests
  abbrev pub identity_text : Text → Text → ℕ → Text → Text
  identity_text gstin number when kind =
      gstin ++ (bar ++ (number ++ (bar ++ (isoformat when ++ (bar ++ kind)))))

  abbrev pub identity : Text → Text → ℕ → Text → ℕ
  identity gstin number when kind = sha256 (identity_text gstin number when kind)

  -- _taxes
  unfoldable pub add_detail : Taxes → Detail → Result ParseError Taxes
  unfolding paise ◌+ℤ◌
  add_detail t d = do
    taxable ← paise d.txval
    igst ← paise d.iamt
    cgst ← paise d.camt
    sgst ← paise d.samt
    cess ← paise d.csamt
    ok (record {
      taxable = t.taxable +ℤ taxable;
      igst = t.igst +ℤ igst;
      cgst = t.cgst +ℤ cgst;
      sgst = t.sgst +ℤ sgst;
      cess = t.cess +ℤ cess;
    })

  unfoldable pub taxes_loop : Taxes → List Detail → Result ParseError Taxes
  unfolding add_detail
  taxes_loop t [] = ok t
  taxes_loop t (d ∷ ds) = add_detail t d >>= λ t'. taxes_loop t' ds

  unfoldable pub amendment_key : Text → Text → Raw → Result ParseError (Option ℕ)
  unfolding clean date
  amendment_key gstin kind raw =
      let original = clean (text_or raw.oinum raw.ont_num) in
      if is_empty_text original
      then ok none
      else date (text_or raw.oidt raw.ont_dt) >>= λ when.
          ok (some (identity gstin original when kind))

  -- _document
  unfoldable pub document : Section → Supplier → Raw → Result ParseError Document
  unfolding clean date is_gstin taxes_loop paise amendment_key strip
  document section supplier raw =
      let gstin = clean (text_or supplier.ctin raw.gstin) in
      let number = strip (text_or raw.inum (text_or raw.ntnum raw.invoice_number)) in
      do
        when ← date (text_or raw.idt (text_or raw.ntdt raw.invoice_date))
        raise_if (not (is_gstin gstin) || is_empty_text (clean number)) invalid_document
        t ← taxes_loop no_taxes raw.itms
        total ← paise (value_or raw.val raw.invoice_value)
        amended ← amendment_key gstin (document_type section) raw
        ok (record {
          identity_key = identity gstin (clean number) when (document_type section);
          supplier_gstin = gstin;
          invoice_number = number;
          invoice_date = when;
          document_type = document_type section;
          amendment_of_key = amended;
          taxable_paise = t.taxable;
          igst_paise = t.igst;
          cgst_paise = t.cgst;
          sgst_paise = t.sgst;
          cess_paise = t.cess;
          total_paise = total;
          section = section;
        })

  -- The inner loops: the documents and the counts so far.
  abbrev pub Progress : Type 0
  Progress = List Document × Dict ℕ

  unfoldable pub raws_loop : Section → Supplier → Progress → List Raw → Result ParseError Progress
  unfolding document update
  raws_loop section supplier done [] = ok done
  raws_loop section supplier done (raw ∷ raws) = document section supplier raw >>= λ d.
      raws_loop section supplier (done.0 ++ (d ∷ []), update 0 suc (section_key section) done.1)
        raws

  unfoldable pub suppliers_loop : Section → Progress → List Supplier → Result ParseError Progress
  unfolding raws_loop
  suppliers_loop section done [] = ok done
  suppliers_loop section done (supplier ∷ suppliers) =
      raws_loop section supplier done supplier.raws >>= λ done'.
      suppliers_loop section done' suppliers

-- The sections of `docdata`, and the texts beside them.
pub record File : Type 0 where
  pub gstin : Text
  pub rtnprd : Text
  pub return_period : Text
  pub docdata_gstin : Text
  pub docdata_ctin : Text
  pub docdata_rtnprd : Text
  pub suppliers : Section → List Supplier

pub record ParseResult : Type 0 where
  pub gstin : Text
  pub period : Text
  pub documents : List Document
  pub counts : Dict ℕ
  pub taxable_paise : ℤ
  pub tax_paise : ℤ
  pub total_paise : ℤ

abbrev pub tax_of : Document → ℤ
tax_of d = d.igst_paise +ℤ d.cgst_paise +ℤ d.sgst_paise +ℤ d.cess_paise

abbrev pub is_empty_list : List Document → Bool
is_empty_list [] = true
is_empty_list (d ∷ ds) = false

unfoldable pub result_of : File → List Document × Dict ℕ → ParseResult
unfolding clean
result_of f (documents, counts) = record {
  gstin = clean (text_or f.gstin (text_or f.docdata_gstin f.docdata_ctin));
  period = text_or f.rtnprd (text_or f.return_period f.docdata_rtnprd);
  documents = documents;
  counts = counts;
  taxable_paise = sum_ℤ (λ (d : Document). d.taxable_paise) documents;
  tax_paise = sum_ℤ tax_of documents;
  total_paise = sum_ℤ (λ (d : Document). d.total_paise) documents;
}

module _ (decimal : Text → Option Number) (strptime : Text → Text → Option ℕ) (isoformat : ℕ → Text)
    (sha256 : Text → ℕ) where
  abbrev pub section_loop :
      Section → File → List Document × Dict ℕ → Result ParseError (List Document × Dict ℕ)
  section_loop section f done =
      suppliers_loop decimal strptime isoformat sha256 section done (f.suppliers section)

  unfoldable pub parse_gstr2b_json : File → Result ParseError ParseResult
  unfolding suppliers_loop result_of
  parse_gstr2b_json f = do
    first ← section_loop b2b f ([], [])
    second ← section_loop b2ba f first
    third ← section_loop cdnr f second
    fourth ← section_loop cdnra f third
    raise_if (is_empty_list fourth.0) empty_file
    ok (result_of f fourth)
