-- ===== src/Tests/Parser.antt =====
-- A GSTR-2B file at a concrete input.
use firmos.Base.{ℕ, ◌≡◌, refl, Option, none, some, List, [], ◌∷◌}
use firmos.Base.Int.{pos, ◌+ℤ◌, ◌-ℤ◌}
use firmos.Base.Dict.{update}
use firmos.Base.Lists.{length}
use firmos.Base.Text.{Text, codes, strip, drop_spaces}
use firmos.Base.Result.{ok, ◌>>=◌, raise_if}
use firmos.Money.{
  Number, finite, missing, written, rupees_to_paise, parse_decimal, decimal_to_paise, quantize,
}
use firmos.Gst.Parser.{
  Section, b2b, Raw, Supplier, Document, File, ParseResult, clean, is_gstin, date, first_date,
  paise, add_detail, taxes_loop, amendment_key, document, raws_loop, suppliers_loop, result_of,
  parse_gstr2b_json, identity_text,
}
use firmos.Gst.Parser.Laws.{parse_gstr2b_json-Accounts, Accounts}

-- A reading of texts as the number 9, of dates as day 100, and the length as a digest.
abbrev nine : Text → Option Number
nine s = some (finite (record { mant = pos 9; places = 0 }))

abbrev strptime : Text → Text → Option ℕ
strptime pattern' s = some 100

abbrev isoformat : ℕ → Text
isoformat d = codes "2026-06-30"

abbrev gstin : Text
gstin = codes "27ABCDE1234F1Z5"

abbrev raw : Raw
raw = record {
  gstin = [];
  inum = codes "inv-7";
  ntnum = [];
  invoice_number = [];
  idt = codes "30-06-2026";
  ntdt = [];
  invoice_date = [];
  itms =
      record {
        txval = written (codes "9");
        iamt = written (codes "9");
        camt = missing;
        samt = missing;
        csamt = missing;
      }
      ∷ [];
  val = written (codes "9");
  invoice_value = missing;
  oinum = [];
  ont_num = [];
  oidt = [];
  ont_dt = [];
}

abbrev suppliers : Section → List Supplier
suppliers b2b = record { ctin = codes "27abcde1234f1z5"; raws = raw ∷ [] } ∷ []
suppliers _ = []

abbrev file : File
file = record {
  gstin = gstin;
  rtnprd = codes "062026";
  return_period = [];
  docdata_gstin = [];
  docdata_ctin = [];
  docdata_rtnprd = [];
  suppliers = suppliers;
}

abbrev parsed_document : Document
parsed_document = record {
  identity_key =
      length
        (identity_text nine strptime isoformat length gstin (codes "INV7") 100 (codes "INVOICE"));
  supplier_gstin = gstin;
  invoice_number = codes "inv-7";
  invoice_date = 100;
  document_type = codes "INVOICE";
  amendment_of_key = none;
  taxable_paise = pos 900;
  igst_paise = pos 900;
  cgst_paise = pos 900;
  sgst_paise = pos 900;
  cess_paise = pos 900;
  total_paise = pos 900;
  section = b2b;
}

abbrev parsed : ParseResult
parsed = record {
  gstin = gstin;
  period = codes "062026";
  documents = parsed_document ∷ [];
  counts = (codes "b2b", 1) ∷ [];
  taxable_paise = pos 900;
  tax_paise = pos 3600;
  total_paise = pos 900;
}

reads_file : parse_gstr2b_json nine strptime isoformat length file ≡ ok parsed
unfolding parse_gstr2b_json suppliers_loop raws_loop document amendment_key taxes_loop add_detail
    paise date first_date clean is_gstin result_of strip drop_spaces rupees_to_paise parse_decimal
    decimal_to_paise quantize update ◌>>=◌ raise_if ◌+ℤ◌ ◌-ℤ◌
reads_file = refl

parse_gstr2b_json-Accounts_example : Accounts nine strptime isoformat length file parsed
parse_gstr2b_json-Accounts_example =
    parse_gstr2b_json-Accounts nine strptime isoformat length file parsed reads_file
