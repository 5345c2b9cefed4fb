-- ===== src/Tests/Money.antt =====
-- Amounts of money and a provider's split at concrete inputs.
use firmos.Base.{
  ◌+◌, ◌*◌, ◌^◌, ◌≤◌, ◌≡◌, refl, true, false, not, ◌&&◌, some, none, ap, sym, ◌∙◌, Option, [], ◌∷◌,
  if◌then◌else◌, ltb, ◌==◌,
}
use firmos.Base.Int.{ℤ, pos, negsuc, ◌-ℤ◌, abs, ◌+ℤ◌}
use firmos.Base.Decimal.{Decimal}
use firmos.Base.Lists.{all}
use firmos.Base.Text.{Text, codes, same_text, strip, drop_spaces}
use firmos.Money.{
  Number, finite, written, missing, converted, invalid_operation, ◌>>=◌, signed, digits_limit,
  decimal_to_paise, paise_to_decimal, divide_by_100, significant, excess, quantize_even, cleaned,
  quantize, rupees_to_paise, parse_decimal,
}
use firmos.Base.Float.{round_half_even}
use firmos.Money.Laws.{rupees_to_paise-paise_to_decimal, decimal_to_paise-nearest}
use firmos.Gst.ProviderSplit.{
  Provided, Split, paise, extract_components, parts_loop, label_of, is_known, no_parts, parts_total,
}
use firmos.Gst.ProviderSplit.Laws.{extract_components-verified}

-- -12.34 as the Decimal, its text and the reading of the text.
abbrev amount : Decimal
amount = record { mant = negsuc 1233; places = 2 }

abbrev str : Decimal → Text
str d = codes "-12.34"

abbrev reads_amount : Text → Option Number
reads_amount s = if same_text s (codes "-12.34") then some (finite amount) else none

amount_of : paise_to_decimal (negsuc 1233) ≡ converted amount
unfolding paise_to_decimal divide_by_100 significant excess quantize_even round_half_even ◌-ℤ◌
amount_of = refl

amount_read :
    (d : Decimal)
    → paise_to_decimal (negsuc 1233) ≡ converted d
    → reads_amount (cleaned (str d)) ≡ some (finite d)
unfolding strip drop_spaces
amount_read d h =
    let same : converted amount ≡ converted d = sym amount_of ∙ h in
    let e : amount ≡ d = cc in ap (λ x. some (finite x)) e

rupees_to_paise-paise_to_decimal_example :
    (paise_to_decimal (negsuc 1233) >>= λ d. rupees_to_paise reads_amount true (written (str d)))
    ≡ (if ltb (abs (negsuc 1233)) (10 ^ digits_limit)
        then converted (negsuc 1233)
        else invalid_operation)
rupees_to_paise-paise_to_decimal_example =
    rupees_to_paise-paise_to_decimal reads_amount str true (negsuc 1233) amount_read

-- -12.345, which is rounded away from zero.
abbrev reading : Decimal
reading = record { mant = negsuc 12344; places = 3 }

abbrev rounded : ℤ
rounded = negsuc 1234

decimal_to_paise-nearest_example :
    (rounded ≡ signed reading.mant (abs rounded))
    × (false && not (abs rounded * 10 ^ reading.places == abs reading.mant * 100) ≡ false)
    × (2 * (abs reading.mant * 100) ≤ 2 * (abs rounded * 10 ^ reading.places) + 10 ^ reading.places)
    × (2 * (abs rounded * 10 ^ reading.places) ≤ 2 * (abs reading.mant * 100) + 10 ^ reading.places)
unfolding decimal_to_paise quantize ◌-ℤ◌
decimal_to_paise-nearest_example = decimal_to_paise-nearest false reading rounded refl

-- A reading of texts as the number 9.
abbrev nine : Text → Option Number
nine s = some (finite (record { mant = pos 9; places = 0 }))

abbrev provided : Provided
provided = record {
  taxes =
      record {
        tax_type = codes "IGST18";
        tax_name = [];
        tax_specification = [];
        tax_amount = written (codes "9");
      }
      ∷ [];
  tax_total = written (codes "9");
  sub_total = written (codes "9");
  total = missing;
}

abbrev parts : Split
parts = record {
  igst = pos 900;
  cgst = pos 0;
  sgst = pos 0;
  cess = pos 0;
  taxable = pos 900;
  components_verified = true;
}

extract_components-verified_example :
    (all is_known provided.taxes ≡ true)
    × ((no_parts provided.taxes).components_verified ≡ true)
    × (paise nine provided.tax_total ≡ converted (parts_total parts))
unfolding extract_components parts_loop label_of rupees_to_paise parse_decimal strip drop_spaces
    decimal_to_paise quantize ◌-ℤ◌ ◌+ℤ◌
extract_components-verified_example = extract_components-verified nine provided parts refl refl
