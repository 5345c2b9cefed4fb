-- ===== src/Invoices/States.antt =====
-- firmos-backend/core/purchase_invoices/validation.py: the state codes. Texts are ASCII.
use Prim.Native.String.{String}
use firmos.Base.{
  ℕ, ◌≡◌, refl, Bool, ◌&&◌, not, Option, none, some, List, [], ◌∷◌, map, if◌then◌else◌, leb, ◌==◌,
}
use firmos.Base.Text.{Text, codes, is_digit, is_upper, same_text, strip, upper, drop_spaces}
use firmos.Base.Lists.{length, all, any}

abbrev pub state_codes : List (String × String)
state_codes =
    ("JAMMU AND KASHMIR", "01")
    ∷ ("HIMACHAL PRADESH", "02")
    ∷ ("PUNJAB", "03")
    ∷ ("CHANDIGARH", "04")
    ∷ ("UTTARAKHAND", "05")
    ∷ ("HARYANA", "06")
    ∷ ("DELHI", "07")
    ∷ ("RAJASTHAN", "08")
    ∷ ("UTTAR PRADESH", "09")
    ∷ ("BIHAR", "10")
    ∷ ("SIKKIM", "11")
    ∷ ("ARUNACHAL PRADESH", "12")
    ∷ ("NAGALAND", "13")
    ∷ ("MANIPUR", "14")
    ∷ ("MIZORAM", "15")
    ∷ ("TRIPURA", "16")
    ∷ ("MEGHALAYA", "17")
    ∷ ("ASSAM", "18")
    ∷ ("WEST BENGAL", "19")
    ∷ ("JHARKHAND", "20")
    ∷ ("ODISHA", "21")
    ∷ ("CHHATTISGARH", "22")
    ∷ ("MADHYA PRADESH", "23")
    ∷ ("GUJARAT", "24")
    ∷ ("DADRA AND NAGAR HAVELI AND DAMAN AND DIU", "26")
    ∷ ("MAHARASHTRA", "27")
    ∷ ("KARNATAKA", "29")
    ∷ ("GOA", "30")
    ∷ ("LAKSHADWEEP", "31")
    ∷ ("KERALA", "32")
    ∷ ("TAMIL NADU", "33")
    ∷ ("PUDUCHERRY", "34")
    ∷ ("ANDAMAN AND NICOBAR ISLANDS", "35")
    ∷ ("TELANGANA", "36")
    ∷ ("ANDHRA PRADESH", "37")
    ∷ ("LADAKH", "38")
    ∷ []

abbrev pub state_abbreviations : List (String × String)
state_abbreviations =
    ("JK", "01")
    ∷ ("HP", "02")
    ∷ ("PB", "03")
    ∷ ("CH", "04")
    ∷ ("UK", "05")
    ∷ ("HR", "06")
    ∷ ("DL", "07")
    ∷ ("RJ", "08")
    ∷ ("UP", "09")
    ∷ ("BR", "10")
    ∷ ("SK", "11")
    ∷ ("AR", "12")
    ∷ ("NL", "13")
    ∷ ("MN", "14")
    ∷ ("MZ", "15")
    ∷ ("TR", "16")
    ∷ ("ML", "17")
    ∷ ("AS", "18")
    ∷ ("WB", "19")
    ∷ ("JH", "20")
    ∷ ("OD", "21")
    ∷ ("CG", "22")
    ∷ ("MP", "23")
    ∷ ("GJ", "24")
    ∷ ("DN", "26")
    ∷ ("MH", "27")
    ∷ ("KA", "29")
    ∷ ("GA", "30")
    ∷ ("LD", "31")
    ∷ ("KL", "32")
    ∷ ("TN", "33")
    ∷ ("PY", "34")
    ∷ ("AN", "35")
    ∷ ("TS", "36")
    ∷ ("AP", "37")
    ∷ ("LA", "38")
    ∷ []

-- `str(value or "").strip().upper()`
unfoldable pub cleaned : Text → Text
unfolding strip
cleaned s = upper (strip s)

-- The letters in words, with one space between two words.
abbrev pub letter_or_space : ℕ → ℕ
letter_or_space c = if is_upper c then c else b' '

unfoldable pub squeeze : Text → Text
squeeze [] = []
squeeze (c ∷ []) = c ∷ []
squeeze (c ∷ d ∷ cs) =
    let rest = squeeze (d ∷ cs) in if c == b' ' && d == b' ' then rest else c ∷ rest

unfoldable pub normalized : Text → Text
unfolding strip squeeze
normalized s = squeeze (strip (map letter_or_space s))

-- `table.get(text)`
unfoldable pub find_code : Text → List (String × String) → Option Text
find_code key [] = none
find_code key ((name, value) ∷ table) =
    if same_text (codes name) key then some (codes value) else find_code key table

-- `text.zfill(2)`, for one or two characters.
abbrev pub zfill : Text → Text
zfill (c ∷ []) = b'0' ∷ c ∷ []
zfill s = s

abbrev pub known_code : Text → Bool
known_code s = any (λ row. same_text (codes row.1) s) state_codes

abbrev pub or_else : Option Text → Option Text → Option Text
or_else none other = other
or_else (some s) other = some s

-- _gst_state_code
unfoldable pub gst_state_code : Text → Option Text
unfolding cleaned normalized find_code
gst_state_code value =
    let text = cleaned value in
    if not (leb (length text) 0) && (all is_digit text && leb (length text) 2)
    then if known_code (zfill text) then some (zfill text) else none
    else or_else (find_code text state_abbreviations) (find_code (normalized text) state_codes)

named_state : gst_state_code (codes " tamil-nadu ") ≡ some (codes "33")
unfolding gst_state_code cleaned strip drop_spaces normalized squeeze find_code
named_state = refl

short_code : gst_state_code (codes "7") ≡ some (codes "07")
unfolding gst_state_code cleaned strip drop_spaces
short_code = refl

unused_code : gst_state_code (codes "25") ≡ none
unfolding gst_state_code cleaned strip drop_spaces
unused_code = refl
