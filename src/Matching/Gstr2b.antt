-- ===== src/Matching/Gstr2b.antt =====
-- firmos-backend/engines/gstr2b_matcher.py. An identity key is compared alone, so it is a number, and a
-- date is the number of its day; a purchase's date is `none` where fromisoformat raises. The reasons,
-- texts that the bucket fixes, are left out, and scores are hundredths.
pub mod Laws
pub mod Exact
use firmos.Base.{
  ℕ, suc, ◌+◌, Bool, true, false, ◌&&◌, ◌||◌, not, Option, none, some, List, [], ◌∷◌, ◌++◌, map,
  if◌then◌else◌, ltb, leb, ◌==◌,
}
use firmos.Base.Text.{Text, is_alphanumeric, same_text, upper}
use firmos.Base.Lists.{keep, member}
use firmos.Base.Int.{ℤ, pos, ◌-ℤ◌, abs, eqb_ℤ}

pub data DocumentType : Type 0 where
  invoice other_document : DocumentType

pub record Document : Type 0 where
  pub identity_key : ℕ
  pub supplier_gstin : Text
  pub invoice_number : Text
  pub invoice_date : ℕ
  pub document_type : DocumentType
  pub is_amendment : Bool
  pub total : ℤ

-- A line of the purchase register, with the empty text for a missing GSTIN or reference.
pub record Purchase : Type 0 where
  pub id : ℕ
  pub gstin : Text
  pub ref : Text
  pub date : Option ℕ
  pub amount : ℤ

pub data Bucket : Type 0 where
  missing_in_2b duplicate amendment_credit_note exact probable mismatch manual_review : Bucket
  missing_in_books : Bucket

pub record Match : Type 0 where
  pub purchase_id : Option ℕ
  pub document : Option Document
  pub bucket : Bucket
  pub score : Option ℕ
  pub differences : Option (ℤ × ℤ)
  pub claimed_before : Bool

abbrev pub value_tolerance : ℕ
value_tolerance = 100

abbrev pub date_tolerance : ℕ
date_tolerance = 5

-- _number
abbrev pub number : Text → Text
number s = keep is_alphanumeric (upper s)

-- `counts`, and membership in `used`.
unfoldable pub count_key : ℕ → List Document → ℕ
count_key key [] = 0
count_key key (d ∷ ds) =
    let rest = count_key key ds in if d.identity_key == key then suc rest else rest

abbrev pub is_candidate : Purchase → List ℕ → Document → Bool
is_candidate p used d =
    not (member d.identity_key used) && same_text d.supplier_gstin (upper p.gstin)

abbrev pub has_number : Purchase → Document → Bool
has_number p d = same_text (number d.invoice_number) (number p.ref)

-- `min(pool, key=...)`: the first of the nearest.
abbrev pub distance : Purchase → Document → ℕ
distance p d = abs (d.total -ℤ p.amount)

abbrev pub nearer : Purchase → Document → Option Document → Document
nearer p d none = d
nearer p d (some e) = if leb (distance p d) (distance p e) then d else e

unfoldable pub nearest : Purchase → List Document → Option Document
nearest p [] = none
nearest p (d ∷ ds) = let rest = nearest p ds in some (nearer p d rest)

abbrev pub or_all : List Document → List Document → List Document
or_all [] all = all
or_all (d ∷ ds) all = d ∷ ds

abbrev pub is_some_list : List Document → Bool
is_some_list [] = false
is_some_list (d ∷ ds) = true

abbrev pub date_difference : ℕ → Option ℕ → ℤ
date_difference day none = pos 0
date_difference day (some book) = pos day -ℤ pos book

abbrev pub is_zero : ℤ → Bool
is_zero a = eqb_ℤ a (pos 0)

abbrev pub plain_invoice : Document → Bool
plain_invoice d =
    not d.is_amendment && (elim d.document_type [ invoice ↦ true | other_document ↦ false ])

-- The bucket and the score of a purchase and the document that was picked for it.
unfoldable pub bucket_of : ℕ → Bool → Document → ℤ → ℤ → Bucket × ℕ
bucket_of count same_number d value days =
    if ltb 1 count
    then (duplicate, 0)
    else if not (plain_invoice d)
    then (amendment_credit_note, 70)
    else if same_number && (is_zero value && is_zero days)
    then (exact, 100)
    else if same_number && (leb (abs value) value_tolerance && leb (abs days) date_tolerance)
    then (probable, 92)
    else if same_number
    then (mismatch, 80)
    else (manual_review, 50)

-- The document for a purchase: `pool` and its minimum.
abbrev pub with_number : Purchase → List ℕ → List Document → List Document
with_number p used ds = keep (has_number p) (keep (is_candidate p used) ds)

abbrev pub pool : Purchase → List ℕ → List Document → List Document
pool p used ds = or_all (with_number p used ds) (keep (is_candidate p used) ds)

unfoldable pub pick : Purchase → List ℕ → List Document → Option Document
unfolding nearest
pick p used ds = nearest p (pool p used ds)

unfoldable pub row_of : List ℕ → List Document → Purchase → List ℕ → Option Document → Match
unfolding count_key bucket_of
row_of claimed ds p used none = record {
  purchase_id = some p.id;
  document = none;
  bucket = missing_in_2b;
  score = none;
  differences = none;
  claimed_before = false;
}
row_of claimed ds p used (some d) =
    let value = d.total -ℤ p.amount in
    let days = date_difference d.invoice_date p.date in
    let (bucket, score) =
      bucket_of (count_key d.identity_key ds) (is_some_list (with_number p used ds)) d value days in
    record {
      purchase_id = some p.id;
      document = some d;
      bucket = bucket;
      score = some score;
      differences = some (value, days);
      claimed_before = member d.identity_key claimed;
    }

abbrev pub use_key : Option Document → List ℕ → List ℕ
use_key none used = used
use_key (some d) used = d.identity_key ∷ used

-- The loop over the purchases, with the keys used so far.
unfoldable pub match_loop : List ℕ → List Document → List Purchase → List ℕ → List Match × List ℕ
unfolding pick row_of
match_loop claimed ds [] used = ([], used)
match_loop claimed ds (p ∷ ps) used =
    let picked = pick p used ds in
    let (rows, used') = match_loop claimed ds ps (use_key picked used) in
    (row_of claimed ds p used picked ∷ rows, used')

-- The loop over the documents whose keys were not used.
abbrev pub leftover_row : List Document → Document → Match
leftover_row ds d = record {
  purchase_id = none;
  document = some d;
  bucket = if ltb 1 (count_key d.identity_key ds) then duplicate else missing_in_books;
  score = none;
  differences = none;
  claimed_before = false;
}

abbrev pub leftovers : List ℕ → List Document → List Document
leftovers used = keep (λ d. not (member d.identity_key used))

unfoldable pub match_gstr2b : List Purchase → List Document → List ℕ → List Match
unfolding match_loop
match_gstr2b ps ds claimed =
    let (rows, used) = match_loop claimed ds ps [] in
    rows ++ map (leftover_row ds) (leftovers used ds)
