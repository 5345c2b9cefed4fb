-- ===== src/Matching/Gstr2b/Exact.antt =====
-- Theorems on the buckets of match_gstr2b in firmos-backend/engines/gstr2b_matcher.py.
use firmos.Base.{ℕ, ◌≤◌, ◌≡◌, Bool, true, Option, none, some, List, [], ◌∷◌, arith}
use firmos.Base.Text.{same_text, upper}
use firmos.Base.Lists.{All, keep, keep-true}
use firmos.Base.Int.{ℤ, pos, ◌-ℤ◌, -ℤ_parts}
use firmos.Matching.Gstr2b.{
  Document, Purchase, exact, count_key, is_candidate, has_number, or_all, is_some_list, pool,
  with_number, pick, row_of, bucket_of, date_difference, is_zero, plain_invoice,
}
use firmos.Matching.Gstr2b.Laws.{nearest-All, pick-is_candidate}

-- A document that agrees with a purchase in GSTIN and normalized number, an invoice that is no amendment and
-- whose identity occurs once in the file.
unfoldable pub Agrees : List Document → Purchase → Document → Type 0
Agrees ds p d =
    (same_text d.supplier_gstin (upper p.gstin) ≡ true)
    × (has_number p d ≡ true)
    × (plain_invoice d ≡ true)
    × (count_key d.identity_key ds ≤ 1)

-- The first guards of a bucket that asserts the identity of the invoice.
bucket_of-exact :
    (count : ℕ) (same : Bool) (d : Document) (value days : ℤ)
    → (bucket_of count same d value days).0 ≡ exact
    → (count ≤ 1)
      × (plain_invoice d ≡ true)
      × (same ≡ true)
      × (is_zero value ≡ true)
      × (is_zero days ≡ true)
unfolding bucket_of
bucket_of-exact count same d value days e = ground arith

or_all-first :
    (P : Document → Type 0) (xs ys : List Document)
    → is_some_list xs ≡ true
    → All P xs
    → All P (or_all xs ys)
or_all-first P [] ys e h = cc
or_all-first P (x ∷ xs) ys e h = h

with_number-agree :
    (p : Purchase) (used : List ℕ) (ds : List Document) (d : Document)
    → is_some_list (with_number p used ds) ≡ true
    → pick p used ds ≡ some d
    → has_number p d ≡ true
unfolding pick
with_number-agree p used ds d some_number e =
    nearest-All (λ x. has_number p x ≡ true) p (pool p used ds) d
      (or_all-first (λ x. has_number p x ≡ true) (with_number p used ds)
        (keep (is_candidate p used) ds) some_number
        (keep-true (has_number p) (keep (is_candidate p used) ds)))
      e

-- A date that could be read is the document's.
unfoldable pub SameDay : Option ℕ → ℕ → Type 0
SameDay none day = Unit
SameDay (some book) day = book ≡ day

zero_days : (o : Option ℕ) (day : ℕ) → is_zero (date_difference day o) ≡ true → SameDay o day
unfolding SameDay
zero_days none day e = tt
zero_days (some book) day e = ground (arith, -ℤ_parts (pos day) (pos book))

zero_value : (a b : ℤ) → is_zero (a -ℤ b) ≡ true → a ≡ b
zero_value a b e = ground (arith, -ℤ_parts a b)

-- A purchase's row is EXACT only when its document agrees in GSTIN, normalized number and total, in the date
-- too if the book's date could be read, and is an unamended invoice whose identity the file has once.
pub row_of-exact :
    (claimed : List ℕ) (ds : List Document) (p : Purchase) (used : List ℕ) (d : Document)
    → pick p used ds ≡ some d
    → (row_of claimed ds p used (some d)).bucket ≡ exact
    → Agrees ds p d × (d.total ≡ p.amount) × SameDay p.date d.invoice_date
unfolding row_of Agrees
row_of-exact claimed ds p used d picked e =
    let (once, plain, same, value, days) =
      bucket_of-exact (count_key d.identity_key ds) (is_some_list (with_number p used ds)) d
        (d.total -ℤ p.amount) (date_difference d.invoice_date p.date) e in
    let candidate = pick-is_candidate p used ds d picked in
    (
      (ground arith, with_number-agree p used ds d same picked, plain, once),
      zero_value d.total p.amount value,
      zero_days p.date d.invoice_date days,
    )
