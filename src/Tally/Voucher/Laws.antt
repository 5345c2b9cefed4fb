-- ===== src/Tally/Voucher/Laws.antt =====
-- What a validated voucher is: validate_purchase and validate_sales of
-- firmos-backend/connectors/tally/canonical.py.
use firmos.Base.{ℕ, ◌+◌, ◌≡◌, refl, true, false, not, Option, List, [], ◌∷◌, arith}
use firmos.Base.Int.{pos, pos_part, neg_part, eqb_ℤ, leb_ℤ, +ℤ_parts}
use firmos.Base.Lists.{any, sum_by}
use firmos.Base.Result.{returns, binds, guards, ensured, ok}
use firmos.Base.Text.{Text}
use firmos.Tally.{Line, sum_ℤ}
use firmos.Tally.Voucher.{
  Purchase, Sale, Voucher, is_zero, is_incomplete, names_ledger, is_incomplete_gst, is_posted,
  tax_sum, validate_purchase, validate_sales,
}

-- Debits are negative amounts and credits positive ones.
abbrev pub credits : List Line → ℕ
credits = sum_by λ l. pos_part l.amount_paise

abbrev pub debits : List Line → ℕ
debits = sum_by λ l. neg_part l.amount_paise

sum_parts :
    (ls : List Line)
    → pos_part (sum_ℤ (λ (l : Line). l.amount_paise) ls) + debits ls
      ≡ neg_part (sum_ℤ (λ (l : Line). l.amount_paise) ls) + credits ls
sum_parts [] = refl
sum_parts (l ∷ ls) =
    omega (arith, sum_parts ls, +ℤ_parts l.amount_paise (sum_ℤ (λ (x : Line). x.amount_paise) ls))

pub balanced_of_zero :
    (ls : List Line)
    → is_zero (sum_ℤ (λ (l : Line). l.amount_paise) ls) ≡ true
    → debits ls ≡ credits ls
balanced_of_zero ls h = ground (arith, sum_parts ls)

-- A voucher whose lines may be posted: complete, in balance, and on both of its ledgers.
pub record IsPostable (v : Voucher) : Type 0 where
  pub is_positive : leb_ℤ v.total_paise (pos 0) ≡ false
  pub is_complete : any is_incomplete v.entries ≡ false
  pub is_balanced : debits v.entries ≡ credits v.entries
  pub has_party : names_ledger v.party_ledger v.entries ≡ true
  pub has_account : names_ledger v.account_ledger v.entries ≡ true

-- Its tax lines are complete, stand among the lines, and add up to its tax.
pub record IsTaxed (v : Voucher) : Type 0 where
  pub tax_complete : any is_incomplete_gst v.gst_details ≡ false
  pub tax_posted : any (λ g. not (is_posted v.entries g)) v.gst_details ≡ false
  pub tax_adds_up : eqb_ℤ v.tax_total_paise (tax_sum v.gst_details) ≡ true

pub validate_sales-IsPostable : (p : Sale) (v : Voucher) → validate_sales p ≡ ok v → IsPostable v
unfolding validate_sales
validate_sales-IsPostable p v e = ensured {P = IsPostable} v e (
    guards _ _ _ λ _. guards _ _ _ λ _. binds _ _ λ total _. guards _ _ _ λ positive.
      binds _ _ λ lines _. guards _ _ _ λ sound. guards _ _ _ λ named. binds _ _ λ taxes _.
        returns _ record {
          is_positive = positive;
          is_complete = ground arith;
          is_balanced = balanced_of_zero lines (ground arith);
          has_party = ground arith;
          has_account = ground arith;
        })

pub validate_purchase-IsPostable :
    (compact_date : Text → Option Text) (p : Purchase) (v : Voucher)
    → validate_purchase compact_date p ≡ ok v
    → IsPostable v × IsTaxed v
unfolding validate_purchase
validate_purchase-IsPostable compact_date p v e = ensured {P = λ v. IsPostable v × IsTaxed v} v e (
    guards _ _ _ λ _. binds _ _ λ parsed _. binds _ _ λ total _. guards _ _ _ λ positive.
      guards _ _ _ λ apart. binds _ _ λ lines _. guards _ _ _ λ complete. guards _ _ _ λ balance.
        guards _ _ _ λ named. guards _ _ _ λ _. binds _ _ λ gst _. guards _ _ _ λ gst_complete.
          guards _ _ _ λ posted. binds _ _ λ taxes _. guards _ _ _ λ total_agrees. returns _ (
            record {
              is_positive = positive;
              is_complete = complete;
              is_balanced = balanced_of_zero lines (ground arith);
              has_party = ground arith;
              has_account = ground arith;
            },
            record { tax_complete = gst_complete; tax_posted = posted; tax_adds_up = ground arith },
          ))
