-- ===== src/Tests/Matching.antt =====
-- A GSTR-2B file against a purchase register, two sources of lines, and the candidates of a transfer.
use mathlib.Core.List.{Memᴰ}
use firmos.Base.{not, ℕ, ◌+◌, ◌≡◌, refl, false, some, none, List, [], ◌∷◌, map}
use firmos.Base.Int.{pos, ◌+ℤ◌, ◌-ℤ◌}
use firmos.Base.Float.{
  Float, of_int, lt_float, add, mul, round_ratio, round_half_even, doublings, growths, precision,
  max_shift, max_growth,
}
use firmos.Base.Lists.{All, member, keep, Distinct, length}
use firmos.Base.Text.{Text, codes}
use firmos.Matching.Gstr2b.{
  Document, Purchase, invoice, pick, nearest, row_of, match_loop, match_gstr2b, count_key,
  bucket_of,
}
use firmos.Matching.Gstr2b.Laws.{
  document_keys, documents, own_rows, purchase_rows, match_loop-Distinct, match_gstr2b-documents,
}
use firmos.Matching.Gstr2b.Exact.{Agrees, SameDay, row_of-exact}
use firmos.Matching.Bank.{
  Transaction, Candidate, score_candidates, score_loop, score_of, shared_tokens, overlap, tokens,
  runs, sorted, insert,
}
use firmos.Matching.Bank.Laws.{Supported, Descending, score_candidates-Supported}
use firmos.Matching.Reconcile.{Line, reconcile, best_loop}
use firmos.Matching.Reconcile.Laws.{AdmittedIf, taken}
use firmos.Matching.Reconcile.Chosen.{best_loop-chosen}
use firmos.Matching.Reconcile.Totals.{lines_total, left_over, reconcile-accounts}

abbrev gstin : Text
gstin = codes "27AAPFU0939F1ZV"

abbrev document : ℕ → Document
document key = record {
  identity_key = key;
  supplier_gstin = gstin;
  invoice_number = codes "INV-7";
  invoice_date = 400;
  document_type = invoice;
  is_amendment = false;
  total = pos 11800;
}

abbrev purchase : ℕ → Purchase
purchase id = record {
  id = id;
  gstin = gstin;
  ref = codes "inv/7";
  date = some 400;
  amount = pos 11800;
}

abbrev register : List Purchase
register = purchase 1 ∷ purchase 2 ∷ []

abbrev file : List Document
file = document 70 ∷ document 71 ∷ []

match_loop-Distinct_example : Distinct (document_keys (match_loop [] file register []).0)
match_loop-Distinct_example = match_loop-Distinct [] file register []

match_gstr2b-documents_example :
    (documents (own_rows (match_gstr2b register file []))
      ≡ keep
          (λ d.
            not (
              member d.identity_key
                (document_keys (purchase_rows (match_gstr2b register file [])))))
          file)
    × All (λ d. Memᴰ d file) (documents (purchase_rows (match_gstr2b register file [])))
match_gstr2b-documents_example = match_gstr2b-documents register file []

row_of-exact_example :
    Agrees file (purchase 1) (document 70)
    × ((document 70).total ≡ (purchase 1).amount)
    × SameDay (purchase 1).date (document 70).invoice_date
unfolding pick nearest row_of count_key bucket_of ◌-ℤ◌
row_of-exact_example = row_of-exact [] file (purchase 1) [] (document 70) refl refl

abbrev book : Line
book = record {
  id = 1;
  counterparty = codes "Acme";
  amount = pos 5000;
  ref = codes "A1";
  gstin = gstin;
}

abbrev portal : Line
portal = record { id = 8; counterparty = gstin; amount = pos 5100; ref = codes "A1"; gstin = gstin }

abbrev other : Line
other = record { id = 9; counterparty = codes "Bolt"; amount = pos 700; ref = []; gstin = [] }

abbrev no_likeness : Text → Text → Float
no_likeness a b = of_int 0

best_loop-chosen_example :
    AdmittedIf no_likeness book [] (best_loop no_likeness book [] (portal ∷ other ∷ []) none)
    × All
        (λ tgt.
          taken no_likeness book [] (best_loop no_likeness book [] (portal ∷ other ∷ []) none) tgt
          ≡ false)
        (portal ∷ other ∷ [])
best_loop-chosen_example = best_loop-chosen no_likeness book [] (portal ∷ other ∷ [])

reconcile-accounts_example :
    let (ms, s) = reconcile no_likeness (book ∷ []) (portal ∷ other ∷ []) in
    (s.auto_count + s.suggested_count + s.unmatched_count ≡ length ms)
    × (s.total_auto +ℤ (s.total_suggested +ℤ s.total_unmatched)
        ≡ lines_total (book ∷ [])
          +ℤ lines_total (left_over no_likeness (book ∷ []) (portal ∷ other ∷ [])))
reconcile-accounts_example = reconcile-accounts no_likeness (book ∷ []) (portal ∷ other ∷ [])

abbrev transfer : Transaction
transfer = record {
  txn_date = 300;
  debit = pos 5000;
  credit = pos 0;
  normalized_tokens = codes "NEFT" ∷ codes "ACME" ∷ [];
}

abbrev bill : ℕ → Text → Candidate
bill day party = record {
  candidate_id = 1;
  txn_date = day;
  amount = pos 5000;
  party = party;
  reference = [];
}

abbrev bills : List Candidate
bills = bill 302 [] ∷ bill 350 [] ∷ bill 301 (codes "Acme Ltd") ∷ []

score_candidates-Supported_example :
    All (Supported transfer) (score_candidates transfer bills)
    × Descending (score_candidates transfer bills)
score_candidates-Supported_example = score_candidates-Supported transfer bills

-- The bill with no evidence but its amount is left out, and the one with a token comes first.
ranked : map (λ s. s.candidate.txn_date) (score_candidates transfer bills) ≡ 301 ∷ 302 ∷ []
unfolding score_candidates score_loop score_of shared_tokens overlap tokens runs sorted insert
    lt_float add mul of_int round_ratio round_half_even doublings growths precision max_shift
    max_growth ◌-ℤ◌
ranked = refl
