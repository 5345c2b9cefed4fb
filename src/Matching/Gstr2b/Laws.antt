-- ===== src/Matching/Gstr2b/Laws.antt =====
-- Theorems on match_gstr2b of firmos-backend/engines/gstr2b_matcher.py.
use mathlib.Core.Path.{ap}
use mathlib.Core.List.{append-nil, Memᴰ}
use mathlib.Core.List.Memᴰ.{head, tail}
use firmos.Base.{
  ℕ, ◌≡◌, inl, inr, refl, sym, ◌∙◌, Bool, true, false, not, ◌||◌, Option, none, some, List, [], ◌∷◌,
  ◌++◌, map, leb, arith, Bool-cases, Option-cases,
}
use firmos.Base.Dict.{is_some}
use firmos.Base.Lists.{All, keep, keep-true, keep-All, member, Distinct}
use firmos.Matching.Gstr2b.{
  Document, Purchase, Match, distance, is_candidate, has_number, nearest, nearer, pool, with_number,
  or_all, pick, row_of, match_loop, leftover_row, leftovers, match_gstr2b,
}

-- The identities of the documents, and the purchases, that a result speaks of.
abbrev pub key_of : Option Document → List ℕ
key_of none = []
key_of (some d) = d.identity_key ∷ []

abbrev pub document_keys : List Match → List ℕ
document_keys [] = []
document_keys (m ∷ ms) = key_of m.document ++ document_keys ms

abbrev pub id_of : Option ℕ → List ℕ
id_of none = []
id_of (some i) = i ∷ []

abbrev pub purchase_ids : List Match → List ℕ
purchase_ids [] = []
purchase_ids (m ∷ ms) = id_of m.purchase_id ++ purchase_ids ms

-- What holds of the members of a list holds of its nearest.
nearer-All :
    (P : Document → Type 0) (p : Purchase) (d : Document) (o : Option Document)
    → P d
    → ((e : Document) → o ≡ some e → P e)
    → P (nearer p d o)
nearer-All P p d none here rest = here
nearer-All P p d (some e) here rest = elim (Bool-cases (leb (distance p d) (distance p e))) [
  | inl near ↦ rw near here
  | inr far ↦ rw far (rest e refl)
]

pub nearest-All :
    (P : Document → Type 0) (p : Purchase) (ds : List Document) (d : Document)
    → All P ds
    → nearest p ds ≡ some d
    → P d
unfolding nearest
nearest-All P p [] d h e = cc
nearest-All P p (c ∷ ds) d h e =
    let eq : nearer p c (nearest p ds) ≡ d = cc in
    rw (sym eq) (nearer-All P p c (nearest p ds) h.0 (λ e' eq'. nearest-All P p ds e' h.1 eq'))

or_all-All :
    (P : Document → Type 0) (xs ys : List Document) → All P xs → All P ys → All P (or_all xs ys)
or_all-All P [] ys hx hy = hy
or_all-All P (x ∷ xs) ys hx hy = hx

pub pool-All :
    (P : Document → Type 0) (p : Purchase) (used : List ℕ) (ds : List Document)
    → All P (keep (is_candidate p used) ds)
    → All P (pool p used ds)
pool-All P p used ds h =
    or_all-All P (with_number p used ds) (keep (is_candidate p used) ds)
      (keep-All P (has_number p) (keep (is_candidate p used) ds) h) h

-- A picked document is one of the file's candidates.
pub pick-is_candidate :
    (p : Purchase) (used : List ℕ) (ds : List Document) (d : Document)
    → pick p used ds ≡ some d
    → is_candidate p used d ≡ true
unfolding pick
pick-is_candidate p used ds d e =
    nearest-All (λ x. is_candidate p used x ≡ true) p (pool p used ds) d
      (pool-All (λ x. is_candidate p used x ≡ true) p used ds (keep-true (is_candidate p used) ds))
      e

pick-unused :
    (p : Purchase) (used : List ℕ) (ds : List Document) (d : Document)
    → pick p used ds ≡ some d
    → member d.identity_key used ≡ false
pick-unused p used ds d e = ground (arith, pick-is_candidate p used ds d e)

-- The keys used by the loop are the keys of its rows and those used before.
match_loop-used :
    (claimed : List ℕ) (ds : List Document) (ps : List Purchase) (used : List ℕ) (k : ℕ)
    → member k (match_loop claimed ds ps used).1
      ≡ member k (document_keys (match_loop claimed ds ps used).0) || member k used
unfolding match_loop row_of
match_loop-used claimed ds [] used k = refl
match_loop-used claimed ds (p ∷ ps) used k = elim (Option-cases (pick p used ds)) [
  | inl e ↦ rw e (match_loop-used claimed ds ps used k)
  | inr (d, e) ↦ rw e (ground (arith, match_loop-used claimed ds ps (d.identity_key ∷ used) k))
]

-- A key that was used before is given to no later purchase.
match_loop-fresh :
    (claimed : List ℕ) (ds : List Document) (ps : List Purchase) (used : List ℕ) (k : ℕ)
    → member k used ≡ true
    → member k (document_keys (match_loop claimed ds ps used).0) ≡ false
unfolding match_loop row_of
match_loop-fresh claimed ds [] used k h = refl
match_loop-fresh claimed ds (p ∷ ps) used k h = elim (Option-cases (pick p used ds)) [
  | inl e ↦ rw e (match_loop-fresh claimed ds ps used k h)
  | inr (d, e) ↦ rw e (
      ground (
        arith,
        match_loop-fresh claimed ds ps (d.identity_key ∷ used) k,
        pick-unused p used ds d e,
      ))
]

-- No two purchases of a run of match_gstr2b's loop are given documents with the same identity key,
-- whatever the order and the duplicates of the file.
pub match_loop-Distinct :
    (claimed : List ℕ) (ds : List Document) (ps : List Purchase) (used : List ℕ)
    → Distinct (document_keys (match_loop claimed ds ps used).0)
unfolding match_loop row_of
match_loop-Distinct claimed ds [] used = tt
match_loop-Distinct claimed ds (p ∷ ps) used = elim (Option-cases (pick p used ds)) [
  | inl e ↦ rw e (match_loop-Distinct claimed ds ps used)
  | inr (d, e) ↦ rw e (
    match_loop-fresh claimed ds ps (d.identity_key ∷ used) d.identity_key (grind arith),
    match_loop-Distinct claimed ds ps (d.identity_key ∷ used),
  )
]

match_loop-ids :
    (claimed : List ℕ) (ds : List Document) (ps : List Purchase) (used : List ℕ)
    → purchase_ids (match_loop claimed ds ps used).0 ≡ map (λ p. p.id) ps
unfolding match_loop row_of
match_loop-ids claimed ds [] used = refl
match_loop-ids claimed ds (p ∷ ps) used = elim (Option-cases (pick p used ds)) [
  | inl e ↦ rw e (ap (◌∷◌ p.id) (match_loop-ids claimed ds ps used))
  | inr (d, e) ↦ rw e (ap (◌∷◌ p.id) (match_loop-ids claimed ds ps (d.identity_key ∷ used)))
]

purchase_ids-append :
    (xs ys : List Match) → purchase_ids (xs ++ ys) ≡ purchase_ids xs ++ purchase_ids ys
purchase_ids-append [] ys = refl
purchase_ids-append (x ∷ xs) ys = elim (Option-cases x.purchase_id) [
  | inl e ↦ rw e (purchase_ids-append xs ys)
  | inr (i, e) ↦ rw e (ap (◌∷◌ i) (purchase_ids-append xs ys))
]

purchase_ids-leftover : (ds rest : List Document) → purchase_ids (map (leftover_row ds) rest) ≡ []
purchase_ids-leftover ds [] = refl
purchase_ids-leftover ds (d ∷ rest) = purchase_ids-leftover ds rest

-- match_gstr2b writes one row for each purchase, in the order of the register, and its other rows name no
-- purchase.
pub match_gstr2b-purchases :
    (ps : List Purchase) (ds : List Document) (claimed : List ℕ)
    → purchase_ids (match_gstr2b ps ds claimed) ≡ map (λ p. p.id) ps
unfolding match_gstr2b
match_gstr2b-purchases ps ds claimed =
    let (rows, used) = match_loop claimed ds ps [] in
    purchase_ids-append rows (map (leftover_row ds) (leftovers used ds))
    ∙ ap (purchase_ids rows ++◌) (purchase_ids-leftover ds (leftovers used ds))
    ∙ append-nil (purchase_ids rows)
    ∙ match_loop-ids claimed ds ps []

-- The documents that rows hold, the rows of purchases, and the other rows.
abbrev pub document_of : Option Document → List Document
document_of none = []
document_of (some d) = d ∷ []

abbrev pub documents : List Match → List Document
documents [] = []
documents (m ∷ ms) = document_of m.document ++ documents ms

abbrev pub has_purchase : Match → Bool
has_purchase m = is_some m.purchase_id

abbrev pub purchase_rows : List Match → List Match
purchase_rows = keep has_purchase

abbrev pub own_rows : List Match → List Match
own_rows = keep λ m. not (has_purchase m)

keep-append {ℓ} :
    {A : Type ℓ} (f : A → Bool) (xs ys : List A) → keep f (xs ++ ys) ≡ keep f xs ++ keep f ys
keep-append f [] ys = refl
keep-append f (x ∷ xs) ys = elim (Bool-cases (f x)) [
  | inl hit ↦ rw hit (ap (◌∷◌ x) (keep-append f xs ys))
  | inr miss ↦ rw miss (keep-append f xs ys)
]

keep_ext {ℓ} :
    {A : Type ℓ} (f g : A → Bool) (xs : List A) → ((x : A) → f x ≡ g x) → keep f xs ≡ keep g xs
keep_ext f g [] h = refl
keep_ext f g (x ∷ xs) h = rw (h x, keep_ext f g xs h) refl

match_loop-purchase_rows :
    (claimed : List ℕ) (ds : List Document) (ps : List Purchase) (used : List ℕ)
    → let rows = (match_loop claimed ds ps used).0 in
      (purchase_rows rows ≡ rows) × (own_rows rows ≡ [])
unfolding match_loop row_of
match_loop-purchase_rows claimed ds [] used = (refl, refl)
match_loop-purchase_rows claimed ds (p ∷ ps) used = elim (Option-cases (pick p used ds)) [
  | inl e ↦
      let rest = match_loop-purchase_rows claimed ds ps used in
      rw e (ap (◌∷◌ (row_of claimed ds p used none)) rest.0, rest.1)
  | inr (d, e) ↦
      let rest = match_loop-purchase_rows claimed ds ps (d.identity_key ∷ used) in
      rw e (ap (◌∷◌ (row_of claimed ds p used (some d))) rest.0, rest.1)
]

leftover-own_rows :
    (ds rest : List Document)
    → let rows = map (leftover_row ds) rest in
      (purchase_rows rows ≡ []) × (documents (own_rows rows) ≡ rest)
leftover-own_rows ds [] = (refl, refl)
leftover-own_rows ds (d ∷ rest) = let h = leftover-own_rows ds rest in (h.0, ap (◌∷◌ d) h.1)

-- The two kinds of rows of a result.
match_gstr2b-rows :
    (ps : List Purchase) (ds : List Document) (claimed : List ℕ)
    → let (rows, used) = match_loop claimed ds ps [] in
      let result = match_gstr2b ps ds claimed in
      (purchase_rows result ≡ rows) × (documents (own_rows result) ≡ leftovers used ds)
unfolding match_gstr2b
match_gstr2b-rows ps ds claimed =
    let (rows, used) = match_loop claimed ds ps [] in
    let others = map (leftover_row ds) (leftovers used ds) in
    let loop = match_loop-purchase_rows claimed ds ps [] in
    let left = leftover-own_rows ds (leftovers used ds) in
    let own : own_rows (rows ++ others) ≡ own_rows others =
      keep-append (λ m. not (has_purchase m)) rows others ∙ rw loop.1 refl in
    (
      keep-append has_purchase rows others ∙ rw (loop.0, left.0) (append-nil rows),
      ap documents own ∙ left.1,
    )

-- What the loop gives to purchases holds of every document of the file.
match_loop-All :
    (P : Document → Type 0) (claimed : List ℕ) (ds : List Document) (ps : List Purchase)
    (used : List ℕ)
    → All P ds
    → All P (documents (match_loop claimed ds ps used).0)
unfolding match_loop row_of pick
match_loop-All P claimed ds [] used h = tt
match_loop-All P claimed ds (p ∷ ps) used h = elim (Option-cases (pick p used ds)) [
  | inl e ↦ rw e (match_loop-All P claimed ds ps used h)
  | inr (d, e) ↦ rw e (
    nearest-All P p (pool p used ds) d
        (pool-All P p used ds (keep-All P (is_candidate p used) ds h)) e,
    match_loop-All P claimed ds ps (d.identity_key ∷ used) h,
  )
]

All-members : (ds : List Document) → All (λ d. Memᴰ d ds) ds
All-members [] = tt
All-members (d ∷ ds) = (head refl, later ds (All-members ds))
  where
    later : (xs : List Document) → All (λ x. Memᴰ x ds) xs → All (λ x. Memᴰ x (d ∷ ds)) xs
    later [] h = tt
    later (x ∷ xs) h = (tail h.0, later xs h.1)

-- The rows of match_gstr2b without a purchase hold, once each and in the order of the file, exactly the
-- documents whose identity key no purchase's row has; and the rows of purchases hold documents of
-- the file. A document whose key a purchase's row has may stand in no row itself.
pub match_gstr2b-documents :
    (ps : List Purchase) (ds : List Document) (claimed : List ℕ)
    → let result = match_gstr2b ps ds claimed in
      let taken = document_keys (purchase_rows result) in
      (documents (own_rows result) ≡ keep (λ d. not (member d.identity_key taken)) ds)
      × All (λ d. Memᴰ d ds) (documents (purchase_rows result))
match_gstr2b-documents ps ds claimed =
    let split = match_gstr2b-rows ps ds claimed in
    let (rows, used) = match_loop claimed ds ps [] in
    rw split.0 (
      split.1
          ∙ keep_ext _ _ ds (λ d. ground (arith, match_loop-used claimed ds ps [] d.identity_key)),
      match_loop-All (λ d. Memᴰ d ds) claimed ds ps [] (All-members ds),
    )
