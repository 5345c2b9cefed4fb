-- ===== src/Gst/Parser/Laws.antt =====
-- The documents of a GSTR-2B file, counted and valid: firmos-backend/engines/gstr2b_parser.py.
use mathlib.Core.List.{append-nil, append_assoc}
use firmos.Base.{
  ℕ, suc, ◌+◌, ◌≡◌, refl, sym, ◌∙◌, Bool, true, false, not, ◌||◌, Option, List, [], ◌∷◌, ◌++◌, map,
  arith, if◌then◌else◌,
}
use firmos.Base.Dict.{Dict, lookup, update, get_or, get_or-update}
use firmos.Base.Lists.{All, length, sum_by}
use firmos.Base.Text.{Text, is_empty_text, same_text}
use firmos.Base.Result.{ok, Ensures, returns, binds, guards, ensured, weaken}
use firmos.Money.{Number}
use firmos.Gst.Parser.{
  Section, b2b, b2ba, cdnr, cdnra, Raw, Supplier, Document, clean, is_gstin, document, section_key,
  raws_loop, suppliers_loop, File, ParseResult, result_of, parse_gstr2b_json, document_type,
  is_empty_list,
}

-- A document names a supplier and an invoice, and its type is that of its section.
abbrev pub IsDocument : Document → Type 0
IsDocument d =
    (is_gstin d.supplier_gstin ≡ true)
    × (is_empty_text (clean d.invoice_number) ≡ false)
    × (d.document_type ≡ document_type d.section)

-- The raw documents of a list of suppliers, and of a file, in order, with their section and supplier.
abbrev pub raw_count : List Supplier → ℕ
raw_count = sum_by λ s. length s.raws

abbrev pub Entry : Type 0
Entry = Section × Supplier × Raw

abbrev pub entries : Section → List Supplier → List Entry
entries section [] = []
entries section (s ∷ suppliers) = map (λ raw. (section, s, raw)) s.raws ++ entries section suppliers

abbrev pub file_entries : File → List Entry
file_entries f =
    entries b2b (f.suppliers b2b)
    ++ (entries b2ba (f.suppliers b2ba)
        ++ (entries cdnr (f.suppliers cdnr) ++ entries cdnra (f.suppliers cdnra)))

abbrev pub same_section : Section → Section → Bool
same_section b2b b2b = true
same_section b2ba b2ba = true
same_section cdnr cdnr = true
same_section cdnra cdnra = true
same_section _ _ = false

section_key-same : (a b : Section) → same_text (section_key a) (section_key b) ≡ same_section a b
section_key-same b2b b2b = refl
section_key-same b2b b2ba = refl
section_key-same b2b cdnr = refl
section_key-same b2b cdnra = refl
section_key-same b2ba b2b = refl
section_key-same b2ba b2ba = refl
section_key-same b2ba cdnr = refl
section_key-same b2ba cdnra = refl
section_key-same cdnr b2b = refl
section_key-same cdnr b2ba = refl
section_key-same cdnr cdnr = refl
section_key-same cdnr cdnra = refl
section_key-same cdnra b2b = refl
section_key-same cdnra b2ba = refl
section_key-same cdnra cdnr = refl
section_key-same cdnra cdnra = refl

-- The count of a section, `counts.get(key, 0)`.
abbrev pub count_of : Section → Dict ℕ → ℕ
count_of s = get_or 0 (section_key s)

-- What a loop over `n` raw documents of a section adds to the count of another.
abbrev added : Section → Section → ℕ → ℕ
added section s n = if same_section section s then n else 0

count_of-update :
    (section s : Section) (d : Dict ℕ)
    → count_of s (update 0 suc (section_key section) d) ≡ count_of s d + added section s 1
count_of-update section s d =
    get_or-update 0 suc (section_key section) (section_key s) d
    ∙ rw (section_key-same section s) (either (same_section section s) (count_of s d))
  where
    either : (b : Bool) (n : ℕ) → (if b then suc n else n) ≡ n + (if b then 1 else 0)
    either true n = omega arith
    either false n = omega arith

added-sum :
    (section s : Section) (m n : ℕ)
    → added section s (m + n) ≡ added section s m + added section s n
added-sum section s m n = ground arith

both : (a b : Bool) → not a || b ≡ false → (a ≡ true) × (b ≡ false)
both true b h = (refl, h)
both false b h = cc

abbrev Progress : Type 0
Progress = List Document × Dict ℕ

module _ (decimal : Text → Option Number) (strptime : Text → Text → Option ℕ) (isoformat : ℕ → Text)
    (sha256 : Text → ℕ) where
  document-IsDocument :
      (section : Section) (supplier : Supplier) (raw : Raw)
      → Ensures IsDocument (document decimal strptime isoformat sha256 section supplier raw)
  unfolding document
  document-IsDocument section supplier raw = binds _ _ λ when _. guards _ _ _ λ valid.
      binds _ _ λ t _. binds _ _ λ total _.
        binds _ _ λ amended _. let (known, named) = both _ _ valid in returns _ (known, named, refl)

  -- The documents are read from the entries, one from each and in their order.
  abbrev pub Reads : List Entry → List Document → Type 0
  Reads [] [] = Unit
  Reads ((section, supplier, raw) ∷ es) (d ∷ ds) =
      (document decimal strptime isoformat sha256 section supplier raw ≡ ok d) × Reads es ds
  Reads _ _ = ⊥

  Reads-append :
      (es fs : List Entry) (ds xs : List Document)
      → Reads es ds
      → Reads fs xs
      → Reads (es ++ fs) (ds ++ xs)
  Reads-append [] fs [] xs h k = k
  Reads-append [] fs (d ∷ ds) xs h k = absurd h
  Reads-append (e ∷ es) fs [] xs h k = absurd h
  Reads-append (e ∷ es) fs (d ∷ ds) xs h k = (h.0, Reads-append es fs ds xs h.1 k)

  Reads-IsDocument : (es : List Entry) (ds : List Document) → Reads es ds → All IsDocument ds
  Reads-IsDocument [] [] h = tt
  Reads-IsDocument [] (d ∷ ds) h = absurd h
  Reads-IsDocument (e ∷ es) [] h = absurd h
  Reads-IsDocument ((section, supplier, raw) ∷ es) (d ∷ ds) h =
      (ensured d h.0 (document-IsDocument section supplier raw), Reads-IsDocument es ds h.1)

  -- The parser went from one state to another over the entries `es`, `n section` of each section.
  abbrev pub Extends : List Entry → (Section → ℕ) → Progress → Progress → Type 0
  Extends es n done done' =
      ((before : List Entry) → Reads before done.0 → Reads (before ++ es) done'.0)
      × ((s : Section) → count_of s done'.1 ≡ count_of s done.1 + n s)

  Extends-nothing :
      (n : Section → ℕ) (done : Progress) → ((s : Section) → n s ≡ 0) → Extends [] n done done
  Extends-nothing n done z = ((λ before h. rw (append-nil before) h), λ s. omega (arith, z s))

  Extends-then :
      (es fs : List Entry) (m n : Section → ℕ) (first second third : Progress)
      → Extends es m first second
      → Extends fs n second third
      → Extends (es ++ fs) (λ s. m s + n s) first third
  Extends-then es fs m n first second third h k = (
    (λ before r. rw (sym (append_assoc before es fs)) (k.0 (before ++ es) (h.0 before r))),
    λ s. omega (arith, h.1 s, k.1 s),
  )

  raw-Extends :
      (section : Section) (supplier : Supplier) (raw : Raw) (done : Progress) (d : Document)
      → document decimal strptime isoformat sha256 section supplier raw ≡ ok d
      → Extends
          ((section, supplier, raw) ∷ [])
          (λ s. added section s 1)
          done
          (done.0 ++ (d ∷ []), update 0 suc (section_key section) done.1)
  raw-Extends section supplier raw done d h = (
    (λ before r. Reads-append before ((section, supplier, raw) ∷ []) done.0 (d ∷ []) r (h, tt)),
    λ s. count_of-update section s done.1,
  )

  raws-Extends :
      (section : Section) (supplier : Supplier) (done : Progress) (raws : List Raw)
      → Ensures
          (Extends
            (map (λ raw. (section, supplier, raw)) raws)
            (λ s. added section s (length raws))
            done)
          (raws_loop decimal strptime isoformat sha256 section supplier done raws)
  unfolding raws_loop
  raws-Extends section supplier done [] = returns done (Extends-nothing _ done (λ s. ground arith))
  raws-Extends section supplier done (raw ∷ raws) = binds _ _ λ d hd.
      let next : Progress = (done.0 ++ (d ∷ []), update 0 suc (section_key section) done.1) in
      let first = raw-Extends section supplier raw done d hd in
      weaken
        (λ last rest.
          let both =
            Extends-then ((section, supplier, raw) ∷ []) (map (λ r. (section, supplier, r)) raws) _
              _ done next last first rest in
          (both.0, λ s. grind (arith, both.1 s)))
        (raws-Extends section supplier next raws)

  suppliers-Extends :
      (section : Section) (done : Progress) (suppliers : List Supplier)
      → Ensures
          (Extends (entries section suppliers) (λ s. added section s (raw_count suppliers)) done)
          (suppliers_loop decimal strptime isoformat sha256 section done suppliers)
  unfolding suppliers_loop
  suppliers-Extends section done [] = returns done (Extends-nothing _ done (λ s. ground arith))
  suppliers-Extends section done (supplier ∷ suppliers) = binds _ _ λ next hn.
      let first = ensured next hn (raws-Extends section supplier done supplier.raws) in
      weaken
        (λ last rest.
          let both =
            Extends-then (map (λ r. (section, supplier, r)) supplier.raws)
              (entries section suppliers) _ _ done next last first rest in
          (
            both.0,
            λ s.
                omega (
                  arith,
                  both.1 s,
                  added-sum section s (length supplier.raws) (raw_count suppliers),
                ),
          ))
        (suppliers-Extends section next suppliers)

  -- What the four loops over a file do, one after the other.
  file-Extends :
      (f : File) (first second third fourth : Progress)
      → Extends
          (entries b2b (f.suppliers b2b))
          (λ s. added b2b s (raw_count (f.suppliers b2b)))
          ([], [])
          first
      → Extends
          (entries b2ba (f.suppliers b2ba))
          (λ s. added b2ba s (raw_count (f.suppliers b2ba)))
          first
          second
      → Extends
          (entries cdnr (f.suppliers cdnr))
          (λ s. added cdnr s (raw_count (f.suppliers cdnr)))
          second
          third
      → Extends
          (entries cdnra (f.suppliers cdnra))
          (λ s. added cdnra s (raw_count (f.suppliers cdnra)))
          third
          fourth
      → Reads (file_entries f) fourth.0
        × ((s : Section) → count_of s fourth.1 ≡ raw_count (f.suppliers s))
  unfolding lookup
  file-Extends f first second third fourth h1 h2 h3 h4 =
      let e34 = Extends-then _ _ _ _ second third fourth h3 h4 in
      let e24 = Extends-then _ _ _ _ first second fourth h2 e34 in
      let all = Extends-then _ _ _ _ ([], []) first fourth h1 e24 in
      (
        all.0 [] tt,
        λ s. elim s as (λ k. count_of k fourth.1 ≡ raw_count (f.suppliers k)) [
          | b2b ↦ omega (arith, all.1 b2b)
          | b2ba ↦ omega (arith, all.1 b2ba)
          | cdnr ↦ omega (arith, all.1 cdnr)
          | cdnra ↦ omega (arith, all.1 cdnra)
        ],
      )

  -- What a result holds of its file.
  abbrev pub Accounts : File → ParseResult → Type 0
  Accounts f r =
      Reads (file_entries f) r.documents
      × All IsDocument r.documents
      × ((s : Section) → count_of s r.counts ≡ raw_count (f.suppliers s))
      × (is_empty_list r.documents ≡ false)

  -- The documents of a file that is read are those that `document` makes of the raw documents of its four
  -- sections, one of each and in their order, and at least one; each has a GSTIN of the pattern, a
  -- number with a letter or a digit, and the type of its section; and each section's count is the
  -- number of its raw documents.
  pub parse_gstr2b_json-Accounts :
      (f : File) (r : ParseResult)
      → parse_gstr2b_json decimal strptime isoformat sha256 f ≡ ok r
      → Accounts f r
  unfolding parse_gstr2b_json result_of
  parse_gstr2b_json-Accounts f r h = ensured {P = Accounts f} r h (
      binds _ _ λ first h1. binds _ _ λ second h2. binds _ _ λ third h3. binds _ _ λ fourth h4.
        guards _ _ _ λ some_document.
          let (reads, counts) =
            file-Extends f first second third fourth
              (ensured first h1 (suppliers-Extends b2b ([], []) _))
              (ensured second h2 (suppliers-Extends b2ba first _))
              (ensured third h3 (suppliers-Extends cdnr second _))
              (ensured fourth h4 (suppliers-Extends cdnra third _)) in
          returns _ (reads, Reads-IsDocument _ fourth.0 reads, counts, some_document))
