-- ===== src/Registers/Replay.antt =====
-- Projections, replayed: firmos-backend/core/purchase_invoices/projection.py and
-- core/sales_invoices/projection.py.
use mathlib.Core.Path.{subst}
use firmos.Base.{
  ℕ, ◌≡◌, refl, ap, sym, ◌∙◌, Bool, true, false, ◌&&◌, Option, none, some, List, [], ◌∷◌, map, ◌==◌,
  inl, inr, Bool-cases, arith,
}
use firmos.Base.Result.{ok, ◌>>=◌, Ensures, returns, binds, ensured, bind-ok, ok_injective}
use firmos.Base.Text.{Text}
use firmos.Money.{Number}
use firmos.Registers.{
  Document, Draft, post_document, post_draft, purchase_entry, sale_entry, entry_of, project_matched,
  project_verified, Entry, same_source, supersede, merge, upsert, write, Verified, Tables,
}
use firmos.Registers.Laws.{IsRegister, active_rows, after, after-active, after-IsRegister}

module _ (purchases : Bool) (now : ℕ) (new : Entry) where
  -- The statements once more change no row.
  abbrev is_hit : Entry → Bool
  is_hit e = same_source new e && e.source_version == new.source_version

  upsert_hit :
      (e : Entry) (l : List Entry)
      → is_hit e ≡ true
      → upsert purchases new (e ∷ l) ≡ merge purchases new e ∷ l
  unfolding upsert
  upsert_hit e l h = rw h refl

  upsert_miss :
      (e : Entry) (l : List Entry)
      → is_hit e ≡ false
      → upsert purchases new (e ∷ l) ≡ e ∷ upsert purchases new l
  unfolding upsert
  upsert_miss e l h = rw h refl

  supersede_hit : (later : ℕ) (e : Entry) → is_hit e ≡ true → supersede later new e ≡ e
  supersede_hit later e h = ground arith

  supersede_twice :
      (later : ℕ) (e : Entry) → supersede later new (supersede now new e) ≡ supersede now new e
  supersede_twice later e = ground arith

  supersede-after :
      (later : ℕ) (l : List Entry)
      → map (supersede later new) (map (supersede now new) l) ≡ map (supersede now new) l
  supersede-after later [] = refl
  supersede-after later (e ∷ l) = λ i. supersede_twice later e i ∷ supersede-after later l i

merge_twice :
    (purchases : Bool) (new e : Entry)
    → merge purchases new (merge purchases new e) ≡ merge purchases new e
merge_twice true new e = refl
merge_twice false new e = refl

merge_self :
    (purchases : Bool) (new : Entry)
    → new.active ≡ true
    → new.superseded_at ≡ none
    → merge purchases new new ≡ new
merge_self true new a b = λ i. record new { active = sym a i; superseded_at = sym b i }
merge_self false new a b = λ i. record new { active = sym a i; superseded_at = sym b i }

upsert_nil : (purchases : Bool) (new : Entry) → upsert purchases new [] ≡ new ∷ []
unfolding upsert
upsert_nil purchases new = refl

module _ (purchases : Bool) (now later : ℕ) (new : Entry) where
  abbrev again : List Entry → List Entry
  again l = upsert purchases new (map (supersede later new) l)

  after-again :
      (l : List Entry)
      → new.active ≡ true
      → new.superseded_at ≡ none
      → again (after purchases now new l) ≡ after purchases now new l
  after-again [] a b =
      let own : is_hit purchases now new new ≡ true = ground arith in
      ap again (upsert_nil purchases new)
      ∙ ap (λ x. upsert purchases new (x ∷ [])) (supersede_hit purchases now new later new own)
      ∙ upsert_hit purchases now new new [] own
      ∙ ap (λ x. x ∷ []) (merge_self purchases new a b)
      ∙ sym (upsert_nil purchases new)
  after-again (e ∷ l) a b =
      let e' = supersede now new e in
      let rest = map (supersede now new) l in
      elim (Bool-cases (is_hit purchases now new e')) [
        | inl hit ↦
            let merged = merge purchases new e' in
            ap again (upsert_hit purchases now new e' rest hit)
            ∙ ap (upsert purchases new) (λ i.
              supersede_hit purchases now new later merged hit i
              ∷ supersede-after purchases now new later l i)
            ∙ upsert_hit purchases now new merged rest hit
            ∙ ap (λ x. x ∷ rest) (merge_twice purchases new e')
            ∙ sym (upsert_hit purchases now new e' rest hit)
        | inr miss ↦
            ap again (upsert_miss purchases now new e' rest miss)
            ∙ ap
                (λ x.
                  upsert purchases new (x ∷ map (supersede later new) (after purchases now new l)))
                (supersede_twice purchases now new later e)
            ∙ upsert_miss purchases now new e' _ miss
            ∙ ap (λ x. e' ∷ x) (after-again l a b)
            ∙ sym (upsert_miss purchases now new e' rest miss)
      ]

post_documents :
    (id : ℕ) (l : List Document)
    → map (post_document id) (map (post_document id) l) ≡ map (post_document id) l
post_documents id [] = refl
post_documents id (d ∷ l) = ground (arith, post_documents id l)

post_drafts :
    (id reference : ℕ) (l : List Draft)
    → map (post_draft id reference) (map (post_draft id reference) l)
      ≡ map (post_draft id reference) l
post_drafts id reference [] = refl
post_drafts id reference (d ∷ l) = ground (arith, post_drafts id reference l)

write-again :
    (purchases : Bool) (v : Verified) (new : Entry) (later : ℕ) (t : Tables)
    → new.active ≡ true
    → new.superseded_at ≡ none
    → write purchases v new (record (write purchases v new t) { now = later })
      ≡ record (write purchases v new t) { now = later }
unfolding write
write-again purchases v new later t a b = λ i. record {
  now = later;
  entries = after-again purchases t.now later new t.entries a b i;
  documents = post_documents v.document_id t.documents i;
  drafts = post_drafts v.draft_id v.provider_id t.drafts i;
}

module _ (month_year : Text → Option (ℕ × ℕ)) (identity digest : ℕ → ℕ → ℕ)
    (decimal : Text → Option Number) where
  -- The new row is of the verified object, and active.
  abbrev IsOf : Verified → Entry → Type 0
  IsOf v e =
      (e.active ≡ true)
      × (e.superseded_at ≡ none)
      × (e.firm_id ≡ v.firm_id)
      × (e.client_id ≡ v.client_id)
      × (e.source_identity ≡ identity v.provider v.provider_object_uuid)

  entry-IsOf :
      (purchases : Bool) (v : Verified)
      → Ensures (IsOf v) (entry_of month_year identity digest decimal purchases v)
  unfolding entry_of purchase_entry sale_entry
  entry-IsOf true v = binds _ _ λ _ _.
      binds _ _ λ _ _. binds _ _ λ _ _. binds _ _ λ _ _. returns _ (refl, refl, refl, refl, refl)
  entry-IsOf false v = binds _ _ λ _ _. binds _ _ λ _ _.
      binds _ _ λ _ _. binds _ _ λ _ _. binds _ _ λ _ _. returns _ (refl, refl, refl, refl, refl)

  -- What a projection leaves, and that it may be repeated.
  abbrev pub Projected : Bool → Verified → Bool × Tables → Type 0
  Projected purchases v r =
      IsRegister r.1.entries
      × (active_rows v.firm_id v.client_id (identity v.provider v.provider_object_uuid) r.1.entries
          ≡ 1)
      × ((later : ℕ)
          → project_matched month_year identity digest decimal purchases v
              (record r.1 { now = later })
            ≡ ok (true, record r.1 { now = later }))

  write-Projected :
      (purchases : Bool) (v : Verified) (new : Entry) (t : Tables)
      → entry_of month_year identity digest decimal purchases v ≡ ok new
      → IsOf v new
      → IsRegister t.entries
      → Projected purchases v (true, write purchases v new t)
  unfolding project_matched ◌>>=◌
  write-Projected purchases v new t he (a, b, f, c, i) sound = (
    unfold write in after-IsRegister purchases t.now new t.entries a sound,
    rw (sym f) (
        rw (sym c)
          (rw (sym i) (unfold write in after-active purchases t.now new t.entries a sound))),
    λ later. rw he (ap (λ x. ok (true, x)) (write-again purchases v new later t a b)),
  )

  -- A projection of a matched verification leaves a register with at most one row of a version and at most
  -- one active row of a source, if it was one; the source that was verified has exactly one active
  -- row; and to project the same verification again, at any time, changes nothing.
  pub project_verified-Projected :
      (purchases : Bool) (v : Verified) (t t' : Tables)
      → project_verified month_year identity digest decimal purchases (some v) t ≡ ok (true, t')
      → IsRegister t.entries
      → Projected purchases v (true, t')
  unfolding project_verified
  project_verified-Projected purchases v t t' h sound = elim (Bool-cases v.is_matched) [
    | inr other ↦ let apart : ◌≡◌ {A = Bool} false true = ground (arith, other) in cc
    | inl matched ↦
        let h' : project_matched month_year identity digest decimal purchases v t ≡ ok (true, t') =
          ground (arith, matched) in
        let (new, he, e) =
          bind-ok (entry_of month_year identity digest decimal purchases v) _ _
            (unfold project_matched in h') in
        let facts = ensured new he (entry-IsOf purchases v) in
        subst (Projected purchases v) (ok_injective e)
          (write-Projected purchases v new t he facts sound)
  ]
