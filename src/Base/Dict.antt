-- ===== src/Base/Dict.antt =====
-- Python's dicts with texts as keys: association lists in the order of insertion.
use mathlib.Core.Path.{◌≡◌, refl, ap, sym}
use mathlib.Core.Logic.{inl, inr}
use mathlib.Core.Bool.{Bool, true, false, ◌||◌}
use mathlib.Core.Option
use mathlib.Core.Option.{Option, none, some}
use mathlib.Core.List.{List, [], ◌∷◌, map}
use firmos.Base.Tests.{if◌then◌else◌, Bool-cases, Option-cases}
use firmos.Base.Text.{Text, same_text, same_text_refl, eq_of_same_text}

abbrev pub Dict {ℓ} : Type ℓ → Type ℓ
Dict A = List (Text × A)

abbrev pub is_some {ℓ} : {A : Type ℓ} → Option A → Bool
is_some none = false
is_some (some a) = true

module _ {ℓ} {A : Type ℓ} where
  -- `d.get(key)`
  unfoldable pub lookup : Text → Dict A → Option A
  lookup key [] = none
  lookup key (entry ∷ d) =
      let rest = lookup key d in if same_text entry.0 key then some entry.1 else rest

  abbrev pub or_default : A → Option A → A
  or_default a none = a
  or_default a (some b) = b

  -- `d.get(key, default)`, which is `d[key]` of a defaultdict.
  abbrev pub get_or : A → Text → Dict A → A
  get_or a key d = or_default a (lookup key d)

  -- `d[key] = f(d.get(key, default))`
  unfoldable pub update : A → (A → A) → Text → Dict A → Dict A
  update a f key [] = (key, f a) ∷ []
  update a f key (entry ∷ d) =
      let rest = update a f key d in
      if same_text entry.0 key then (entry.0, f entry.1) ∷ d else entry ∷ rest

  pub lookup-update :
      (a : A) (f : A → A) (key : Text) (d : Dict A)
      → lookup key (update a f key d) ≡ some (f (get_or a key d))
  unfolding lookup update
  lookup-update a f key [] = rw (same_text_refl key) refl
  lookup-update a f key (entry ∷ d) = elim (Bool-cases (same_text entry.0 key)) [
    | inl same ↦ rw same (rw same refl)
    | inr other ↦ rw other (rw other (lookup-update a f key d))
  ]

  pub lookup-update_other :
      (a : A) (f : A → A) (key other : Text) (d : Dict A)
      → same_text key other ≡ false
      → lookup other (update a f key d) ≡ lookup other d
  unfolding lookup update
  lookup-update_other a f key other [] h = rw h refl
  lookup-update_other a f key other (entry ∷ d) h = elim (Bool-cases (same_text entry.0 key)) [
    | inl same ↦
        let apart : same_text entry.0 other ≡ false = rw (eq_of_same_text entry.0 key same) h in
        rw same (rw apart refl)
    | inr far ↦ rw far (
        ap (λ r. if same_text entry.0 other then some entry.1 else r)
          (lookup-update_other a f key other d h))
  ]

  -- An update seen through `d.get(other, a)`.
  pub get_or-update :
      (a : A) (f : A → A) (key other : Text) (d : Dict A)
      → get_or a other (update a f key d)
        ≡ (if same_text key other then f (get_or a other d) else get_or a other d)
  get_or-update a f key other d = elim (Bool-cases (same_text key other)) [
    | inl same ↦
        let equal = eq_of_same_text key other same in
        rw same (rw (sym equal) (ap (or_default a) (lookup-update a f key d)))
    | inr far ↦ rw far (ap (or_default a) (lookup-update_other a f key other d far))
  ]

  -- `key in d`
  abbrev pub has_key : Text → Dict A → Bool
  has_key key d = is_some (lookup key d)

  pub has_key-update :
      (a : A) (f : A → A) (key other : Text) (d : Dict A)
      → has_key other (update a f key d) ≡ same_text key other || has_key other d
  has_key-update a f key other d = elim (Bool-cases (same_text key other)) [
    | inl same ↦
        let equal = eq_of_same_text key other same in
        rw same (rw (sym equal) (ap is_some (lookup-update a f key d)))
    | inr far ↦ rw far (ap is_some (lookup-update_other a f key other d far))
  ]

pub lookup-get_or {ℓ} :
    {A : Type ℓ} (a : A) (key : Text) (d : Dict A)
    → lookup key d ≡ (if has_key key d then some (get_or a key d) else none)
lookup-get_or a key d = elim (Option-cases (lookup key d)) [
  | inl missing ↦ rw missing refl
  | inr (b, there) ↦ rw there refl
]

pub lookup-map {ℓ κ} :
    {A : Type ℓ} {B : Type κ} (f : Text → A → B) (key : Text) (d : Dict A)
    → lookup key (map (λ e. (e.0, f e.0 e.1)) d) ≡ Option.map (f key) (lookup key d)
unfolding lookup
lookup-map f key [] = refl
lookup-map f key (entry ∷ d) = elim (Bool-cases (same_text entry.0 key)) [
  | inl same ↦ rw (same, eq_of_same_text entry.0 key same) refl
  | inr far ↦ rw far (lookup-map f key d)
]
