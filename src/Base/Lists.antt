-- ===== src/Base/Lists.antt =====
-- Lists measured by native numbers, under the library's names, and tests over a list.
use firmos.Base.Tests.{if◌then◌else◌, ◌==◌, Bool-cases}
use Prim.Native.Nat.{ℕ, suc, ◌+◌}
use mathlib.Core.Path.{◌≡◌, refl}
use mathlib.Core.Logic.{inl, inr}
use mathlib.Core.Bool.{Bool, true, false, not, ◌&&◌, ◌||◌}
use mathlib.Core.Option.{Option, none, some}
use mathlib.Core.List.{List, [], ◌∷◌, ◌++◌, map}
use native.Mathlib.Omega.{arith}

module _ {ℓ} {A : Type ℓ} where
  abbrev pub length : List A → ℕ
  length [] = 0
  length (x ∷ xs) = suc (length xs)

  abbrev pub any : (A → Bool) → List A → Bool
  any p [] = false
  any p (x ∷ xs) = p x || any p xs

  abbrev pub all : (A → Bool) → List A → Bool
  all p [] = true
  all p (x ∷ xs) = p x && all p xs

  -- A list comprehension with a condition.
  abbrev pub keep : (A → Bool) → List A → List A
  keep p [] = []
  keep p (x ∷ xs) = let rest = keep p xs in if p x then x ∷ rest else rest

  -- `next((x for x in xs if p(x)), None)`
  abbrev pub find : (A → Bool) → List A → Option A
  find p [] = none
  find p (x ∷ xs) = if p x then some x else find p xs

  abbrev pub sum_by : (A → ℕ) → List A → ℕ
  sum_by f [] = 0
  sum_by f (x ∷ xs) = f x + sum_by f xs

  pub length-append : (xs ys : List A) → length (xs ++ ys) ≡ length xs + length ys
  length-append [] ys = omega arith
  length-append (x ∷ xs) ys = omega (arith, length-append xs ys)

pub sum_by-append {ℓ} :
    {A : Type ℓ} (f : A → ℕ) (xs ys : List A) → sum_by f (xs ++ ys) ≡ sum_by f xs + sum_by f ys
sum_by-append f [] ys = omega arith
sum_by-append f (x ∷ xs) ys = omega (arith, sum_by-append f xs ys)

pub any-append {ℓ} :
    {A : Type ℓ} (p : A → Bool) (xs ys : List A) → any p (xs ++ ys) ≡ any p xs || any p ys
any-append p [] ys = refl
any-append p (x ∷ xs) ys = ground (arith, any-append p xs ys)

abbrev pub All {ℓ κ} : {A : Type ℓ} → (A → Type κ) → List A → Type κ
All P [] = Unit
All P (x ∷ xs) = P x × All P xs

pub All-append {ℓ κ} :
    {A : Type ℓ} (P : A → Type κ) (xs ys : List A) → All P xs → All P ys → All P (xs ++ ys)
All-append P [] ys hx hy = hy
All-append P (x ∷ xs) ys hx hy = (hx.0, All-append P xs ys hx.1 hy)

-- `a in xs`, on keys that are only compared.
abbrev pub member : ℕ → List ℕ → Bool
member a xs = any (λ x. x == a) xs

-- Keys that are all different.
abbrev pub Distinct : List ℕ → Type 0
Distinct [] = Unit
Distinct (k ∷ ks) = (member k ks ≡ false) × Distinct ks

pub keep-true {ℓ} : {A : Type ℓ} (f : A → Bool) (xs : List A) → All (λ x. f x ≡ true) (keep f xs)
keep-true f [] = tt
keep-true f (x ∷ xs) = elim (Bool-cases (f x)) [
  | inl hit ↦ rw hit (hit, keep-true f xs)
  | inr miss ↦ rw miss (keep-true f xs)
]

pub keep-All {ℓ} :
    {A : Type ℓ} (P : A → Type 0) (f : A → Bool) (xs : List A) → All P xs → All P (keep f xs)
keep-All P f [] h = tt
keep-All P f (x ∷ xs) h = elim (Bool-cases (f x)) [
  | inl hit ↦ rw hit (h.0, keep-All P f xs h.1)
  | inr miss ↦ rw miss (keep-All P f xs h.1)
]

-- What a list comprehension leaves out is named elsewhere.
pub member-map-rest {ℓ} :
    {A : Type ℓ} (f : A → ℕ) (used : List ℕ) (xs : List A) (k : ℕ)
    → member k used ≡ false
    → member k (map f xs) ≡ true
    → member k (map f (keep (λ x. not (member (f x) used)) xs)) ≡ true
member-map-rest f used [] k h e = e
member-map-rest f used (x ∷ xs) k h e = elim (Bool-cases (member (f x) used)) [
  | inl taken ↦
      let other : member k (map f xs) ≡ true = elim (Bool-cases (f x == k)) [
        | inl same ↦ grind arith
        | inr far ↦ ground arith
      ] in
      rw taken (member-map-rest f used xs k h other)
  | inr free ↦ rw free (elim (Bool-cases (f x == k)) [
    | inl same ↦ rw same refl
    | inr far ↦ rw far (member-map-rest f used xs k h (ground arith))
  ])
]
