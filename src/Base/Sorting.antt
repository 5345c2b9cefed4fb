-- ===== src/Base/Sorting.antt =====
-- Python's `sorted` on keys that are compared by a total order, where every sort gives one result, and
-- the order of tuples and of texts.
use Prim.Native.Nat.{ℕ, ◌+◌}
use mathlib.Core.Path.{◌≡◌, refl, sym, ap, ◌∙◌}
use mathlib.Core.Logic.{inl, inr}
use mathlib.Core.Bool.{Bool, true, false, ◌&&◌, ◌||◌}
use mathlib.Core.List.{List, [], ◌∷◌, Perm}
use mathlib.Core.List.Perm
use native.Mathlib.Omega.{arith}
use firmos.Base.Tests.{if◌then◌else◌, ltb, ◌==◌, Bool-cases}
use firmos.Base.Lists.{sum_by}
use firmos.Base.Text.{Text, same_text}

module _ {ℓ} {A : Type ℓ} where
  unfoldable pub insert : (A → A → Bool) → A → List A → List A
  insert le a [] = a ∷ []
  insert le a (b ∷ l) = let rest = insert le a l in if le a b then a ∷ b ∷ l else b ∷ rest

  unfoldable pub sorted : (A → A → Bool) → List A → List A
  unfolding insert
  sorted le [] = []
  sorted le (a ∷ l) = insert le a (sorted le l)

  insert-perm : (le : A → A → Bool) (a : A) (l : List A) → Perm (insert le a l) (a ∷ l)
  unfolding insert
  insert-perm le a [] = Perm.refl (a ∷ [])
  insert-perm le a (b ∷ l) = elim (Bool-cases (le a b)) [
    | inl here ↦ rw here (Perm.refl (a ∷ b ∷ l))
    | inr later ↦ rw later (Perm.trans (Perm.cons b (insert-perm le a l)) (Perm.swap a b l))
  ]

  pub sorted-perm : (le : A → A → Bool) (l : List A) → Perm (sorted le l) l
  unfolding sorted
  sorted-perm le [] = Perm.refl []
  sorted-perm le (a ∷ l) =
      Perm.trans (insert-perm le a (sorted le l)) (Perm.cons a (sorted-perm le l))

  -- Lists with one sorting hold the same items.
  pub perm_of_sorted : (le : A → A → Bool) (l m : List A) → sorted le l ≡ sorted le m → Perm l m
  perm_of_sorted le l m e = Perm.trans (Perm.symm (sorted-perm le l)) (rw e (sorted-perm le m))

  sum_by-insert :
      (le : A → A → Bool) (f : A → ℕ) (a : A) (l : List A)
      → sum_by f (insert le a l) ≡ f a + sum_by f l
  unfolding insert
  sum_by-insert le f a [] = refl
  sum_by-insert le f a (b ∷ l) = ground (arith, sum_by-insert le f a l)

  pub sum_by-sorted :
      (le : A → A → Bool) (f : A → ℕ) (l : List A) → sum_by f (sorted le l) ≡ sum_by f l
  unfolding sorted
  sum_by-sorted le f [] = refl
  sum_by-sorted le f (a ∷ l) =
      omega (arith, sum_by-insert le f a (sorted le l), sum_by-sorted le f l)

  pub sum_of_sorted :
      (le : A → A → Bool) (f : A → ℕ) (l m : List A)
      → sorted le l ≡ sorted le m
      → sum_by f l ≡ sum_by f m
  sum_of_sorted le f l m e = sym (sum_by-sorted le f l) ∙ ap (sum_by f) e ∙ sum_by-sorted le f m

  -- `l == m`
  unfoldable pub same_list : (A → A → Bool) → List A → List A → Bool
  same_list eq [] [] = true
  same_list eq (a ∷ l) (b ∷ m) = eq a b && same_list eq l m
  same_list eq _ _ = false

  pub same_list_refl :
      (eq : A → A → Bool) → ((a : A) → eq a a ≡ true) → (l : List A) → same_list eq l l ≡ true
  unfolding same_list
  same_list_refl eq h [] = refl
  same_list_refl eq h (a ∷ l) = rw (h a) (same_list_refl eq h l)

  pub eq_of_same_list :
      (eq : A → A → Bool)
      → ((a b : A) → eq a b ≡ true → a ≡ b)
      → (l m : List A) → same_list eq l m ≡ true
      → l ≡ m
  unfolding same_list
  eq_of_same_list eq h [] [] e = refl
  eq_of_same_list eq h [] (b ∷ m) e = cc
  eq_of_same_list eq h (a ∷ l) [] e = cc
  eq_of_same_list eq h (a ∷ l) (b ∷ m) e =
      let heads : a ≡ b = h a b (ground arith) in
      let tails : l ≡ m = eq_of_same_list eq h l m (ground arith) in cc

-- `s <= t`
abbrev pub leb_text : Text → Text → Bool
leb_text [] t = true
leb_text (a ∷ s) [] = false
leb_text (a ∷ s) (b ∷ t) = ltb a b || (a == b && leb_text s t)

-- Tuples compare by the first component that differs.
abbrev pub first_then : Text → Text → Bool → Bool
first_then s t rest = if same_text s t then rest else leb_text s t
