-- ===== src/Hardening/RateLimit/Laws.antt =====
-- Counting the times of a window, for RateLimiter of firmos-backend/core/hardening.py.
use firmos.Base.{
  ℕ, ◌+◌, ◌≤◌, ◌≡◌, refl, Bool, true, false, ◌&&◌, List, [], ◌∷◌, ◌++◌, ltb, leb, arith, Bool-cases,
  inl, inr,
}
use firmos.Base.Lists.{length, keep, All}
use firmos.Hardening.RateLimit.{recent}

-- How many of the times lie in the window that ends with `t`.
abbrev pub one_if : Bool → ℕ
one_if true = 1
one_if false = 0

pub one_if_le : (b : Bool) → one_if b ≤ 1
one_if_le true = omega arith
one_if_le false = omega arith

abbrev pub counts : (window t x : ℕ) → Bool
counts window t x = leb x t && ltb t (x + window)

abbrev pub count_in : (window t : ℕ) → List ℕ → ℕ
count_in window t [] = 0
count_in window t (x ∷ xs) = one_if (counts window t x) + count_in window t xs

pub count_in-append :
    (window t : ℕ) (xs ys : List ℕ)
    → count_in window t (xs ++ ys) ≡ count_in window t xs + count_in window t ys
count_in-append window t [] ys = omega arith
count_in-append window t (x ∷ xs) ys = omega (arith, count_in-append window t xs ys)

pub count_in-le-length : (window t : ℕ) (xs : List ℕ) → count_in window t xs ≤ length xs
count_in-le-length window t [] = omega arith
count_in-le-length window t (x ∷ xs) = ground (arith, count_in-le-length window t xs)

-- What is dropped does not count from then on, and what is kept counts now.
pub count_in-keep :
    (window now t : ℕ) (xs : List ℕ)
    → now ≤ t
    → count_in window t (keep (recent window now) xs) ≡ count_in window t xs
count_in-keep window now t [] le = refl
count_in-keep window now t (x ∷ xs) le = ground (arith, count_in-keep window now t xs le)

pub keep-All :
    (window now : ℕ) (P : ℕ → Type 0) (xs : List ℕ) → All P xs → All P (keep (recent window now) xs)
keep-All window now P [] h = tt
keep-All window now P (x ∷ xs) h = elim (Bool-cases (recent window now x)) [
  | inl r ↦ rw r (h.0, keep-All window now P xs h.1)
  | inr r ↦ rw r (keep-All window now P xs h.1)
]

pub All-le : (xs : List ℕ) (m n : ℕ) → m ≤ n → All (λ x. x ≤ m) xs → All (λ x. x ≤ n) xs
All-le [] m n le h = tt
All-le (x ∷ xs) m n le h = (omega (arith, h.0), All-le xs m n le h.1)
