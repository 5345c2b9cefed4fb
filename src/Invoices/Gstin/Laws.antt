-- ===== src/Invoices/Gstin/Laws.antt =====
-- Theorems on _gstin_checksum of firmos-backend/core/purchase_invoices/validation.py.
use mathlib.Core.List.{reverse, reverse-append, append_assoc}
use firmos.Base.{
  ℕ, ◌+◌, ◌-◌, ◌*◌, ◌/◌, ◌%◌, ◌<◌, ◌≡◌, ◌⊎◌, inl, inr, refl, ap, ◌∙◌, Bool, true, List, [], ◌∷◌,
  ◌++◌, ◌==◌, arith, Bool-cases,
}
use firmos.Base.Text.{Text, is_digit, is_upper, is_alphanumeric}
use firmos.Base.Lists.{All}
use firmos.Invoices.Gstin.{
  is_entity, is_z, full_match, gstin_pattern, gst_index, gst_char, next_factor, weigh,
  checksum_loop, check_reversed, gstin_checksum,
}

-- The characters of GST_CHARS.
abbrev IsGstChar : ℕ → Type 0
IsGstChar c = is_alphanumeric c ≡ true

gst_index_bound : (c : ℕ) → IsGstChar c → gst_index c < 36
unfolding gst_index
gst_index_bound c h = ground arith

gst_index_inj : (a b : ℕ) → IsGstChar a → IsGstChar b → gst_index a ≡ gst_index b → a ≡ b
unfolding gst_index
gst_index_inj a b ha hb h = ground arith

gst_index-gst_char : (n c : ℕ) → n < 36 → gst_char n ≡ c → gst_index c ≡ n
unfolding gst_index gst_char
gst_index-gst_char n c lt h = ground arith

-- Both factors tell all characters apart, modulo 36.
abbrev IsFactor : ℕ → Type 0
IsFactor f = (f ≡ 1) ⊎ (f ≡ 2)

one_inj :
    (x y k : ℕ)
    → x < 36
    → y < 36
    → (1 * x / 36 + 1 * x % 36 + k) % 36 ≡ 0
    → (1 * y / 36 + 1 * y % 36 + k) % 36 ≡ 0
    → x ≡ y
one_inj x y k lx ly zx zy = omega arith

two_inj :
    (x y k : ℕ)
    → x < 36
    → y < 36
    → (2 * x / 36 + 2 * x % 36 + k) % 36 ≡ 0
    → (2 * y / 36 + 2 * y % 36 + k) % 36 ≡ 0
    → x ≡ y
two_inj x y k lx ly zx zy = omega arith

weigh_inj :
    (f a b k : ℕ)
    → IsFactor f
    → IsGstChar a
    → IsGstChar b
    → (weigh f a + k) % 36 ≡ 0
    → (weigh f b + k) % 36 ≡ 0
    → a ≡ b
unfolding weigh
weigh_inj f a b k (inl e) ha hb za zb = gst_index_inj a b ha hb (
    one_inj (gst_index a) (gst_index b) k (gst_index_bound a ha) (gst_index_bound b hb) (rw e at za)
      (rw e at zb))
weigh_inj f a b k (inr e) ha hb za zb = gst_index_inj a b ha hb (
    two_inj (gst_index a) (gst_index b) k (gst_index_bound a ha) (gst_index_bound b hb) (rw e at za)
      (rw e at zb))

-- The loop adds the weights up.
weights : Text → ℕ → ℕ
weights [] f = 0
weights (c ∷ cs) f = weigh f c + weights cs (next_factor f)

checksum_loop-eq-weights :
    (cs : Text) (f total : ℕ) → checksum_loop cs f total ≡ total + weights cs f
unfolding checksum_loop weights
checksum_loop-eq-weights [] f total = omega arith
checksum_loop-eq-weights (c ∷ cs) f total =
    omega (arith, checksum_loop-eq-weights cs (next_factor f) (total + weigh f c))

next_factor-IsFactor : (f : ℕ) → IsFactor (next_factor f)
next_factor-IsFactor f = elim (Bool-cases (f == 2)) [
  | inl two ↦ rw two (inl refl)
  | inr other ↦ rw other (inr refl)
]

-- Two texts that differ in one place have different sums of weights, modulo 36.
weights_inj :
    (q : Text) (a b : ℕ) (p : Text) (f k : ℕ)
    → IsFactor f
    → IsGstChar a
    → IsGstChar b
    → (weights (q ++ a ∷ p) f + k) % 36 ≡ 0
    → (weights (q ++ b ∷ p) f + k) % 36 ≡ 0
    → a ≡ b
unfolding weights
weights_inj [] a b p f k factor ha hb za zb =
    weigh_inj f a b (weights p (next_factor f) + k) factor ha hb (omega arith) (omega arith)
weights_inj (c ∷ q) a b p f k factor ha hb za zb =
    weights_inj q a b p (next_factor f) (weigh f c + k) (next_factor-IsFactor f) ha hb (omega arith)
      (omega arith)

-- The check character makes the sum of all weights, its own index included, a multiple of 36.
check_reversed-zero :
    (last : ℕ) (body : Text)
    → check_reversed (last ∷ body) ≡ true
    → (weights body 2 + gst_index last) % 36 ≡ 0
unfolding check_reversed
check_reversed-zero last body h =
    let total = weights body 2 in
    let e : checksum_loop body 2 0 ≡ 0 + total = checksum_loop-eq-weights body 2 0 in
    let n = (36 - checksum_loop body 2 0 % 36) % 36 in
    let char : gst_char n ≡ last = ground (arith, h) in
    let index = gst_index-gst_char n last (omega arith) char in omega (arith, e, index)

full_match-All :
    (ps : List (ℕ → Bool)) (cs : Text)
    → All (λ p. (c : ℕ) → p c ≡ true → IsGstChar c) ps
    → full_match ps cs ≡ true
    → All IsGstChar cs
unfolding full_match
full_match-All [] [] h m = tt
full_match-All [] (c ∷ cs) h m = cc
full_match-All (p ∷ ps) [] h m = cc
full_match-All (p ∷ ps) (c ∷ cs) h m =
    let parts : (p c ≡ true) × (full_match ps cs ≡ true) = ground arith in
    (h.0 c parts.0, full_match-All ps cs h.1 parts.1)

All-middle : (P : ℕ → Type 0) (xs ys : Text) (a : ℕ) → All P (xs ++ a ∷ ys) → P a
All-middle P [] ys a h = h.0
All-middle P (x ∷ xs) ys a h = All-middle P xs ys a h.1

digit_char : (c : ℕ) → is_digit c ≡ true → IsGstChar c
digit_char c h = ground arith

upper_char : (c : ℕ) → is_upper c ≡ true → IsGstChar c
upper_char c h = ground arith

entity_char : (c : ℕ) → is_entity c ≡ true → IsGstChar c
entity_char c h = ground arith

z_char : (c : ℕ) → is_z c ≡ true → IsGstChar c
z_char c h = ground arith

all_char : (c : ℕ) → is_alphanumeric c ≡ true → IsGstChar c
all_char c h = h

gstin_pattern-chars : All (λ p. (c : ℕ) → p c ≡ true → IsGstChar c) gstin_pattern
gstin_pattern-chars = (
  digit_char,
  (
    digit_char,
    (
      upper_char,
      (
        upper_char,
        (
          upper_char,
          (
            upper_char,
            (
              upper_char,
              (
                digit_char,
                (
                  digit_char,
                  (digit_char, (digit_char, (upper_char, (entity_char, (z_char, (all_char, tt)))))),
                ),
              ),
            ),
          ),
        ),
      ),
    ),
  ),
)

reverse-middle : (p q : Text) (a : ℕ) → reverse (p ++ a ∷ q) ≡ reverse q ++ a ∷ reverse p
reverse-middle p q a =
    reverse-append p (a ∷ q)
    ∙ ap (λ (r : Text). r ++ reverse p) (reverse-append (a ∷ []) q)
    ∙ append_assoc (reverse q) (a ∷ []) (reverse p)

last_inj :
    (r p : Text) (a b : ℕ)
    → IsGstChar a
    → IsGstChar b
    → check_reversed (r ++ a ∷ p) ≡ true
    → check_reversed (r ++ b ∷ p) ≡ true
    → a ≡ b
last_inj [] p a b ha hb za zb = gst_index_inj a b ha hb (
    omega (
      arith,
      gst_index_bound a ha,
      gst_index_bound b hb,
      check_reversed-zero a p za,
      check_reversed-zero b p zb,
    ))
last_inj (last ∷ r) p a b ha hb za zb =
    weights_inj r a b p 2 (gst_index last) (inr refl) ha hb
      (check_reversed-zero last (r ++ a ∷ p) za) (check_reversed-zero last (r ++ b ∷ p) zb)

-- One wrong character is found: two texts that differ in one place at most, and that both pass the
-- test of format and check character, are equal.
pub gstin_checksum_inj :
    (p q : Text) (a b : ℕ)
    → gstin_checksum (p ++ a ∷ q) ≡ true
    → gstin_checksum (p ++ b ∷ q) ≡ true
    → a ≡ b
unfolding gstin_checksum
gstin_checksum_inj p q a b va vb =
    let fa : full_match gstin_pattern (p ++ a ∷ q) ≡ true = ground arith in
    let fb : full_match gstin_pattern (p ++ b ∷ q) ≡ true = ground arith in
    let ca : check_reversed (reverse (p ++ a ∷ q)) ≡ true = ground arith in
    let cb : check_reversed (reverse (p ++ b ∷ q)) ≡ true = ground arith in
    last_inj (reverse q) (reverse p) a b
      (All-middle IsGstChar p q a (full_match-All gstin_pattern _ gstin_pattern-chars fa))
      (All-middle IsGstChar p q b (full_match-All gstin_pattern _ gstin_pattern-chars fb))
      (rw (reverse-middle p q a) at ca) (rw (reverse-middle p q b) at cb)
