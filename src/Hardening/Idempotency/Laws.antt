-- ===== src/Hardening/Idempotency/Laws.antt =====
-- Theorems on check_idempotency_db of firmos-backend/core/hardening.py.
use firmos.Base.{
  ℕ, suc, ◌≤◌, ◌≡◌, inl, inr, refl, true, false, not, ◌&&◌, List, [], ◌∷◌, if◌then◌else◌, ◌==◌,
  Bool-cases, arith,
}
use firmos.Base.Lists.{member}
use firmos.Hardening.Idempotency.{Pool, logged, check_idempotency_db}

-- How often a key is called fresh by the checks of a list of keys, each with its pool.
unfoldable pub fresh_count : ℕ → List (Pool × ℕ) → List ℕ → ℕ
unfolding check_idempotency_db
fresh_count k [] used = 0
fresh_count k (request ∷ requests) used =
    let (duplicate, used') = check_idempotency_db request.0 request.1 used in
    let rest = fresh_count k requests used' in
    if not duplicate && (request.1 == k) then suc rest else rest

fresh_count-used :
    (k : ℕ) (requests : List (Pool × ℕ)) (used : List ℕ)
    → member k used ≡ true
    → fresh_count k requests used ≡ 0
unfolding fresh_count
fresh_count-used k [] used h = refl
fresh_count-used k ((pool, key) ∷ requests) used h = elim (Bool-cases (member key used)) [
  | inl seen ↦ rw (seen, check_idempotency_db) (fresh_count-used k requests used h)
  | inr new ↦
      let other : (key == k) ≡ false = grind arith in
      let rest = fresh_count-used k requests (key ∷ used) (grind arith) in
      elim (Bool-cases (logged pool key)) [
        | inl found ↦ rw (new, found, check_idempotency_db) rest
        | inr absent ↦ rw (new, absent, other, check_idempotency_db) rest
      ]
]

-- However the checks of one process come, one after the other and from whatever pools, a key is called
-- fresh at most once.
pub fresh_count-once :
    (k : ℕ) (requests : List (Pool × ℕ)) (used : List ℕ) → fresh_count k requests used ≤ 1
unfolding fresh_count
fresh_count-once k [] used = omega arith
fresh_count-once k ((pool, key) ∷ requests) used = elim (Bool-cases (member key used)) [
  | inl seen ↦ rw (seen, check_idempotency_db) (fresh_count-once k requests used)
  | inr new ↦ elim (Bool-cases (logged pool key)) [
    | inl found ↦ rw (new, found, check_idempotency_db) (fresh_count-once k requests (key ∷ used))
    | inr absent ↦ elim (Bool-cases (key == k)) [
      | inl same ↦
          let none_left = fresh_count-used k requests (key ∷ used) (grind arith) in
          rw (new, absent, same, check_idempotency_db) (omega (arith, none_left))
      | inr other ↦
          rw (new, absent, other, check_idempotency_db) (fresh_count-once k requests (key ∷ used))
    ]
  ]
]
