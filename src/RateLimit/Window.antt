-- ===== src/RateLimit/Window.antt =====
-- quansec/core/ratelimit.py: the decisions of one window, on either backend.
use quansec_pqc_platform.Prelude.{
  ℕ, zero, suc, ◌+◌, ◌≤◌, ◌<◌, ◌≡◌, refl, true, false, Option, none, some, List, [], ◌∷◌, Text,
  eq_text, eq_text_refl, eq_text_iff, length, arith, ltb, Bool-cases, inl, inr, ap, ap₂, ◌⊎◌, ◌∙◌,
}
use quansec_pqc_platform.RateLimit.{Redis, Entry, get, lock_key, counter_key, check_redis}
use quansec_pqc_platform.RateLimit.Budget.{budget, InWindow, decisions_redis}

key_apart : (key : Text) → eq_text (lock_key key) (counter_key key) ≡ false
key_apart key = elim (Bool-cases (eq_text (lock_key key) (counter_key key))) [
  | inr e ↦ e
  | inl e ↦
      let same = ap length ((eq_text_iff (lock_key key) (counter_key key)).0 e) in
      absurd (omega (arith, same))
]

key_apart_sym : (key : Text) → eq_text (counter_key key) (lock_key key) ≡ false
key_apart_sym key = elim (Bool-cases (eq_text (counter_key key) (lock_key key))) [
  | inr e ↦ e
  | inl e ↦
      let same = ap length ((eq_text_iff (counter_key key) (lock_key key)).0 e) in
      absurd (omega (arith, same))
]

module _ (key : Text) (limit window lockout start : ℕ) where
  abbrev counter : ℕ → Option Entry
  counter n = some (record { value = n; expires = some (start + window) })

  -- The counter stands past the limit: whatever the lock says, the attempt is refused.
  spent_step :
      (n t : ℕ) (r : Redis)
      → r (counter_key key) ≡ counter n
      → limit ≤ n
      → t < start + window
      → ((check_redis r t key limit window lockout).0.allowed ≡ false)
        × (((check_redis r t key limit window lockout).1 (counter_key key) ≡ counter n)
            ⊎ ((check_redis r t key limit window lockout).1 (counter_key key) ≡ counter (suc n)))
  unfolding check_redis
  spent_step n t r c spent h =
      (ground arith, ground (arith, key_apart_sym key, eq_text_refl (counter_key key)))

  spent_redis :
      (n : ℕ) (r : Redis) (ts : List ℕ)
      → r (counter_key key) ≡ counter n
      → limit ≤ n
      → InWindow start window ts
      → decisions_redis key limit window lockout r ts ≡ budget 0 ts
  unfolding decisions_redis budget
  spent_redis n r [] c spent h = refl
  spent_redis n r (t ∷ ts) c spent h =
      let (no_more, counters) = spent_step n t r c spent (omega arith) in
      let r' = (check_redis r t key limit window lockout).1 in
      elim counters [
        | inl c' ↦ ap₂ ◌∷◌ no_more (spent_redis n r' ts c' spent h.1)
        | inr c' ↦ ap₂ ◌∷◌ no_more (spent_redis (suc n) r' ts c' (omega arith) h.1)
      ]

  -- While the counter is under the limit and the bucket is not locked, attempts are allowed.
  open_step :
      (n t : ℕ) (r : Redis)
      → r (counter_key key) ≡ counter n
      → get r t (lock_key key) ≡ none
      → n < limit
      → t < start + window
      → ((check_redis r t key limit window lockout).0.allowed ≡ true)
        × ((check_redis r t key limit window lockout).1 (counter_key key) ≡ counter (suc n))
        × ((check_redis r t key limit window lockout).1 (lock_key key) ≡ r (lock_key key))
  unfolding check_redis
  open_step n t r c free room h =
      (ground arith, ground (arith, eq_text_refl (counter_key key)), ground (arith, key_apart key))

  -- A key that has expired stays so.
  get-none : (k : Text) (t : ℕ) (r : Redis) → get r start k ≡ none → start ≤ t → get r t k ≡ none
  unfolding get
  get-none k t r free h = ground arith

  same_entry : (k : Text) (t : ℕ) (r r' : Redis) → r' k ≡ r k → get r' t k ≡ get r t k
  unfolding get
  same_entry k t r r' e = rw e

  open_redis :
      (n left : ℕ) (r : Redis) (ts : List ℕ)
      → r (counter_key key) ≡ counter n
      → get r start (lock_key key) ≡ none
      → n + left ≡ limit
      → InWindow start window ts
      → decisions_redis key limit window lockout r ts ≡ budget left ts
  unfolding decisions_redis budget
  open_redis n left r [] c free room h = refl
  open_redis n zero r (t ∷ ts) c free room h =
      let e : decisions_redis key limit window lockout r (t ∷ ts) ≡ budget 0 (t ∷ ts) =
        spent_redis n r (t ∷ ts) c (omega arith) h in
      e
  open_redis n (suc left) r (t ∷ ts) c free room h =
      let r' = (check_redis r t key limit window lockout).1 in
      let (go, c', lock) =
        open_step n t r c (get-none (lock_key key) t r free h.0.0) (omega arith) h.0.1 in
      ap₂ ◌∷◌ go (
        open_redis (suc n) left r' ts c' (same_entry (lock_key key) start r r' lock ∙ free)
          (omega arith) h.1)

  first_step :
      (r : Redis)
      → get r start (counter_key key) ≡ none
      → get r start (lock_key key) ≡ none
      → ((check_redis r start key limit window lockout).0.allowed ≡ ltb 0 limit)
        × ((check_redis r start key limit window lockout).1 (counter_key key) ≡ counter 1)
        × (0 < limit
            → (check_redis r start key limit window lockout).1 (lock_key key) ≡ r (lock_key key))
  unfolding check_redis
  first_step r fresh free = (
    ground arith,
    ground (arith, eq_text_refl (counter_key key), key_apart_sym key),
    λ room. ground (arith, key_apart key),
  )

  window_redis_first :
      (n : ℕ) (r : Redis) (ts : List ℕ)
      → n ≡ limit
      → get r start (counter_key key) ≡ none
      → get r start (lock_key key) ≡ none
      → InWindow start window ts
      → decisions_redis key limit window lockout r (start ∷ ts) ≡ budget n (start ∷ ts)
  unfolding decisions_redis budget
  window_redis_first zero r ts e fresh free h =
      let r' = (check_redis r start key limit window lockout).1 in
      let (go, c, _) = first_step r fresh free in
      ap₂ ◌∷◌ (ground (arith, go)) (spent_redis 1 r' ts c (omega arith) h)
  window_redis_first (suc n) r ts e fresh free h =
      let r' = (check_redis r start key limit window lockout).1 in
      let (go, c, lock) = first_step r fresh free in
      ap₂ ◌∷◌ (ground (arith, go)) (
        open_redis 1 n r' ts c (same_entry (lock_key key) start r r' (lock (omega arith)) ∙ free)
          (omega arith) h)

  -- Redis, from a bucket with no counter and no lock: of the attempts made before the window that the
  -- first one opens has passed, exactly the first `limit` are allowed, with a lockout or without.
  pub window_redis :
      (r : Redis) (ts : List ℕ)
      → get r start (counter_key key) ≡ none
      → get r start (lock_key key) ≡ none
      → InWindow start window ts
      → decisions_redis key limit window lockout r (start ∷ ts) ≡ budget limit (start ∷ ts)
  window_redis r ts fresh free h = window_redis_first limit r ts refl fresh free h
