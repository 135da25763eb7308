-- ===== src/RateLimit/Durable.antt =====
-- quansec/core/ratelimit.py, `_check_postgres`: the decisions of one window, and the same ones as Redis.
use quansec_pqc_platform.Prelude.{
  ℕ, zero, suc, ◌+◌, ◌≤◌, ◌<◌, ◌≡◌, refl, true, false, Option, none, some, List, [], ◌∷◌, Text,
  eq_text_refl, arith, ltb, ap₂,
}
use quansec_pqc_platform.RateLimit.{Throttle, Bucket, check_postgres}
use quansec_pqc_platform.RateLimit.Budget.{budget, InWindow, decisions_postgres}

abbrev first_of : Option Bucket → Option ℕ
first_of none = none
first_of (some b) = some b.first_at

abbrev attempts_of : Option Bucket → Option ℕ
attempts_of none = none
attempts_of (some b) = some b.attempts

abbrev blocked_of : Option Bucket → Option ℕ
blocked_of none = none
blocked_of (some b) = b.blocked_until

module _ (key : Text) (limit window lockout start : ℕ) where
  spent_step :
      (n t : ℕ) (m : Throttle)
      → first_of (m key) ≡ some start
      → attempts_of (m key) ≡ some n
      → limit ≤ n
      → t < start + window
      → ((check_postgres m t key limit window lockout).0.allowed ≡ false)
        × (first_of ((check_postgres m t key limit window lockout).1 key) ≡ some start)
        × (attempts_of ((check_postgres m t key limit window lockout).1 key) ≡ some (suc n))
  unfolding check_postgres
  spent_step n t m f a spent h =
      (ground arith, ground (arith, eq_text_refl key), ground (arith, eq_text_refl key))

  spent_postgres :
      (n : ℕ) (m : Throttle) (ts : List ℕ)
      → first_of (m key) ≡ some start
      → attempts_of (m key) ≡ some n
      → limit ≤ n
      → InWindow start window ts
      → decisions_postgres key limit window lockout m ts ≡ budget 0 ts
  unfolding decisions_postgres budget
  spent_postgres n m [] f a spent h = refl
  spent_postgres n m (t ∷ ts) f a spent h =
      let (no_more, f', a') = spent_step n t m f a spent h.0.1 in
      ap₂ ◌∷◌ no_more (
        spent_postgres (suc n) (check_postgres m t key limit window lockout).1 ts f' a'
          (omega arith) h.1)

  open_step :
      (n t : ℕ) (m : Throttle)
      → first_of (m key) ≡ some start
      → attempts_of (m key) ≡ some n
      → blocked_of (m key) ≡ none
      → n < limit
      → t < start + window
      → ((check_postgres m t key limit window lockout).0.allowed ≡ true)
        × (first_of ((check_postgres m t key limit window lockout).1 key) ≡ some start)
        × (attempts_of ((check_postgres m t key limit window lockout).1 key) ≡ some (suc n))
        × (blocked_of ((check_postgres m t key limit window lockout).1 key) ≡ none)
  unfolding check_postgres
  open_step n t m f a b room h = (
    ground arith,
    ground (arith, eq_text_refl key),
    ground (arith, eq_text_refl key),
    ground (arith, eq_text_refl key),
  )

  open_postgres :
      (n left : ℕ) (m : Throttle) (ts : List ℕ)
      → first_of (m key) ≡ some start
      → attempts_of (m key) ≡ some n
      → blocked_of (m key) ≡ none
      → n + left ≡ limit
      → InWindow start window ts
      → decisions_postgres key limit window lockout m ts ≡ budget left ts
  unfolding decisions_postgres budget
  open_postgres n left m [] f a b room h = refl
  open_postgres n zero m (t ∷ ts) f a b room h =
      let e : decisions_postgres key limit window lockout m (t ∷ ts) ≡ budget 0 (t ∷ ts) =
        spent_postgres n m (t ∷ ts) f a (omega arith) h in
      e
  open_postgres n (suc left) m (t ∷ ts) f a b room h =
      let (go, f', a', b') = open_step n t m f a b (omega arith) h.0.1 in
      ap₂ ◌∷◌ go (
        open_postgres (suc n) left (check_postgres m t key limit window lockout).1 ts f' a' b'
          (omega arith) h.1)

  first_step :
      (m : Throttle)
      → m key ≡ none
      → ((check_postgres m start key limit window lockout).0.allowed ≡ ltb 0 limit)
        × (first_of ((check_postgres m start key limit window lockout).1 key) ≡ some start)
        × (attempts_of ((check_postgres m start key limit window lockout).1 key) ≡ some 1)
        × (0 < limit → blocked_of ((check_postgres m start key limit window lockout).1 key) ≡ none)
  unfolding check_postgres
  first_step m fresh = (
    ground arith,
    ground (arith, eq_text_refl key),
    ground (arith, eq_text_refl key),
    λ room. ground (arith, eq_text_refl key),
  )

  window_postgres_first :
      (n : ℕ) (m : Throttle) (ts : List ℕ)
      → n ≡ limit
      → m key ≡ none
      → InWindow start window ts
      → decisions_postgres key limit window lockout m (start ∷ ts) ≡ budget n (start ∷ ts)
  unfolding decisions_postgres budget
  window_postgres_first zero m ts e fresh h =
      let (go, f, a, _) = first_step m fresh in
      ap₂ ◌∷◌ (ground (arith, go)) (
        spent_postgres 1 (check_postgres m start key limit window lockout).1 ts f a (omega arith) h)
  window_postgres_first (suc n) m ts e fresh h =
      let (go, f, a, b) = first_step m fresh in
      ap₂ ◌∷◌ (ground (arith, go)) (
        open_postgres 1 n (check_postgres m start key limit window lockout).1 ts f a
          (b (omega arith)) (omega arith) h)

  -- PostgreSQL, from a bucket with no row: of the attempts made before the window that the first one
  -- opens has passed, exactly the first `limit` are allowed, with a lockout or without.
  pub window_postgres :
      (m : Throttle) (ts : List ℕ)
      → m key ≡ none
      → InWindow start window ts
      → decisions_postgres key limit window lockout m (start ∷ ts) ≡ budget limit (start ∷ ts)
  window_postgres m ts fresh h = window_postgres_first limit m ts refl fresh h
