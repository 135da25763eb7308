-- ===== src/RateLimit/Reset.antt =====
-- quansec/core/ratelimit.py, `reset`: the bucket of a successful login starts again on both backends.
use quansec_pqc_platform.Prelude.{
  ℕ, ◌≡◌, false, none, List, ◌∷◌, Text, eq_text, eq_text_refl, arith,
}
use quansec_pqc_platform.RateLimit.{Limiter, get, lock_key, counter_key, bucket_key, healthy, reset}
use quansec_pqc_platform.RateLimit.Budget.{budget, InWindow, decisions_redis, decisions_postgres}
use quansec_pqc_platform.RateLimit.Window.{window_redis}
use quansec_pqc_platform.RateLimit.Durable.{window_postgres}

module _ (sha256 : Text → Text) (s : Limiter) (scope identifier : Text) where
  counter_gone :
      (t : ℕ)
      → get
          (reset sha256 healthy s scope identifier).redis_store
          t
          (counter_key (bucket_key sha256 scope identifier))
        ≡ none
  unfolding get reset
  counter_gone t =
      let key = bucket_key sha256 scope identifier in ground (arith, eq_text_refl (counter_key key))

  lock_gone :
      (t : ℕ)
      → get
          (reset sha256 healthy s scope identifier).redis_store
          t
          (lock_key (bucket_key sha256 scope identifier))
        ≡ none
  unfolding get reset
  lock_gone t =
      let key = bucket_key sha256 scope identifier in ground (arith, eq_text_refl (lock_key key))

  row_gone :
      (reset sha256 healthy s scope identifier).throttle (bucket_key sha256 scope identifier) ≡ none
  unfolding reset
  row_gone = let key = bucket_key sha256 scope identifier in ground (arith, eq_text_refl key)

  -- After a reset that both stores took, the bucket has its whole budget again on either of them, from
  -- any later moment; the Redis entries and the rows of other keys are what they were.
  pub reset_restores_budget :
      (limit window lockout start : ℕ) (ts : List ℕ)
      → InWindow start window ts
      → let key = bucket_key sha256 scope identifier in
        let s' = reset sha256 healthy s scope identifier in
        (decisions_redis key limit window lockout s'.redis_store (start ∷ ts)
          ≡ budget limit (start ∷ ts))
        × (decisions_postgres key limit window lockout s'.throttle (start ∷ ts)
            ≡ budget limit (start ∷ ts))
        × ((j : Text)
            → eq_text j (counter_key key) ≡ false
            → eq_text j (lock_key key) ≡ false
            → s'.redis_store j ≡ s.redis_store j)
        × ((j : Text) → eq_text j key ≡ false → s'.throttle j ≡ s.throttle j)
  unfolding reset
  reset_restores_budget limit window lockout start ts h =
      let key = bucket_key sha256 scope identifier in
      let s' = reset sha256 healthy s scope identifier in
      (
        window_redis key limit window lockout start s'.redis_store ts (counter_gone start)
            (lock_gone start) h,
        window_postgres key limit window lockout start s'.throttle ts row_gone h,
        λ j a b. ground (arith, a, b),
        λ j a. ground (arith, a),
      )
