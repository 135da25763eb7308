-- ===== src/RateLimit/Budget.antt =====
-- quansec/core/ratelimit.py: consecutive attempts on one bucket, and the decisions that a window promises.
use quansec_pqc_platform.Prelude.{
  ℕ, zero, suc, ◌+◌, ◌≤◌, ◌<◌, Bool, true, false, List, [], ◌∷◌, Text, All,
}
use quansec_pqc_platform.RateLimit.{Redis, Throttle, check_redis, check_postgres}

-- The first `n` attempts are allowed and no other.
unfoldable pub budget : ℕ → List ℕ → List Bool
budget n [] = []
budget zero (t ∷ ts) = false ∷ budget zero ts
budget (suc n) (t ∷ ts) = true ∷ budget n ts

abbrev pub InWindow : ℕ → ℕ → List ℕ → Type 0
InWindow start window = All (λ t. (start ≤ t) × (t < start + window))

module _ (key : Text) (limit window lockout : ℕ) where
  -- The decisions on consecutive attempts.
  unfoldable pub decisions_redis : Redis → List ℕ → List Bool
  decisions_redis r [] = []
  decisions_redis r (t ∷ ts) =
      let (result, r') = check_redis r t key limit window lockout in
      result.allowed ∷ decisions_redis r' ts

  unfoldable pub decisions_postgres : Throttle → List ℕ → List Bool
  decisions_postgres m [] = []
  decisions_postgres m (t ∷ ts) =
      let (result, m') = check_postgres m t key limit window lockout in
      result.allowed ∷ decisions_postgres m' ts
