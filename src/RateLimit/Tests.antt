-- ===== src/RateLimit/Tests.antt =====
-- A bucket of two attempts in a window of ten seconds, with a lockout.
use quansec_pqc_platform.Prelude.{
  ℕ, ◌≡◌, refl, true, false, none, List, [], ◌∷◌, Text, eq_text, codes, arith,
}
use quansec_pqc_platform.RateLimit.{
  Limiter, Redis, Throttle, get, bucket_key, check_redis, healthy, reset,
}
use quansec_pqc_platform.RateLimit.Budget.{budget, decisions_redis}
use quansec_pqc_platform.RateLimit.Window.{window_redis}

abbrev no_entries : Redis
no_entries k = none

abbrev no_rows : Throttle
no_rows k = none

abbrev times : List ℕ
times = 101 ∷ 102 ∷ 109 ∷ []

window_redis_example :
    decisions_redis (codes "k") 2 10 900 no_entries (100 ∷ times) ≡ true ∷ true ∷ false ∷ false ∷ []
unfolding get budget
window_redis_example =
    window_redis (codes "k") 2 10 900 100 no_entries times refl refl (omega arith)

window_redis_run :
    decisions_redis (codes "k") 2 10 900 no_entries (100 ∷ times) ≡ true ∷ true ∷ false ∷ false ∷ []
unfolding decisions_redis check_redis eq_text
window_redis_run = refl

abbrev plain : Text → Text
plain t = t

abbrev quiet : Limiter
quiet = record { redis_store = no_entries; throttle = no_rows }

abbrev cleared : Limiter
cleared = reset plain healthy quiet (codes "login") (codes "-:a")

abbrev bucket : Text
bucket = bucket_key plain (codes "login") (codes "-:a")
