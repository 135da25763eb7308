-- ===== src/RateLimit.antt =====
-- quansec/core/ratelimit.py: fixed-window throttling. Redis is a map from keys to entries that expire; the
-- table `auth_throttle` is a map from bucket keys to rows. Time is in seconds, an argument of each call.
-- A backend that raises leaves a state of its own choosing, which the argument `Outage` gives.
pub mod Budget
pub mod Window
pub mod Durable
pub mod Reset
mod Tests
use quansec_pqc_platform.Prelude.{
  ℕ, suc, ◌+◌, ◌-◌, Bool, true, false, Option, none, some, List, [], ◌∷◌, ◌++◌, Text, codes,
  eq_text, strip, lower, take, ltb, leb, ◌==◌, if◌then◌else◌,
}

pub data Backend : Type 0 where
  redis postgres no_backend : Backend

pub record RateLimitResult : Type 0 where
  pub allowed : Bool
  pub remaining : ℕ
  pub retry_after : ℕ
  pub backend : Backend

abbrev pub refuse : ℕ → Backend → RateLimitResult
refuse after b = record { allowed = false; remaining = 0; retry_after = after; backend = b }

-- max(0, limit - count): the subtraction stops at 0 by itself.
abbrev pub allow : ℕ → ℕ → Backend → RateLimitResult
allow limit count b = record {
  allowed = true;
  remaining = limit - count;
  retry_after = 0;
  backend = b;
}

-- part or "-"
abbrev pub or_dash : Option Text → Text
or_dash none = codes "-"
or_dash (some []) = codes "-"
or_dash (some (c ∷ s)) = c ∷ s

-- A Redis value with the time at which it expires.
pub record Entry : Type 0 where
  pub value : ℕ
  pub expires : Option ℕ

abbrev pub Redis : Type 0
Redis = Text → Option Entry

abbrev pub store {ℓ} : {A : Type ℓ} → (Text → Option A) → Text → Option A → Text → Option A
store m k v j = if eq_text j k then v else m j

-- An entry that has expired is no longer there.
abbrev live_entry : ℕ → Option Entry → Option Entry
live_entry now none = none
live_entry now (some e) = elim e.expires [
  | none ↦ some e
  | some t ↦ if ltb now t then some e else none
]

unfoldable pub get : Redis → ℕ → Text → Option Entry
get r now k = live_entry now (r k)

-- TTL as the program reads it: `none` is a negative reply.
abbrev time_left : ℕ → Option Entry → Option ℕ
time_left now none = none
time_left now (some e) = elim e.expires [ none ↦ none | some t ↦ some (t - now) ]

abbrev counted : Option Entry → Entry
counted none = record { value = 1; expires = none }
counted (some e) = record e { value = suc e.value }

-- INCR
abbrev pub incr : Redis → ℕ → Text → Entry
incr r now k = counted (get r now k)

-- `if ttl is None or ttl < 0: expire(...)`
abbrev pub with_window : ℕ → ℕ → Entry → Entry
with_window now window e = elim e.expires [
  | none ↦ record e { expires = some (now + window) }
  | some t ↦ e
]

abbrev pub left : ℕ → Option ℕ → ℕ
left now none = 0
left now (some t) = t - now

abbrev pub prefix : Text
prefix = codes "quansec:auth:throttle:"

abbrev pub lock_key : Text → Text
lock_key key = prefix ++ (codes "lock:" ++ key)

abbrev pub counter_key : Text → Text
counter_key key = prefix ++ key

-- The part after the lock was found free.
unfoldable pub count_redis : Redis → ℕ → Text → ℕ → ℕ → ℕ → RateLimitResult × Redis
unfolding get
count_redis r now key limit window lockout =
    let e = with_window now window (incr r now (counter_key key)) in
    let r' = store r (counter_key key) (some e) in
    if ltb limit e.value
    then (if ltb 0 lockout
        then (
          refuse lockout redis,
          store r' (lock_key key) (some (record { value = 1; expires = some (now + lockout) })),
        )
        else (refuse (left now e.expires) redis, r'))
    else (allow limit e.value redis, r')

unfoldable pub check_redis : Redis → ℕ → Text → ℕ → ℕ → ℕ → RateLimitResult × Redis
unfolding count_redis
check_redis r now key limit window lockout = elim (time_left now (get r now (lock_key key))) [
  | none ↦ count_redis r now key limit window lockout
  | some wait ↦
      if ltb 0 wait then (refuse wait redis, r) else count_redis r now key limit window lockout
]

pub record Bucket : Type 0 where
  pub attempts : ℕ
  pub first_at : ℕ
  pub last_at : ℕ
  pub blocked_until : Option ℕ

abbrev pub Throttle : Type 0
Throttle = Text → Option Bucket

-- The upsert: a window that has aged starts again.
abbrev pub upsert : ℕ → ℕ → Option Bucket → Bucket
upsert now window none = record {
  attempts = 1;
  first_at = now;
  last_at = now;
  blocked_until = none;
}
upsert now window (some b) =
    if ltb (b.first_at + window) now
    then record b { attempts = 1; first_at = now; last_at = now }
    else record b { attempts = suc b.attempts; last_at = now }

unfoldable pub check_postgres : Throttle → ℕ → Text → ℕ → ℕ → ℕ → RateLimitResult × Throttle
check_postgres m now key limit window lockout =
    let b = upsert now window (m key) in
    let m' = store m key (some b) in
    if ltb 0 (left now b.blocked_until)
    then (refuse (left now b.blocked_until) postgres, m')
    else if ltb limit b.attempts
    then (if ltb 0 lockout
        then (
          refuse lockout postgres,
          store m' key (some (record b { blocked_until = some (now + lockout) })),
        )
        else (refuse window postgres, m'))
    else (allow limit b.attempts postgres, m')

pub record Limiter : Type 0 where
  pub redis_store : Redis
  pub throttle : Throttle

-- What fails during a call: no Redis, a Redis or PostgreSQL command that raises and the state that it
-- leaves, no connection.
pub record Outage : Type 0 where
  pub no_redis : Bool
  pub redis_raises : Option Redis
  pub no_conn : Bool
  pub postgres_raises : Option Throttle

abbrev pub healthy : Outage
healthy = record { no_redis = false; redis_raises = none; no_conn = false; postgres_raises = none }

unfoldable pub try_postgres : Outage → Limiter → ℕ → Text → ℕ → ℕ → ℕ → RateLimitResult × Limiter
unfolding check_postgres
try_postgres o s now key limit window lockout =
    if o.no_conn then (allow limit 0 no_backend, s) else elim o.postgres_raises [
      | some m ↦ (allow limit 0 no_backend, record s { throttle = m })
      | none ↦
          let (result, m) = check_postgres s.throttle now key limit window lockout in
          (result, record s { throttle = m })
    ]

module _ (sha256 : Text → Text) where
  -- hashlib.sha256(scope|identifier).hexdigest()[:32]
  unfoldable pub bucket_key : Text → Text → Text
  bucket_key scope identifier =
      take 32 (sha256 (or_dash (some scope) ++ (codes "|" ++ or_dash (some identifier))))

  unfoldable pub check : Outage → Limiter → ℕ → Text → Text → ℕ → ℕ → ℕ → RateLimitResult × Limiter
  unfolding try_postgres check_redis
  check o s now scope identifier limit window lockout =
      let key = bucket_key scope identifier in
      if o.no_redis then try_postgres o s now key limit window lockout else elim o.redis_raises [
        | some r ↦ try_postgres o (record s { redis_store = r }) now key limit window lockout
        | none ↦
            let (result, r) = check_redis s.redis_store now key limit window lockout in
            (result, record s { redis_store = r })
      ]

  -- A store that cannot be reached, or that raises, is passed over.
  unfoldable pub reset : Outage → Limiter → Text → Text → Limiter
  reset o s scope identifier = record {
    redis_store = if o.no_redis then s.redis_store else elim o.redis_raises [
      | some r ↦ r
      | none ↦
          let key = bucket_key scope identifier in
          store (store s.redis_store (counter_key key) none) (lock_key key) none
    ];
    throttle = if o.no_conn then s.throttle else elim o.postgres_raises [
      | some m ↦ m
      | none ↦ store s.throttle (bucket_key scope identifier) none
    ];
  }

-- The `settings` that the two limits read.
pub record Limits : Type 0 where
  pub login_rate_limit : ℕ
  pub login_rate_window_seconds : ℕ
  pub login_lockout_seconds : ℕ
  pub refresh_rate_limit : ℕ
  pub refresh_rate_window_seconds : ℕ

-- f"{ip or '-'}:{(email or '').strip().lower()}"
abbrev pub login_identifier : Option Text → Text → Text
login_identifier ip email = or_dash ip ++ (codes ":" ++ lower (strip email))

module _ (sha256 : Text → Text) (l : Limits) where
  unfoldable pub login_limit : Outage → Limiter → ℕ → Option Text → Text → RateLimitResult × Limiter
  login_limit o s now ip email =
      check sha256 o s now (codes "login") (login_identifier ip email) l.login_rate_limit
        l.login_rate_window_seconds l.login_lockout_seconds

  unfoldable pub refresh_limit : Outage → Limiter → ℕ → Option Text → RateLimitResult × Limiter
  refresh_limit o s now ip =
      check sha256 o s now (codes "refresh") (or_dash ip) l.refresh_rate_limit
        l.refresh_rate_window_seconds 0
