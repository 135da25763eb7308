-- ===== src/AuthRouter/Refresh/Guards.antt =====
-- quansec/protocols/auth_router.py with quansec/core/csrf.py: what `refresh` and `logout` ask of a
-- request that relies on the cookie.
use quansec_pqc_platform.Prelude.{
  ℕ, ◌≡◌, ◌≢◌, refl, ◌∙◌, Bool, true, false, ◌&&◌, Option, none, some, [], ◌∷◌, Text, eq_text,
  if◌then◌else◌, arith, Bool-cases, inl, inr,
}
use quansec_pqc_platform.RateLimit.{RateLimitResult, refresh_limit}
use quansec_pqc_platform.Http.{Db, Request, Response, ok, status_of, Handler, ◌>>=◌}
use quansec_pqc_platform.Csrf.{
  or_empty, is_ascii, verify_csrf, is_cookie_authenticated, Verified, passed, forbidden, failed,
  CookieSettings,
}
use quansec_pqc_platform.AuthRouter.Session.{Env, Chance}
use quansec_pqc_platform.AuthRouter.Login.Ends.{SameCredentials}
use quansec_pqc_platform.AuthRouter.Refresh.{
  refresh, logout, check_csrf, after_csrf, refuse_refresh,
}

-- The header repeats the cookie.
abbrev pub csrf_matches : Option Text → Option Text → Bool
csrf_matches none header = false
csrf_matches (some []) header = false
csrf_matches (some (c ∷ t)) none = false
csrf_matches (some (c ∷ t)) (some header) = eq_text (c ∷ t) header

-- A request that either brings its token in the body, or matches in ASCII.
abbrev pub admitted : Request → Option Text → Bool
admitted r body_token =
    if is_cookie_authenticated r body_token
    then csrf_matches r.csrf_cookie r.csrf_header
      && (is_ascii (or_empty r.csrf_cookie) && is_ascii (or_empty r.csrf_header))
    else true

verify_csrf-mismatch :
    (s : CookieSettings) (r : Request)
    → csrf_matches r.csrf_cookie r.csrf_header ≡ false
    → verify_csrf s r ≢ passed
unfolding verify_csrf eq_text
verify_csrf-mismatch s r e p = ground (arith, e, p)

verify_csrf-match :
    (s : CookieSettings) (r : Request)
    → (csrf_matches r.csrf_cookie r.csrf_header
        && (is_ascii (or_empty r.csrf_cookie) && is_ascii (or_empty r.csrf_header)))
      ≡ true
    → verify_csrf s r ≡ passed
unfolding verify_csrf eq_text
verify_csrf-match s r e = ground (arith, e)

-- What a handler that stopped left: an error, and every session and key.
pub record Stopped {A : Type 0} (db : Db) (done : Response A × Db) : Type 0 where
  pub refused : status_of done.0 ≢ 200
  pub kept : SameCredentials db done.1

module _ {A : Type 0} (f : Unit {0} → Handler A) (r : Request) where
  after_csrf-Stopped :
      (v : Verified) (db : Db) → v ≢ passed → Stopped db ((after_csrf r v >>= f) db)
  unfolding after_csrf
  after_csrf-Stopped passed db n = absurd (n refl)
  after_csrf-Stopped (forbidden detail) db n = record {
    refused = λ e. absurd (omega (arith, e));
    kept = record { same_tokens = refl; same_keys = refl };
  }
  after_csrf-Stopped failed db n = record {
    refused = λ e. absurd (omega (arith, e));
    kept = record { same_tokens = refl; same_keys = refl };
  }

module _ (env : Env) where
  check_csrf-Stopped :
      {A : Type 0} (f : Unit {0} → Handler A) (r : Request) (from_cookie : Bool) (db : Db)
      → from_cookie ≡ true
      → csrf_matches r.csrf_cookie r.csrf_header ≡ false
      → Stopped db ((check_csrf env r from_cookie >>= f) db)
  unfolding check_csrf
  check_csrf-Stopped f r true db e mismatch =
      after_csrf-Stopped f r (verify_csrf env.cookies r) db
        (verify_csrf-mismatch env.cookies r mismatch)
  check_csrf-Stopped f r false db e mismatch = cc

  -- A limit that is passed stops the handler before anything else does.
  refuse_refresh-Stopped :
      {A : Type 0} (f : Unit {0} → Handler A) (r : Request) (limit : RateLimitResult) (db db₁ : Db)
      → SameCredentials db db₁
      → Stopped db₁ (f tt db₁)
      → Stopped db ((refuse_refresh env limit >>= f) db₁)
  refuse_refresh-Stopped f r limit db db₁ same rest = elim (Bool-cases limit.allowed) [
    | inl open_ ↦ rw open_ (record {
      refused = rest.refused;
      kept = record {
        same_tokens = rest.kept.same_tokens ∙ same.same_tokens;
        same_keys = rest.kept.same_keys ∙ same.same_keys;
      };
    })
    | inr over ↦ rw over (record { refused = λ e. absurd (omega (arith, e)); kept = same })
  ]

  pub check_csrf-go :
      (r : Request) (body_token : Option Text) (db : Db)
      → admitted r body_token ≡ true
      → check_csrf env r (is_cookie_authenticated r body_token) db ≡ (ok tt, db)
  unfolding check_csrf after_csrf
  check_csrf-go r body_token db e = elim (Bool-cases (is_cookie_authenticated r body_token)) [
    | inl cookie ↦
        rw (cookie, check_csrf)
          (rw (verify_csrf-match env.cookies r (ground (arith, e, cookie))) refl)
    | inr body ↦ rw (body, check_csrf) refl
  ]

  -- A request that relies on the refresh cookie, and whose header does not repeat the CSRF cookie, is
  -- refused by `refresh` and by `logout`, and leaves every session and API key as it was.
  pub csrf_refused :
      (r : Request) (body_token : Option Text) (ch : Chance) (now : ℕ) (db : Db)
      → is_cookie_authenticated r body_token ≡ true
      → csrf_matches r.csrf_cookie r.csrf_header ≡ false
      → Stopped db (refresh env r body_token ch db) × Stopped db (logout env r body_token now db)
  unfolding refresh logout
  csrf_refused r body_token ch now db e mismatch = (
    refuse_refresh-Stopped _ r
        (refresh_limit env.sha256 env.limits ch.limit_outage db.limiter ch.now r.ip).0 db _
        (record { same_tokens = refl; same_keys = refl })
        (check_csrf-Stopped _ r (is_cookie_authenticated r body_token) _ e mismatch),
    check_csrf-Stopped _ r (is_cookie_authenticated r body_token) db e mismatch,
  )
