-- ===== src/AuthRouter/Login.antt =====
-- quansec/protocols/auth_router.py: `login` and `login_scoped`.
pub mod Granted
pub mod Ends
pub mod Refused
use quansec_pqc_platform.Prelude.{
  ℕ, Bool, true, false, ◌||◌, Option, none, some, Text, codes, eq_text, strip, lower, if◌then◌else◌,
}
use quansec_pqc_platform.Json.{Fields, str, field, end, nat}
use quansec_pqc_platform.Audit.{login_failure, login_throttled}
use quansec_pqc_platform.Tokens.Rows.{User}
use quansec_pqc_platform.RateLimit.{
  Backend, redis, postgres, no_backend, RateLimitResult, login_limit, login_identifier, reset,
}
use quansec_pqc_platform.Http.{Db, Request, ok, Handler, pure, raise, continue, ◌>>=◌, ◌>>◌, audit}
use quansec_pqc_platform.Auth.{authenticate_user}
use quansec_pqc_platform.AuthRouter.Session.{
  Env, Chance, TokenResponse, Reply, generic_auth_error, portal_or_main, on_limiter, issue_session,
}

abbrev pub backend_name : Backend → Text
backend_name redis = codes "redis"
backend_name postgres = codes "postgres"
backend_name no_backend = codes "none"

unfoldable pub refuse_throttled : RateLimitResult → Fields → Handler (Unit {0})
refuse_throttled limit detail = if limit.allowed then pure tt else do
  audit login_throttled none detail none
  raise 429 (codes "Too many login attempts. Try again later.")

module _ (env : Env) where
  -- authenticate_user, and the answer to a failure
  unfoldable pub credentials : Chance → Text → Text → Fields → Handler User
  credentials ch email password detail db =
      let (o, db') = authenticate_user env.passwords ch.rehash_fails ch.salt db email password in
      elim o [
        | some u ↦ pure u db'
        | none ↦ (do audit login_failure none detail none; raise 401 generic_auth_error) db'
      ]

  abbrev pub limit_login : Chance → Request → Text → Handler RateLimitResult
  limit_login ch r email =
      on_limiter (λ s. login_limit env.sha256 env.limits ch.limit_outage s ch.now r.ip email)

  abbrev pub reset_login : Chance → Request → Text → Handler (Unit {0})
  reset_login ch r email db = (
    ok tt,
    record db {
      limiter =
          reset env.sha256 ch.reset_outage db.limiter (codes "login") (login_identifier r.ip email);
    },
  )

  abbrev pub login_throttled_detail : Text → RateLimitResult → Fields
  login_throttled_detail email limit = field (codes "email") (str email) (
      field (codes "retry_after") (nat limit.retry_after)
        (field (codes "backend") (str (backend_name limit.backend)) end))

  abbrev pub login_failure_detail : Text → Fields
  login_failure_detail email =
      field (codes "email") (str email)
        (field (codes "reason") (str (codes "invalid_credentials")) end)

  unfoldable pub login : Request → Text → Text → Bool → Chance → Handler (Reply TokenResponse)
  login r email password use_cookie ch = do
    limit ← limit_login ch r email
    refuse_throttled limit (login_throttled_detail email limit)
    user ← credentials ch email password (login_failure_detail email)
    reset_login ch r email
    issue_session env r user use_cookie ch

  abbrev pub user_portal : User → Text
  user_portal u = lower (strip (portal_or_main u.portal))

  abbrev pub may_enter : Text → User → Bool
  may_enter portal u =
      eq_text u.role (codes "admin")
      || eq_text (user_portal u) (codes "main")
      || eq_text (user_portal u) (lower (strip portal))

  abbrev pub scoped_throttled_detail : Text → Text → RateLimitResult → Fields
  scoped_throttled_detail email portal limit = field (codes "email") (str email) (
      field (codes "portal") (str portal) (field (codes "retry_after") (nat limit.retry_after) end))

  abbrev pub scoped_failure_detail : Text → Text → Fields
  scoped_failure_detail email portal = field (codes "email") (str email) (
      field (codes "portal") (str portal)
        (field (codes "reason") (str (codes "invalid_credentials")) end))

  abbrev mismatch_detail : User → Text → Fields
  mismatch_detail u portal = field (codes "email") (str u.email) (
      field (codes "requested_portal") (str portal) (
        field (codes "user_portal") (str (user_portal u))
          (field (codes "reason") (str (codes "portal_mismatch")) end)))

  -- A wrong portal is answered as wrong credentials are.
  unfoldable pub check_portal : Text → User → Handler (Unit {0})
  check_portal portal u = if may_enter portal u then pure tt else do
    audit login_failure (some u.id) (mismatch_detail u portal) none
    raise 401 generic_auth_error

  unfoldable pub login_scoped :
      Request → Text → Text → Text → Bool → Chance → Handler (Reply TokenResponse)
  login_scoped r portal email password use_cookie ch = do
    limit ← limit_login ch r email
    refuse_throttled limit (scoped_throttled_detail email portal limit)
    user ← credentials ch email password (scoped_failure_detail email portal)
    check_portal portal user
    reset_login ch r email
    issue_session env r user use_cookie ch
