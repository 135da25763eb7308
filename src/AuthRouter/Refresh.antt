-- ===== src/AuthRouter/Refresh.antt =====
-- quansec/protocols/auth_router.py: `refresh`, `logout` and `revoke_all`.
pub mod Guards
pub mod Reuse
pub mod Sessions
pub mod Logout
use quansec_pqc_platform.Prelude.{
  ℕ, Bool, true, false, Option, none, some, List, [], ◌∷◌, ◌++◌, Text, codes, if◌then◌else◌,
}
use quansec_pqc_platform.Json.{Fields, null, str, field, end, nat}
use quansec_pqc_platform.Audit.{
  csrf_failure, refresh_reuse, token_expired, token_invalid, token_refresh, Action,
  revoke_all as revoke_all_event, logout as logout_event,
}
use quansec_pqc_platform.Scopes.{scopes_for}
use quansec_pqc_platform.Tokens.Rows.{Row, Table}
use quansec_pqc_platform.Tokens.{
  Context, Issued, Rotation, unknown_token, reuse_detected, revoked, expired, rotated,
  rotate_refresh_token, revoke_token, revoke_all_for_user,
}
use quansec_pqc_platform.AccessTokens.Decimal.{decimal}
use quansec_pqc_platform.RateLimit.{RateLimitResult, refresh_limit}
use quansec_pqc_platform.Http.{
  Db, Request, ok, Handler, pure, raise, continue, ◌>>=◌, ◌>>◌, audit, crash, refuse_if,
}
use quansec_pqc_platform.Auth.{Principal}
use quansec_pqc_platform.Csrf.{
  given, Verified, passed, forbidden, failed, verify_csrf, is_cookie_authenticated,
}
use quansec_pqc_platform.AuthRouter.Session.{
  Env, Chance, TokenResponse, Reply, generic_refresh_error, portal_or_main, on_tokens, on_limiter,
  client_of, clear_refresh_cookie, delivery, mint, token_reply,
}

abbrev csrf_detail : Request → Fields
csrf_detail r =
    field (codes "path") (str r.path) (field (codes "reason") (str (codes "csrf_mismatch")) end)

-- verify_csrf under try: an HTTPException is audited and raised again, any other is not caught.
unfoldable pub after_csrf : Request → Verified → Handler (Unit {0})
after_csrf r passed = pure tt
after_csrf r (forbidden detail) = do audit csrf_failure none (csrf_detail r) none; raise 403 detail
after_csrf r failed = crash

-- body_token or cookie
abbrev pub raw_token : Request → Option Text → Option Text
raw_token r body_token = if given body_token then body_token else r.refresh_cookie

abbrev failure_detail : Text → Option Context → Request → Fields
failure_detail reason x r = field (codes "reason") (str reason) (
    field (codes "token_id") (elim x [ none ↦ null | some y ↦ str y.token_id ])
      (field (codes "path") (str r.path) end))

abbrev user_of : Option Context → Option ℕ
user_of none = none
user_of (some x) = some x.user_id

abbrev pub fail_refresh : {A : Type 0} → Action → Text → Option Context → Request → Handler A
fail_refresh action reason x r = do
  audit action (user_of x) (failure_detail reason x r) none
  raise 401 generic_refresh_error

abbrev reuse_detail : Context → ℕ → Fields
reuse_detail x n = field (codes "family_id") (str x.family_id) (
    field (codes "token_id") (str x.token_id) (
      field (codes "revoked_count") (nat n) (
        field (codes "note")
          (str (
            codes
              "Rotated refresh token presented again - entire family revoked as suspected theft"))
          end)))

abbrev rotated_detail : Text → Issued → Bool → Chance → Fields
rotated_detail previous s from_cookie ch = field (codes "jti") (str ch.jti) (
    field (codes "previous_token_id") (str previous) (
      field (codes "new_token_id") (str s.token_id) (
        field (codes "family_id") (str s.family_id)
          (field (codes "delivery") (str (delivery from_cookie)) end))))

pub record Revocation : Type 0 where
  pub revoked_count : ℕ
  pub detail : Text

module _ (env : Env) where
  unfoldable pub check_csrf : Request → Bool → Handler (Unit {0})
  unfolding after_csrf
  check_csrf r from_cookie =
      if from_cookie then after_csrf r (verify_csrf env.cookies r) else pure tt

  -- What follows the rotation, by its outcome.
  unfoldable pub on_rotation : Request → Bool → Chance → Rotation → Handler (Reply TokenResponse)
  on_rotation r from_cookie ch (reuse_detected x n) = do
    audit refresh_reuse (some x.user_id) (reuse_detail x n) (some (codes "critical"))
    raise 401 generic_refresh_error
  on_rotation r from_cookie ch unknown_token =
      fail_refresh token_invalid (codes "unknown_token") none r
  on_rotation r from_cookie ch (revoked x reason) =
      fail_refresh token_invalid (codes "revoked") (some x) r
  on_rotation r from_cookie ch (expired x) = fail_refresh token_expired (codes "expired") (some x) r
  on_rotation r from_cookie ch (rotated x previous s) = do
    let scopes = scopes_for (some x.role) x.portal
    audit token_refresh (some x.user_id) (rotated_detail previous s from_cookie ch) none
    pure (
        token_reply env from_cookie x.email x.role x.portal scopes
          (mint env x.user_id x.email x.role x.portal scopes ch) s ch)

  abbrev pub rotate : Request → Text → Chance → Handler Rotation
  rotate r raw ch db =
      on_tokens
        (λ t.
          rotate_refresh_token env.sha256 env.cookies.refresh_ttl_days db.users t raw (client_of r)
            ch.draws ch.now)
        db

  -- `if not raw_token`
  unfoldable pub exchange : Request → Bool → Chance → Option Text → Handler (Reply TokenResponse)
  unfolding on_rotation
  exchange r from_cookie ch none = raise 401 generic_refresh_error
  exchange r from_cookie ch (some []) = raise 401 generic_refresh_error
  exchange r from_cookie ch (some (c ∷ raw)) = do
    result ← rotate r (c ∷ raw) ch
    on_rotation r from_cookie ch result

  abbrev pub limit_refresh : Chance → Request → Handler RateLimitResult
  limit_refresh ch r =
      on_limiter (λ s. refresh_limit env.sha256 env.limits ch.limit_outage s ch.now r.ip)

  abbrev pub refuse_refresh : RateLimitResult → Handler (Unit {0})
  refuse_refresh limit =
      if limit.allowed
      then pure tt
      else raise 429 (codes "Too many refresh attempts. Try again later.")

  unfoldable pub refresh : Request → Option Text → Chance → Handler (Reply TokenResponse)
  unfolding check_csrf exchange
  refresh r body_token ch = do
    limit ← limit_refresh ch r
    refuse_refresh limit
    check_csrf r (is_cookie_authenticated r body_token)
    exchange r (is_cookie_authenticated r body_token) ch (raw_token r body_token)

  abbrev logout_detail : Row → Fields
  logout_detail row =
      field (codes "token_id") (str row.token_id)
        (field (codes "family_id") (str row.family_id) end)

  abbrev on_revoked : Option Row → Handler ℕ
  on_revoked none = pure 0
  on_revoked (some q) = do audit logout_event (some q.user_id) (logout_detail q) none; pure 1

  abbrev revoke_given : Text → ℕ → Handler ℕ
  revoke_given raw now db =
      let (row, t) = revoke_token env.sha256 db.tokens raw (codes "logout") now in
      on_revoked row (record db { tokens = t })

  unfoldable pub revoke_session : Option Text → ℕ → Handler ℕ
  revoke_session none now = pure 0
  revoke_session (some []) now = pure 0
  revoke_session (some (c ∷ raw)) now = revoke_given (c ∷ raw) now

  unfoldable pub logout : Request → Option Text → ℕ → Handler (Reply Revocation)
  unfolding check_csrf revoke_session
  logout r body_token now = do
    check_csrf r (is_cookie_authenticated r body_token)
    n ← revoke_session (raw_token r body_token) now
    pure (record {
      body = record { revoked_count = n; detail = codes "Logged out" };
      cookies = clear_refresh_cookie env.cookies;
    })

  abbrev minutes : Text
  minutes = decimal env.jwt_settings.ttl_minutes

  abbrev revoke_all_detail : Principal → ℕ → Fields
  revoke_all_detail user n = field (codes "revoked_count") (nat n) (
      field (codes "email") (str user.email) (
        field (codes "note")
          (str (codes "Access tokens remain valid for up to " ++ (minutes ++ codes " minutes")))
          end))

  unfoldable pub revoke_all : Principal → ℕ → Handler (Reply Revocation)
  revoke_all user now db =
      let (n, t) = revoke_all_for_user db.tokens user.id (codes "revoke_all") now in
      (do
        audit revoke_all_event (some user.id) (revoke_all_detail user n) none
        pure (record {
          body = record {
            revoked_count = n;
            detail =
                codes "Revoked "
                ++ (decimal n
                    ++ (codes " session(s). Existing access tokens expire within "
                        ++ (minutes ++ codes " minutes.")));
          };
          cookies = clear_refresh_cookie env.cookies;
        }))
        (record db { tokens = t })
