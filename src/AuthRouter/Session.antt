-- ===== src/AuthRouter/Session.antt =====
-- quansec/protocols/auth_router.py: what the handlers share, and `_issue_session`. The libraries and
-- the settings are `Env`; what a request draws at random, its time and the outages of the limiter are
-- `Chance`. A reply that raises has no cookies: the framework sends those of the injected response only
-- with a value that is returned.
use quansec_pqc_platform.Prelude.{
  ℕ, Bool, true, Option, none, some, List, [], ◌∷◌, Text, codes, if◌then◌else◌,
}
use quansec_pqc_platform.Json.{Fields, str, arr, field, end, strings, opt_str}
use quansec_pqc_platform.Audit.{login_success}
use quansec_pqc_platform.Scopes.{scopes_for}
use quansec_pqc_platform.Tokens.Rows.{User, Table}
use quansec_pqc_platform.Tokens.{Draws, Client, Issued, issue_refresh_token}
use quansec_pqc_platform.AccessTokens.{Jwt, JwtSettings, Minted, create_access_token}
use quansec_pqc_platform.RateLimit.{Limits, Outage, Limiter, RateLimitResult}
use quansec_pqc_platform.Http.{Request, ok, Handler, pure, ◌>>=◌, ◌>>◌, audit, crash}
use quansec_pqc_platform.Auth.{Passwords}
use quansec_pqc_platform.Csrf.{
  CookieSettings, SetCookie, set_cookie, delete_cookie, cookie, set_csrf_cookie, clear_csrf_cookie,
}

pub record Env : Type 0 where
  pub sha256 : Text → Text
  pub jwt : Jwt
  pub jwt_settings : JwtSettings
  pub limits : Limits
  pub passwords : Passwords
  pub cookies : CookieSettings

pub record Chance : Type 0 where
  pub now : ℕ
  pub draws : Draws
  pub jti : Text
  pub csrf : Text
  pub salt : Text
  pub rehash_fails : Bool
  pub limit_outage : Outage
  pub reset_outage : Outage

pub record TokenResponse : Type 0 where
  pub access_token : Text
  pub expires_in : ℕ
  pub role : Text
  pub email : Text
  pub portal : Text
  pub scopes : List Text
  pub refresh_token : Option Text
  pub csrf_token : Option Text

pub record Reply (A : Type 0) : Type 0 where
  pub body : A
  pub cookies : List SetCookie

abbrev pub generic_auth_error : Text
generic_auth_error = codes "Incorrect email or password"

abbrev pub generic_refresh_error : Text
generic_refresh_error = codes "Invalid or expired session. Please log in again."

-- user.get("portal") or "main"
abbrev pub portal_or_main : Option Text → Text
portal_or_main none = codes "main"
portal_or_main (some []) = codes "main"
portal_or_main (some (c ∷ p)) = c ∷ p

-- A statement on the token table; `none` is its exception.
abbrev pub on_tokens : {A : Type 0} → (Table → Option (A × Table)) → Handler A
on_tokens m db = elim (m db.tokens) [
  | none ↦ crash db
  | some (a, t) ↦ (ok a, record db { tokens = t })
]

abbrev pub on_limiter : (Limiter → RateLimitResult × Limiter) → Handler RateLimitResult
on_limiter m db = let (result, l) = m db.limiter in (ok result, record db { limiter = l })

abbrev pub client_of : Request → Client
client_of r = record { user_agent = r.user_agent; ip_address = r.ip; device_label = none }

abbrev pub set_refresh_cookie : CookieSettings → Text → SetCookie
set_refresh_cookie s raw = set_cookie (cookie s s.refresh_name raw true)

abbrev pub clear_refresh_cookie : CookieSettings → List SetCookie
clear_refresh_cookie s = delete_cookie s.refresh_name s.path s.domain ∷ clear_csrf_cookie s ∷ []

-- How the refresh token reaches the client: in cookies, or in the body.
abbrev pub session_cookies : CookieSettings → Bool → Text → Text → List SetCookie
session_cookies s use_cookie raw csrf =
    if use_cookie then set_refresh_cookie s raw ∷ set_csrf_cookie s csrf ∷ [] else []

abbrev pub delivery : Bool → Text
delivery use_cookie = if use_cookie then codes "cookie" else codes "body"

module _ (env : Env) where
  abbrev pub mint : ℕ → Text → Text → Option Text → List Text → Chance → Minted
  mint user_id email role portal scopes ch =
      create_access_token env.jwt env.jwt_settings user_id email role (portal_or_main portal) scopes
        none ch.now ch.jti

  -- The answer of a login and of a refresh.
  abbrev pub token_reply :
      Bool → Text → Text → Option Text → List Text → Minted → Issued → Chance → Reply TokenResponse
  token_reply use_cookie email role portal scopes access refresh ch = record {
    body = record {
      access_token = access.token;
      expires_in = access.expires_in;
      role = role;
      email = email;
      portal = portal_or_main portal;
      scopes = scopes;
      refresh_token = if use_cookie then none else some refresh.raw_token;
      csrf_token = if use_cookie then some ch.csrf else none;
    };
    cookies = session_cookies env.cookies use_cookie refresh.raw_token ch.csrf;
  }

  abbrev pub login_detail : User → List Text → Chance → Issued → Bool → Fields
  login_detail u scopes ch refresh use_cookie = field (codes "email") (str u.email) (
      field (codes "role") (str u.role) (
        field (codes "portal") (opt_str u.portal) (
          field (codes "scopes") (arr (strings scopes)) (
            field (codes "jti") (str ch.jti) (
              field (codes "token_id") (str refresh.token_id) (
                field (codes "family_id") (str refresh.family_id)
                  (field (codes "delivery") (str (delivery use_cookie)) end)))))))

  -- _issue_session
  unfoldable pub issue_session : Request → User → Bool → Chance → Handler (Reply TokenResponse)
  issue_session r u use_cookie ch =
      let scopes = scopes_for (some u.role) u.portal in
      let access = mint u.id u.email u.role u.portal scopes ch in
      do
        refresh ← on_tokens (λ t.
            issue_refresh_token env.sha256 env.cookies.refresh_ttl_days t u.id none none
              (client_of r) ch.draws ch.now)
        audit login_success (some u.id) (login_detail u scopes ch refresh use_cookie) none
        pure (token_reply use_cookie u.email u.role u.portal scopes access refresh ch)
