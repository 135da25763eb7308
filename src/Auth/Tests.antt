-- ===== src/Auth/Tests.antt =====
-- A demoted administrator, and an API key that is presented with its owner's present role.
use quansec_pqc_platform.Prelude.{◌≡◌, none, some, [], ◌∷◌, Text, codes, eq_text}
use quansec_pqc_platform.Json.{Fields, field, end, nat, arr, strings}
use quansec_pqc_platform.Scopes.{expand, normalise, scope_name, system_admin}
use quansec_pqc_platform.Tokens.Rows.{User, empty}
use quansec_pqc_platform.RateLimit.{Limiter}
use quansec_pqc_platform.Http.{KeyRow, Db, Request, http_error}
use quansec_pqc_platform.Auth.{Principal, principal, narrowed, access_token, require_scope}
use quansec_pqc_platform.Auth.Guards.{OnlyLogged, require_scope_exact}

-- Once an administrator, now an operator of the TLS portal.
abbrev bob : User
bob = record {
  id = 2;
  email = codes "b@x";
  role = codes "operator";
  portal = some (codes "tls");
  password_hash = codes "h";
  created_at = 0;
}

abbrev bobs_key : KeyRow
bobs_key = record {
  id = 5;
  user_id = 2;
  name = codes "ci";
  key_prefix = codes "qsk_live_ab";
  key_hash = codes "qsk_live_abc";
  scopes = some (codes "tls:read" ∷ []);
  protocol = none;
  created_at = 0;
  expires_at = some 500;
  revoked_at = none;
  last_used = none;
}

abbrev no_limits : Limiter
no_limits = record { redis_store = λ k. none; throttle = λ k. none }

abbrev world : Db
world = record {
  users = bob ∷ [];
  next_user = 10;
  tokens = empty;
  api_keys = bobs_key ∷ [];
  next_key = 6;
  limiter = no_limits;
  log = [];
}

abbrev scan : Request
scan = record {
  path = codes "/api/tls/scan";
  method = codes "POST";
  user_agent = none;
  ip = none;
  refresh_cookie = none;
  csrf_cookie = none;
  csrf_header = none;
}

abbrev plain : Text → Text
plain t = t

abbrev old_claims : Fields
old_claims =
    field (codes "sub") (nat 2)
      (field (codes "scopes") (arr (strings (codes "system:admin" ∷ []))) end)

abbrev demoted : Principal
demoted = principal bob (narrowed (codes "system:admin" ∷ []) bob) (access_token none)

require_scope_exact_example :
    ((require_scope (scope_name system_admin ∷ []) scan demoted world).0
      ≡ http_error 403 (codes "Requires one of: system:admin"))
    × OnlyLogged world (require_scope (scope_name system_admin ∷ []) scan demoted world).1
unfolding expand eq_text require_scope normalise
require_scope_exact_example =
    require_scope_exact system_admin scan (codes "system:admin" ∷ []) bob (access_token none) world
