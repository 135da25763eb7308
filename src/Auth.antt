-- ===== src/Auth.antt =====
-- quansec/core/auth.py: who a request is, and what it may do. passlib is the record `Passwords`,
-- SHA-256 and the JWT library are parameters.
pub mod Principals
pub mod Guards
mod Tests
use quansec_pqc_platform.Prelude.{
  ℕ, Bool, true, false, ◌&&◌, ◌||◌, not, Option, none, some, List, [], ◌∷◌, ◌++◌, map, Text, codes,
  eq_text, lower, starts_with, join, leb, ◌==◌, find, keep, any, if◌then◌else◌, is_none,
}
use quansec_pqc_platform.Json.{
  ℤ, pos, negsuc, Value, Items, Fields, null, str, arr, nil, cons, end, field, get_field, strings,
  opt_str, nat, num, flag, dict,
}
use quansec_pqc_platform.Audit.{token_expired, token_invalid, scope_denied}
use quansec_pqc_platform.Scopes.{
  Scope, ScopeSet, expand, sort_scopes, inter, has_any, scopes_for, known, find_scope,
}
use quansec_pqc_platform.Tokens.Rows.{User}
use quansec_pqc_platform.Tokens.{join_user}
use quansec_pqc_platform.AccessTokens.{
  Jwt, JwtSettings, Verdict, claims_of, token_error, TokenError, expired_token, int_of,
  decode_access_token, reason_text,
}
use quansec_pqc_platform.Http.{
  KeyRow, Db, Request, Response, ok, http_error, Handler, pure, raise, continue, ◌>>=◌, ◌>>◌, audit,
}

-- `verify` and `needs_update` raise on a malformed hash: `none`. The argument of `hash_password` is the
-- salt.
pub record Passwords : Type 0 where
  pub verify : Text → Text → Option Bool
  pub needs_update : Text → Option Bool
  pub hash_password : Text → Text → Text

abbrev pub or_false : Option Bool → Bool
or_false none = false
or_false (some b) = b

abbrev pub find_email : List User → Text → Option User
find_email users email = find (λ u. eq_text (lower u.email) (lower email)) users

abbrev pub set_hash : ℕ → Text → List User → List User
set_hash id hash = map (λ u. if u.id == id then record u { password_hash = hash } else u)

-- The answer to a known row; `write_fails` says that the upgrade of the hash raised.
abbrev check_password : Passwords → Bool → Text → Text → User → Db → Option User × Db
check_password p write_fails salt password u db =
    if or_false (p.verify password u.password_hash)
    then (
      some u,
      if or_false (p.needs_update u.password_hash) && not write_fails
          then record db { users = set_hash u.id (p.hash_password salt password) db.users }
          else db,
    )
    else (none, db)

unfoldable pub authenticate_user : Passwords → Bool → Text → Db → Text → Text → Option User × Db
authenticate_user p write_fails salt db email password = elim (find_email db.users email) [
  | none ↦ (none, db)
  | some u ↦ check_password p write_fails salt password u db
]

pub data Method : Type 0 where
  access_token : Option Text → Method
  api_key : ℕ → Method

pub record Principal : Type 0 where
  pub id : ℕ
  pub email : Text
  pub role : Text
  pub portal : Option Text
  pub created_at : ℕ
  pub scopes : List Text
  pub auth_method : Method

-- The texts of a list of values; an entry that is no text is in no scope set.
unfoldable pub texts_of : Items → List Text
texts_of nil = []
texts_of (cons (str t) xs) = t ∷ texts_of xs
texts_of (cons null xs) = texts_of xs
texts_of (cons (flag b) xs) = texts_of xs
texts_of (cons (num n) xs) = texts_of xs
texts_of (cons (arr ys) xs) = texts_of xs
texts_of (cons (dict fs) xs) = texts_of xs

abbrev pub claimed : Value → List Text
claimed (arr xs) = texts_of xs
claimed _ = []

abbrev pub text_or_none : Value → Option Text
text_or_none (str t) = some t
text_or_none _ = none

-- WHERE id = $1, for an integer that may be negative.
abbrev pub find_user : List User → Option ℤ → Option User
find_user users (some (pos n)) = find (λ u. u.id == n) users
find_user users _ = none

-- sorted(expand(claims["scopes"]) & expand(current))
abbrev pub narrowed : List Text → User → List Text
narrowed held u = sort_scopes (inter (expand held) (expand (scopes_for (some u.role) u.portal)))

abbrev pub principal : User → List Text → Method → Principal
principal u scopes m = record {
  id = u.id;
  email = u.email;
  role = u.role;
  portal = u.portal;
  created_at = u.created_at;
  scopes = scopes;
  auth_method = m;
}

abbrev invalid_token : Text
invalid_token = codes "Invalid or expired token"

abbrev invalid_key : Text
invalid_key = codes "Invalid or revoked API key"

abbrev reason : Text → Request → Fields
reason why r = field (codes "reason") (str why) (field (codes "path") (str r.path) end)

abbrev sub_value : Option ℤ → Value
sub_value none = null
sub_value (some n) = num n

abbrev from_claims : Request → Fields → Option User → Handler Principal
from_claims r c none = do
  audit token_invalid none
      (field (codes "reason") (str (codes "user_deleted")) (
        field (codes "sub") (sub_value (int_of (get_field (codes "sub") c)))
          (field (codes "path") (str r.path) end)))
      none
  raise 401 invalid_token
from_claims r c (some u) = pure (
    principal u (narrowed (claimed (get_field (codes "scopes") c)) u)
      (access_token (text_or_none (get_field (codes "jti") c))))

unfoldable pub principal_from_claims : Request → Fields → Handler Principal
principal_from_claims r c db =
    from_claims r c (find_user db.users (int_of (get_field (codes "sub") c))) db

abbrev pub or_no_scopes : Option (List Text) → List Text
or_no_scopes none = []
or_no_scopes (some ts) = ts

-- `expires_at is not None and expires_at <= now`
abbrev pub has_expired : Option ℕ → ℕ → Bool
has_expired none now = false
has_expired (some t) now = leb t now

abbrev pub find_key : List KeyRow → Text → Option KeyRow
find_key keys h = find (λ k. eq_text k.key_hash h && is_none k.revoked_at) keys

abbrev touch : Text → ℕ → List KeyRow → List KeyRow
touch h now = map (λ k. if eq_text k.key_hash h then record k { last_used = some now } else k)

abbrev pub owner : List User → Option KeyRow → Option (KeyRow × User)
owner users none = none
owner users (some k) = elim (find (λ u. u.id == k.user_id) users) [
  | none ↦ none
  | some u ↦ some (k, u)
]

abbrev from_key : Request → Text → ℕ → Option (KeyRow × User) → Handler Principal
from_key r h now none = do
  audit token_invalid none (reason (codes "invalid_api_key") r) none
  raise 401 invalid_key
from_key r h now (some (k, u)) =
    if has_expired k.expires_at now
    then (do
      audit token_expired (some u.id)
          (field (codes "reason") (str (codes "expired_api_key"))
            (field (codes "key_id") (nat k.id) (field (codes "path") (str r.path) end)))
          none
      raise 401 invalid_key)
    else λ db. (
      ok (principal u (narrowed (or_no_scopes k.scopes) u) (api_key k.id)),
      record db { api_keys = touch h now db.api_keys },
    )

unfoldable pub principal_from_api_key : (Text → Text) → Request → Text → ℕ → Handler Principal
principal_from_api_key sha256 r token now db =
    from_key r (sha256 token) now (owner db.users (find_key db.api_keys (sha256 token))) db

abbrev on_verdict : Request → Verdict → Handler Principal
on_verdict r (claims_of c) = principal_from_claims r c
on_verdict r (token_error expired_token) = do
  audit token_expired none (reason (reason_text expired_token) r) none
  raise 401 invalid_token
on_verdict r (token_error e) = do
  audit token_invalid none (reason (reason_text e) r) none
  raise 401 invalid_token

abbrev api_key_prefix : Text
api_key_prefix = codes "qsk_live_"

abbrev from_bearer : (Text → Text) → Jwt → JwtSettings → Request → Text → ℕ → Handler Principal
from_bearer sha256 j s r token now =
    if starts_with token api_key_prefix
    then principal_from_api_key sha256 r token now
    else on_verdict r (decode_access_token j s token now)

unfoldable pub get_current_user :
    (Text → Text) → Jwt → JwtSettings → Request → Option Text → ℕ → Handler Principal
unfolding principal_from_claims principal_from_api_key
get_current_user sha256 j s r none now = raise 401 (codes "Not authenticated")
get_current_user sha256 j s r (some []) now = raise 401 (codes "Not authenticated")
get_current_user sha256 j s r (some (c ∷ token)) now = from_bearer sha256 j s r (c ∷ token) now

unfoldable pub require_admin : Principal → Handler Principal
require_admin user =
    if eq_text user.role (codes "admin")
    then pure user
    else raise 403 (codes "Admin privileges required")

abbrev method_name : Method → Text
method_name (access_token jti) = codes "access_token"
method_name (api_key id) = codes "api_key"

abbrev scope_denial : List Text → Request → Principal → Fields
scope_denial required r user = field (codes "required_scopes") (arr (strings required)) (
    field (codes "held_scopes") (arr (strings user.scopes)) (
      field (codes "path") (str r.path) (
        field (codes "method") (str r.method)
          (field (codes "auth_method") (str (method_name user.auth_method)) end))))

unfoldable pub require_scope : List Text → Request → Principal → Handler Principal
require_scope required r user = if has_any (some user.scopes) required then pure user else do
  audit scope_denied (some user.id) (scope_denial required r user) none
  raise 403 (codes "Requires one of: " ++ join (codes ", ") required)

-- [scope for scope in required if scope not in held]
abbrev pub lacking : List Text → ScopeSet → List Text
lacking required held =
    keep (λ t. elim (find_scope t) [ none ↦ true | some s ↦ not (held s) ]) required

abbrev all_or_denied : List Text → Request → Principal → List Text → Handler Principal
all_or_denied required r user [] = pure user
all_or_denied required r user (t ∷ ts) = do
  audit scope_denied (some user.id)
      (field (codes "required_scopes") (arr (strings required)) (
        field (codes "missing") (arr (strings (t ∷ ts))) (
          field (codes "held_scopes") (arr (strings (sort_scopes (expand user.scopes))))
            (field (codes "path") (str r.path) end))))
      none
  raise 403 (codes "Requires all of: " ++ join (codes ", ") required)

unfoldable pub require_all_scopes : List Text → Request → Principal → Handler Principal
require_all_scopes required r user =
    all_or_denied required r user (lacking required (expand user.scopes))
