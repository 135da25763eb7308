-- ===== src/AuthRouter/Users.antt =====
-- quansec/protocols/auth_router.py: `me`, `sessions`, `register` and `list_users`, over the table
-- `users`, whose emails are unique and whose ids come from a sequence that starts at 1.
pub mod Registration
mod Tests
use quansec_pqc_platform.Prelude.{
  ℕ, suc, Bool, true, false, ◌||◌, not, Option, none, some, List, [], ◌∷◌, ◌++◌, map, Text, codes,
  eq_text, any, leb, ◌==◌, if◌then◌else◌,
}
use quansec_pqc_platform.Json.{Fields, str, arr, field, end, strings}
use quansec_pqc_platform.Audit.{user_create}
use quansec_pqc_platform.Scopes.{scopes_for}
use quansec_pqc_platform.Tokens.Rows.{User, Row}
use quansec_pqc_platform.Tokens.{live_sessions}
use quansec_pqc_platform.Http.{
  Db, ok, Handler, pure, raise, continue, ◌>>=◌, ◌>>◌, audit, crash, refuse_if,
}
use quansec_pqc_platform.Auth.{Principal, Method, Passwords, find_email, require_admin}

pub record RegisterRequest : Type 0 where
  pub email : Text
  pub password : Text
  pub role : Text
  pub portal : Text

pub record UserOut : Type 0 where
  pub id : ℕ
  pub email : Text
  pub role : Text
  pub created_at : ℕ
  pub portal : Option Text

pub record MeResponse : Type 0 where
  pub id : ℕ
  pub email : Text
  pub role : Text
  pub portal : Option Text
  pub created_at : ℕ
  pub scopes : List Text
  pub auth_method : Method

-- The descriptions are left out.
abbrev pub me : Principal → MeResponse
me user = record {
  id = user.id;
  email = user.email;
  role = user.role;
  portal = user.portal;
  created_at = user.created_at;
  scopes = user.scopes;
  auth_method = user.auth_method;
}

abbrev pub sessions : Principal → ℕ → Db → List Row
sessions user now db = live_sessions db.tokens user.id now

abbrev pub is_role : Text → Bool
is_role role = eq_text role (codes "admin") || eq_text role (codes "operator")

abbrev pub is_user_portal : Text → Bool
is_user_portal p = any (eq_text p) (codes "main" ∷ codes "tls" ∷ codes "ssh" ∷ codes "ipsec" ∷ [])

-- `if existing`, for the id that was selected
abbrev exists : Option User → Bool
exists none = false
exists (some u) = not (u.id == 0)

abbrev pub out : User → UserOut
out u = record {
  id = u.id;
  email = u.email;
  role = u.role;
  created_at = u.created_at;
  portal = u.portal;
}

abbrev register_detail : RegisterRequest → Fields
register_detail payload = field (codes "new_user") (str payload.email) (
    field (codes "role") (str payload.role) (
      field (codes "portal") (str payload.portal) (
        field (codes "granted_scopes")
          (arr (strings (scopes_for (some payload.role) (some payload.portal)))) end)))

abbrev pub new_user : Passwords → RegisterRequest → Text → ℕ → ℕ → User
new_user passwords payload salt id now = record {
  id = id;
  email = payload.email;
  role = payload.role;
  portal = some payload.portal;
  password_hash = passwords.hash_password salt payload.password;
  created_at = now;
}

-- The INSERT, under UNIQUE (email).
unfoldable pub insert_user : User → Handler (Unit {0})
insert_user u db =
    if any (λ v. eq_text v.email u.email) db.users
    then crash db
    else pure tt (record db { users = u ∷ db.users; next_user = suc db.next_user })

abbrev next_id : Handler ℕ
next_id db = pure db.next_user db

unfoldable pub refuse_existing : Text → Handler (Unit {0})
refuse_existing email db =
    if exists (find_email db.users email)
    then raise 409 (codes "Email already registered") db
    else pure tt db

unfoldable pub check_payload : RegisterRequest → Handler (Unit {0})
unfolding refuse_if refuse_existing
check_payload payload = do
  refuse_if (not (is_role payload.role)) 400 (codes "Role must be 'admin' or 'operator'")
  refuse_if (not (is_user_portal payload.portal)) 400
      (codes "Portal must be one of: main, tls, ssh, ipsec")
  refuse_existing payload.email

unfoldable pub register : Passwords → RegisterRequest → Principal → Text → ℕ → Handler UserOut
unfolding check_payload insert_user
register passwords payload admin salt now = do
  check_payload payload
  id ← next_id
  insert_user (new_user passwords payload salt id now)
  audit user_create (some admin.id) (register_detail payload) (some (codes "warning"))
  pure (out (new_user passwords payload salt id now))

-- ORDER BY id is not modelled.
abbrev pub list_users : Db → List UserOut
list_users db = map out db.users
