-- ===== src/ApiKeys.antt =====
-- quansec/protocols/auth_api_keys.py: keys for machines. Time is in seconds; the raw key is the
-- argument `raw`. The class checks of `ApiKeyCreate` (the length of the name, the range of the days)
-- are pydantic's.
pub mod Creation
pub mod Revocation
pub mod Listing
mod Tests
use quansec_pqc_platform.Prelude.{
  ℕ, zero, suc, ◌+◌, ◌*◌, Bool, true, false, ◌&&◌, ◌||◌, not, Option, none, some, List, [], ◌∷◌,
  ◌++◌, map, Text, codes, eq_text, ends_with, join, take, any, keep, count, ◌==◌, if◌then◌else◌,
  is_none,
}
use mathlib.Core.List.{reverse}
use quansec_pqc_platform.Json.{Fields, Value, null, str, arr, field, end, strings, opt_str, nat}
use quansec_pqc_platform.Audit.{scope_denied, api_key_create, api_key_revoke}
use quansec_pqc_platform.Scopes.{
  Scope, ScopeSet, system_admin, scope_name, expand, sort_scopes, inter, find_scope,
}
use quansec_pqc_platform.Http.{
  KeyRow, Db, Request, Handler, pure, raise, continue, ◌>>=◌, ◌>>◌, audit, crash, refuse_if,
}
use quansec_pqc_platform.Auth.{Principal, lacking, has_expired}

-- Python's text of a time and of a list.
pub record Printing : Type 0 where
  pub isoformat : ℕ → Text
  pub repr : List Text → Text

pub record ApiKeyCreate : Type 0 where
  pub name : Text
  pub scopes : List Text
  pub protocol : Option Text
  pub expires_in_days : Option ℕ
  pub never_expires : Bool

pub record Created : Type 0 where
  pub id : ℕ
  pub name : Text
  pub api_key : Text
  pub key_prefix : Text
  pub scopes : List Text
  pub protocol : Option Text
  pub created_at : ℕ
  pub expires_at : Option ℕ

abbrev pub last : ℕ → Text → Text
last n s = reverse (take n (reverse s))

abbrev pub full_key : Text → Text
full_key raw = codes "qsk_live_" ++ raw

-- f"{full_key[:14]}...{full_key[-4:]}"
abbrev pub masked : Text → Text
masked key = take 14 key ++ (codes "..." ++ last 4 key)

abbrev pub is_empty : List Text → Bool
is_empty [] = true
is_empty (t ∷ ts) = false

abbrev pub is_portal : Text → Bool
is_portal p = any (eq_text p) (codes "tls" ∷ codes "ssh" ∷ codes "ipsec" ∷ codes "main" ∷ [])

-- `payload.protocol and payload.protocol not in (...)`
abbrev pub bad_protocol : Option Text → Bool
bad_protocol none = false
bad_protocol (some []) = false
bad_protocol (some (c ∷ p)) = not (is_portal (c ∷ p))

abbrev pub unknown_scopes : List Text → List Text
unknown_scopes requested = keep (λ t. is_none (find_scope t)) requested

abbrev over_reach_detail : List Text → ScopeSet → List Text → Fields
over_reach_detail requested own over = field (codes "requested_scopes") (arr (strings requested)) (
    field (codes "held_scopes") (arr (strings (sort_scopes own))) (
      field (codes "over_reach") (arr (strings over))
        (field (codes "path") (str (codes "/api/keys")) end)))

unfoldable pub refuse_over_reach :
    Printing → ℕ → List Text → ScopeSet → List Text → Handler (Unit {0})
refuse_over_reach f user_id requested own [] = pure tt
refuse_over_reach f user_id requested own (t ∷ ts) = do
  audit scope_denied (some user_id) (over_reach_detail requested own (t ∷ ts)) none
  raise 403 (codes "You cannot grant scope(s) you do not hold: " ++ f.repr (t ∷ ts))

abbrev pub ends_in_read : Scope → Bool
ends_in_read s = ends_with (scope_name s) (codes ":read")

unfoldable pub granted_scopes : List Text → ScopeSet → List Text
granted_scopes [] own = sort_scopes (λ s. own s && ends_in_read s)
granted_scopes (t ∷ ts) own = sort_scopes (inter (expand (t ∷ ts)) own)

-- payload.expires_in_days or DEFAULT_EXPIRY_DAYS
abbrev pub days_or_default : Option ℕ → ℕ
days_or_default none = 90
days_or_default (some zero) = 90
days_or_default (some (suc n)) = suc n

unfoldable pub expiry : ApiKeyCreate → ScopeSet → ℕ → Handler (Option ℕ)
expiry payload own now =
    if payload.never_expires
    then (if own system_admin
        then pure none
        else raise 403 (
            codes
              "A non-expiring API key requires system:admin. Issue a key with an expiry, or ask an administrator. Default is 90 days."))
    else pure (some (now + days_or_default payload.expires_in_days * 86400))

abbrev pub new_key : (Text → Text) → ApiKeyCreate → ℕ → ℕ → Text → List Text → Option ℕ → ℕ → KeyRow
new_key sha256 payload id user_id raw granted expires_at now = record {
  id = id;
  user_id = user_id;
  name = payload.name;
  key_prefix = masked (full_key raw);
  key_hash = sha256 (full_key raw);
  scopes = some granted;
  protocol = payload.protocol;
  created_at = now;
  expires_at = expires_at;
  revoked_at = none;
  last_used = none;
}

-- UNIQUE (key_hash), and the CHECK on `protocol`
abbrev pub violates : List KeyRow → KeyRow → Bool
violates keys k =
    any (λ q. eq_text q.key_hash k.key_hash) keys
    || (elim k.protocol [ none ↦ false | some p ↦ not (is_portal p) ])

unfoldable pub insert_key : KeyRow → Handler (Unit {0})
insert_key k db =
    if violates db.api_keys k
    then crash db
    else pure tt (record db { api_keys = k ∷ db.api_keys; next_key = suc db.next_key })

abbrev iso_or_null : Printing → Option ℕ → Value
iso_or_null f none = null
iso_or_null f (some t) = str (f.isoformat t)

abbrev created_detail : Printing → KeyRow → List Text → Fields
created_detail f k granted = field (codes "key_id") (nat k.id) (
    field (codes "name") (str k.name) (
      field (codes "scopes") (arr (strings granted)) (
        field (codes "protocol") (opt_str k.protocol)
          (field (codes "expires_at") (iso_or_null f k.expires_at) end))))

abbrev pub created : KeyRow → Text → List Text → Created
created k raw granted = record {
  id = k.id;
  name = k.name;
  api_key = full_key raw;
  key_prefix = k.key_prefix;
  scopes = granted;
  protocol = k.protocol;
  created_at = k.created_at;
  expires_at = k.expires_at;
}

abbrev next_id : Handler ℕ
next_id db = pure db.next_key db

module _ (f : Printing) where
  -- The checks, up to the choice of the expiry time, which is the answer.
  unfoldable pub admit :
      ApiKeyCreate → ℕ → ScopeSet → List Text → List Text → ℕ → Handler (Option ℕ)
  unfolding refuse_over_reach expiry refuse_if
  admit payload user_id own over granted now = do
    refuse_if (bad_protocol payload.protocol) 400 (codes "protocol must be tls, ssh, ipsec or main")
    refuse_if (not (is_empty (unknown_scopes payload.scopes))) 400 (
        codes "Unknown scope(s): "
        ++ (f.repr (unknown_scopes payload.scopes)
            ++ (codes ". Valid: " ++ f.repr (sort_scopes (λ s. true)))))
    refuse_over_reach f user_id payload.scopes own over
    refuse_if (is_empty granted) 400
        (codes "No grantable scopes. Your account holds none of the requested permissions.")
    expiry payload own now

module _ (f : Printing) (sha256 : Text → Text) where
  -- The INSERT, the audit event and the reply.
  unfoldable pub store_key : KeyRow → Text → List Text → Handler Created
  unfolding insert_key
  store_key k raw granted = do
    insert_key k
    audit api_key_create (some k.user_id) (created_detail f k granted) (some (codes "warning"))
    pure (created k raw granted)

  unfoldable pub create_api_key : ApiKeyCreate → Principal → Text → ℕ → Handler Created
  unfolding admit store_key
  create_api_key payload user raw now =
      let own = expand user.scopes in
      let granted = granted_scopes payload.scopes own in
      do
        expires_at ← admit f payload user.id own (lacking payload.scopes own) granted now
        id ← next_id
        store_key (new_key sha256 payload id user.id raw granted expires_at now) raw granted

-- WHERE id = $1 AND user_id = $2 AND revoked_at IS NULL
abbrev pub revocable : ℕ → ℕ → KeyRow → Bool
revocable key_id user_id k = k.id == key_id && k.user_id == user_id && is_none k.revoked_at

abbrev pub revoke_keys : ℕ → ℕ → ℕ → List KeyRow → List KeyRow
revoke_keys key_id user_id now =
    map (λ k. if revocable key_id user_id k then record k { revoked_at = some now } else k)

unfoldable pub revoke_api_key : ℕ → Principal → ℕ → Handler (Unit {0})
revoke_api_key key_id user now db =
    if any (revocable key_id user.id) db.api_keys
    then audit api_key_revoke (some user.id) (field (codes "key_id") (nat key_id) end)
        (some (codes "warning"))
        (record db { api_keys = revoke_keys key_id user.id now db.api_keys })
    else raise 404 (codes "Key not found or already revoked") db
