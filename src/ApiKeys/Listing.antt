-- ===== src/ApiKeys/Listing.antt =====
-- quansec/protocols/auth_api_keys.py, `list_api_keys`.
use quansec_pqc_platform.Prelude.{
  ℕ, Bool, true, false, ◌&&◌, ◌||◌, not, Option, none, some, List, [], ◌∷◌, map, Text, eq_text,
  keep, ◌==◌, is_none,
}
use quansec_pqc_platform.Http.{KeyRow, Db}
use quansec_pqc_platform.Auth.{Principal, has_expired}

pub record ApiKeyOut : Type 0 where
  pub id : ℕ
  pub name : Text
  pub key_prefix : Text
  pub scopes : List Text
  pub protocol : Option Text
  pub last_used : Option ℕ
  pub created_at : ℕ
  pub expires_at : Option ℕ
  pub revoked : Bool
  pub expired : Bool

-- `protocol and protocol != k.protocol` leaves a key out.
abbrev pub from_portal : Option Text → KeyRow → Bool
from_portal none k = true
from_portal (some []) k = true
from_portal (some (c ∷ p)) k = elim k.protocol [ none ↦ false | some q ↦ eq_text q (c ∷ p) ]

abbrev pub or_empty_list : Option (List Text) → List Text
or_empty_list none = []
or_empty_list (some ts) = ts

abbrev pub masked_row : ℕ → KeyRow → ApiKeyOut
masked_row now k = record {
  id = k.id;
  name = k.name;
  key_prefix = k.key_prefix;
  scopes = or_empty_list k.scopes;
  protocol = k.protocol;
  last_used = k.last_used;
  created_at = k.created_at;
  expires_at = k.expires_at;
  revoked = not (is_none k.revoked_at);
  expired = has_expired k.expires_at now;
}

-- The rows of the reply; ORDER BY is not modelled.
unfoldable pub list_api_keys : Option Text → Bool → Principal → ℕ → Db → List ApiKeyOut
list_api_keys protocol include_revoked user now db = map (masked_row now) (
    keep
      (λ k.
        k.user_id == user.id && from_portal protocol k && (include_revoked || is_none k.revoked_at))
      db.api_keys)
