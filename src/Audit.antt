-- ===== src/Audit.antt =====
-- quansec/core/audit.py: the audit trail. A failed INSERT is swallowed by the code and is not modelled.
pub mod Scrub
mod Tests
use quansec_pqc_platform.Prelude.{
  ℕ, Bool, true, false, ◌||◌, Option, none, some, List, [], ◌∷◌, Text, codes, any, lower,
  starts_with, if◌then◌else◌, contains_text,
}
use quansec_pqc_platform.Json.{
  Value, Items, Fields, null, flag, num, str, arr, dict, nil, cons, end, field,
}

abbrev pub sensitive_keys : List Text
sensitive_keys =
    codes "password"
    ∷ codes "token"
    ∷ codes "raw_token"
    ∷ codes "refresh_token"
    ∷ codes "access_token"
    ∷ codes "token_hash"
    ∷ codes "secret"
    ∷ codes "authorization"
    ∷ codes "cookie"
    ∷ codes "csrf"
    ∷ codes "key"
    ∷ codes "password_hash"
    ∷ codes "client_secret"
    ∷ []

unfoldable pub is_sensitive : Text → Bool
is_sensitive key = any (λ marker. contains_text marker (lower key)) sensitive_keys

abbrev pub redacted : Value
redacted = str (codes "[redacted]")

-- A dictionary is entered, a list is not.
unfoldable mutual
  pub scrub : Fields → Fields
  scrub end = end
  scrub (field k v fs) = field k (if is_sensitive k then redacted else scrub_value v) (scrub fs)

  pub scrub_value : Value → Value
  scrub_value (dict fs) = dict (scrub fs)
  scrub_value null = null
  scrub_value (flag b) = flag b
  scrub_value (num n) = num n
  scrub_value (str t) = str t
  scrub_value (arr xs) = arr xs

-- The event names; the last line's are written out where they are used.
pub data Action : Type 0 where
  login_success login_failure login_throttled token_refresh logout revoke_session revoke_all :
      Action
  token_expired token_invalid scope_denied refresh_reuse csrf_failure : Action
  api_key_create api_key_revoke user_create : Action

pub record Event : Type 0 where
  pub user_id : Option ℕ
  pub action : Action
  pub detail : Fields
  pub severity : Text

-- severity or _SEVERITY.get(action, "info")
abbrev pub severity_or : Option Text → Text → Text
severity_or none default = default
severity_or (some []) default = default
severity_or (some (c ∷ s)) default = c ∷ s

-- _SEVERITY.get(action)
abbrev pub default_severity : Action → Text
default_severity login_failure = codes "warning"
default_severity login_throttled = codes "warning"
default_severity revoke_all = codes "warning"
default_severity token_invalid = codes "warning"
default_severity scope_denied = codes "warning"
default_severity refresh_reuse = codes "critical"
default_severity csrf_failure = codes "warning"
default_severity _ = codes "info"

unfoldable pub record_event : List Event → Action → Option ℕ → Fields → Option Text → List Event
record_event log action user_id detail severity =
    record {
      user_id = user_id;
      action = action;
      detail = scrub detail;
      severity = severity_or severity (default_severity action);
    }
    ∷ log
