-- ===== src/Audit/Tests.antt =====
-- The detail of a login: the token's public identifier is redacted with the rest.
use quansec_pqc_platform.Prelude.{◌≡◌, refl, true, codes, lower, starts_with, contains_text}
use quansec_pqc_platform.Json.{Fields, str, dict, end, field}
use quansec_pqc_platform.Audit.{is_sensitive}

abbrev detail : Fields
detail = field (codes "email") (str (codes "a@x")) (
    field (codes "token_id") (str (codes "42"))
      (field (codes "inner") (dict (field (codes "X-CSRF-Token") (str (codes "v")) end)) end))

token_id_redacted : is_sensitive (codes "token_id") ≡ true
unfolding is_sensitive contains_text starts_with lower
token_id_redacted = refl
