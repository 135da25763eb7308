-- ===== src/AccessTokens.antt =====
-- quansec/core/tokens.py, the access tokens. The JWT library is the record `Jwt`: `encode` signs a claims
-- dictionary and `decode` gives what `jwt.decode` returns or raises, for the pinned algorithm, the
-- secret, and the issuer and audience that are asked for. Time is in seconds.
pub mod Decimal
pub mod Decode
pub mod RoundTrip
mod Tests
use Decimal.{decimal, parse_int}
use quansec_pqc_platform.Prelude.{
  ℕ, ◌+◌, ◌*◌, Bool, true, false, ◌&&◌, ◌||◌, not, Option, none, some, List, [], ◌∷◌, Text, codes,
  keep, any, lower, eq_text, join, ◌++◌, if◌then◌else◌, contains_text,
}
use quansec_pqc_platform.Json.{
  ℤ, pos, Value, Items, Fields, null, flag, num, str, arr, dict, nil, cons, end, field, get_field,
  strings, nat,
}
use quansec_pqc_platform.Scopes.{expand, sort_scopes}

-- What `jwt.decode` does with a token.
pub data Decoded : Type 0 where
  verified : Fields → Decoded
  expired_signature : Decoded
  claims_error : Text → Decoded
  jwt_error : Decoded

pub record Jwt : Type 0 where
  pub encode : Fields → Text
  pub decode : Text → Text → Text → ℕ → Decoded

pub record JwtSettings : Type 0 where
  pub issuer : Text
  pub audience : Text
  pub ttl_minutes : ℕ

-- TokenError.reason
pub data TokenError : Type 0 where
  expired_token invalid_audience invalid_issuer invalid_claims malformed_token : TokenError
  missing_claims : List Text → TokenError
  wrong_token_type invalid_subject invalid_scopes : TokenError

-- The machine-readable reason, for the audit log.
abbrev pub reason_text : TokenError → Text
reason_text expired_token = codes "expired_token"
reason_text invalid_audience = codes "invalid_audience"
reason_text invalid_issuer = codes "invalid_issuer"
reason_text invalid_claims = codes "invalid_claims"
reason_text malformed_token = codes "malformed_token"
reason_text (missing_claims ks) = codes "missing_claims:" ++ join (codes ",") ks
reason_text wrong_token_type = codes "wrong_token_type"
reason_text invalid_subject = codes "invalid_subject"
reason_text invalid_scopes = codes "invalid_scopes"

pub data Verdict : Type 0 where
  claims_of : Fields → Verdict
  token_error : TokenError → Verdict

abbrev pub required_claims : List Text
required_claims =
    codes "sub"
    ∷ codes "role"
    ∷ codes "scopes"
    ∷ codes "portal"
    ∷ codes "iat"
    ∷ codes "exp"
    ∷ codes "iss"
    ∷ codes "aud"
    ∷ codes "jti"
    ∷ []

-- value in (None, "", [])
abbrev pub is_blank : Value → Bool
is_blank null = true
is_blank (str []) = true
is_blank (arr nil) = true
is_blank _ = false

unfoldable pub missing : Fields → List Text
missing c = keep (λ k. is_blank (get_field k c)) required_claims

-- int(claims["sub"]): `none` is a TypeError or a ValueError.
abbrev pub int_of : Value → Option ℤ
int_of (num n) = some n
int_of (flag true) = some (pos 1)
int_of (flag false) = some (pos 0)
int_of (str t) = parse_int t
int_of _ = none

abbrev pub is_access : Value → Bool
is_access (str t) = eq_text t (codes "access")
is_access _ = false

abbrev pub is_list : Value → Bool
is_list (arr xs) = true
is_list _ = false

abbrev check_subject : Fields → Option ℤ → Verdict
check_subject c none = token_error invalid_subject
check_subject c (some n) =
    if is_list (get_field (codes "scopes") c) then claims_of c else token_error invalid_scopes

-- The checks after the library's.
unfoldable pub check_claims : Fields → List Text → Verdict
check_claims c [] =
    if is_access (get_field (codes "typ") c)
    then check_subject c (int_of (get_field (codes "sub") c))
    else token_error wrong_token_type
check_claims c (k ∷ ks) = token_error (missing_claims (k ∷ ks))

unfoldable pub on_decoded : Decoded → Verdict
unfolding check_claims missing
on_decoded (verified c) = check_claims c (missing c)
on_decoded expired_signature = token_error expired_token
on_decoded (claims_error detail) =
    if contains_text (codes "audience") (lower detail)
    then token_error invalid_audience
    else if contains_text (codes "issuer") (lower detail)
    then token_error invalid_issuer
    else token_error invalid_claims
on_decoded jwt_error = token_error malformed_token

pub record Minted : Type 0 where
  pub token : Text
  pub jti : Text
  pub expires_at : ℕ
  pub expires_in : ℕ
  pub scopes : List Text

abbrev pub ttl_or : Option ℕ → ℕ → ℕ
ttl_or none default = default
ttl_or (some m) default = m

module _ (j : Jwt) (s : JwtSettings) where
  unfoldable pub decode_access_token : Text → ℕ → Verdict
  unfolding on_decoded
  decode_access_token token now = on_decoded (j.decode token s.issuer s.audience now)

  abbrev pub minted_claims : ℕ → Text → Text → Text → List Text → ℕ → ℕ → Text → Fields
  minted_claims user_id email role portal scopes now expires_at jti =
      field (codes "sub") (str (decimal user_id)) (
        field (codes "email") (str email) (
          field (codes "role") (str role) (
            field (codes "portal") (str portal) (
              field (codes "scopes") (arr (strings (sort_scopes (expand scopes)))) (
                field (codes "iat") (nat now) (
                  field (codes "exp") (nat expires_at) (
                    field (codes "iss") (str s.issuer) (
                      field (codes "aud") (str s.audience) (
                        field (codes "jti") (str jti)
                          (field (codes "typ") (str (codes "access")) end))))))))))

  -- `jti` is the text of a fresh UUID.
  unfoldable pub create_access_token :
      ℕ → Text → Text → Text → List Text → Option ℕ → ℕ → Text → Minted
  create_access_token user_id email role portal scopes expires_in_minutes now jti =
      let ttl = ttl_or expires_in_minutes s.ttl_minutes in
      let expires_at = now + ttl * 60 in
      record {
        token = j.encode (minted_claims user_id email role portal scopes now expires_at jti);
        jti = jti;
        expires_at = expires_at;
        expires_in = ttl * 60;
        scopes = sort_scopes (expand scopes);
      }
