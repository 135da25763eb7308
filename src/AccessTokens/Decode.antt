-- ===== src/AccessTokens/Decode.antt =====
-- quansec/core/tokens.py, `decode_access_token`: when a token is accepted.
use quansec_pqc_platform.Prelude.{
  ℕ, ◌≡◌, refl, ◌↔◌, true, false, List, [], ◌∷◌, Text, codes, arith, is_none, ap, subst, ◌∙◌,
}
use quansec_pqc_platform.Json.{Fields, get_field}
use quansec_pqc_platform.AccessTokens.{
  Jwt, JwtSettings, Decoded, verified, expired_signature, claims_error, jwt_error, claims_of,
  missing, int_of, is_access, is_list, check_claims, on_decoded, decode_access_token,
}

-- What the code asks of claims that the library has verified.
pub record Accepts (c : Fields) : Type 0 where
  pub complete : missing c ≡ []
  pub access : is_access (get_field (codes "typ") c) ≡ true
  pub subject : is_none (int_of (get_field (codes "sub") c)) ≡ false
  pub scopes : is_list (get_field (codes "scopes") c) ≡ true

check_claims-Accepts :
    (c c' : Fields) (ks : List Text)
    → missing c ≡ ks
    → check_claims c ks ≡ claims_of c'
    → (c ≡ c') × Accepts c
unfolding check_claims
check_claims-Accepts c c' [] m e = (
  ground arith,
  record { complete = m; access = ground arith; subject = ground arith; scopes = ground arith },
)
check_claims-Accepts c c' (k ∷ ks) m e = absurd (ground arith)

on_decoded-Accepts :
    (d : Decoded) (c : Fields) → on_decoded d ≡ claims_of c → (d ≡ verified c) × Accepts c
unfolding on_decoded
on_decoded-Accepts (verified c') c e =
    let (same, a) = check_claims-Accepts c' c (missing c') refl e in
    (ap verified same, subst Accepts same a)
on_decoded-Accepts expired_signature c e = absurd (ground arith)
on_decoded-Accepts (claims_error t) c e = absurd (ground arith)
on_decoded-Accepts jwt_error c e = absurd (ground arith)

Accepts-check : (c : Fields) → Accepts c → on_decoded (verified c) ≡ claims_of c
unfolding on_decoded check_claims
Accepts-check c a = rw a.complete (ground (arith, a.access, a.subject, a.scopes))

module _ (j : Jwt) (s : JwtSettings) where
  -- A token is accepted with claims `c` exactly when the library verifies it with those claims for the
  -- configured issuer and audience, no required claim is missing or blank, the type is access, the
  -- subject reads as an integer and the scopes are a list.
  pub accepted_iff :
      (token : Text) (now : ℕ) (c : Fields)
      → (decode_access_token j s token now ≡ claims_of c)
        ↔ ((j.decode token s.issuer s.audience now ≡ verified c) × Accepts c)
  unfolding decode_access_token
  accepted_iff token now c = (
    λ e. on_decoded-Accepts (j.decode token s.issuer s.audience now) c e,
    λ (v, a). ap on_decoded v ∙ Accepts-check c a,
  )
