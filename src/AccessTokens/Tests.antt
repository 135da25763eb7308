-- ===== src/AccessTokens/Tests.antt =====
-- Minting and reading one token, with a library that verifies that token.
use quansec_pqc_platform.Prelude.{
  ◌≡◌, refl, true, false, none, some, List, [], ◌∷◌, Text, eq_text, codes, arith,
}
use quansec_pqc_platform.Json.{pos, negsuc, Fields, arr, get_field, strings}
use quansec_pqc_platform.Scopes.{expand, sort_scopes, nonempty}
use quansec_pqc_platform.AccessTokens.Decimal.{parse_int}
use quansec_pqc_platform.AccessTokens.{
  Jwt, JwtSettings, verified, claims_of, int_of, decode_access_token, create_access_token,
}
use quansec_pqc_platform.AccessTokens.RoundTrip.{IsFilled, minted_now, minted_accepted}

abbrev site : JwtSettings
site = record { issuer = codes "quansec"; audience = codes "quansec-api"; ttl_minutes = 15 }

-- A library that signs nothing and knows the dictionary that it is built from.
abbrev blank : Jwt
blank = record { encode = λ c. []; decode = λ t i a now. verified Fields.end }

abbrev claims_for : List Text → Fields
claims_for scopes =
    minted_now blank site 7 (codes "a@x") (codes "operator") (codes "tls") scopes none 100
      (codes "u")

abbrev library : List Text → Jwt
library scopes = record { encode = λ c. []; decode = λ t i a now. verified (claims_for scopes) }

abbrev filled_for :
    (scopes : List Text)
    → IsFilled (library scopes) site (codes "operator") (codes "tls") (codes "u")
filled_for scopes = record {
  has_role = refl;
  has_portal = refl;
  has_jti = refl;
  has_issuer = refl;
  has_audience = refl;
}

abbrev reader : List Text
reader = codes "tls:read" ∷ []

reader_known : nonempty (expand reader) ≡ true
unfolding expand eq_text
reader_known = refl

unknown_scope : nonempty (expand (codes "tls:write" ∷ [])) ≡ false
unfolding expand eq_text
unknown_scope = refl

parse_int_forms :
    (parse_int (codes " 1_0 ") ≡ some (pos 10))
    × (parse_int (codes "-3") ≡ some (negsuc 2))
    × (parse_int (codes "1__0") ≡ none)
unfolding parse_int
parse_int_forms = (refl, refl, refl)

minted_accepted_example :
    (decode_access_token
        (library reader)
        site
        (create_access_token
          (library reader)
          site
          7
          (codes "a@x")
          (codes "operator")
          (codes "tls")
          reader
          none
          100
          (codes "u")).token
        200
      ≡ claims_of (claims_for reader))
    × (int_of (get_field (codes "sub") (claims_for reader)) ≡ some (pos 7))
    × (get_field (codes "scopes") (claims_for reader) ≡ arr (strings (sort_scopes (expand reader))))
minted_accepted_example =
    minted_accepted (library reader) site 7 (codes "a@x") (codes "operator") (codes "tls") reader
      none 100 (codes "u") 200 (λ now e x i a h. refl) (filled_for reader) reader_known
      (omega arith)
