-- ===== src/ApiKeys/Tests.antt =====
-- A key for reading TLS is created, used and revoked.
use quansec_pqc_platform.Prelude.{◌≡◌, refl, ◌⊎◌, false, none, some, [], ◌∷◌, Text, codes, any}
use quansec_pqc_platform.Http.{KeyRow, Db, ok, http_error}
use quansec_pqc_platform.Http.Samples.{world, plain}
use quansec_pqc_platform.Auth.{Principal, access_token, find_key}
use quansec_pqc_platform.ApiKeys.{
  Printing, ApiKeyCreate, Created, create_api_key, created, new_key, revoke_api_key, revocable,
}
use quansec_pqc_platform.ApiKeys.Revocation.{Outcome, revoke_api_key_exact}

abbrev printing : Printing
printing = record { isoformat = λ t. []; repr = λ ts. [] }

abbrev payload : ApiKeyCreate
payload = record {
  name = codes "ci";
  scopes = codes "tls:read" ∷ [];
  protocol = some (codes "tls");
  expires_in_days = none;
  never_expires = false;
}

abbrev caller : Principal
caller = record {
  id = 3;
  email = codes "c@x";
  role = codes "operator";
  portal = some (codes "tls");
  created_at = 0;
  scopes = codes "tls:admin" ∷ [];
  auth_method = access_token none;
}

abbrev row : KeyRow
row = new_key plain payload 1 3 (codes "abc") (codes "tls:read" ∷ []) (some 7776100) 100

abbrev key : Created
key = created row (codes "abc") (codes "tls:read" ∷ [])

abbrev after : Db
after = (create_api_key printing plain payload caller (codes "abc") 100 world).1

abbrev stocked : Db
stocked = record world { api_keys = row ∷ [] }

revoke_api_key_exact_example :
    ((any (revocable 1 3) stocked.api_keys ≡ false)
      × (revoke_api_key 1 caller 300 stocked
          ≡ (http_error 404 (codes "Key not found or already revoked"), stocked)))
    ⊎ (((revoke_api_key 1 caller 300 stocked).0 ≡ ok tt)
        × ((revoke_api_key 1 caller 300 stocked).1.users ≡ stocked.users)
        × ((revoke_api_key 1 caller 300 stocked).1.tokens ≡ stocked.tokens)
        × ((token : Text) (k : KeyRow)
            → find_key stocked.api_keys (plain token) ≡ some k
            → Outcome plain 1 3 token k (revoke_api_key 1 caller 300 stocked).1))
revoke_api_key_exact_example = revoke_api_key_exact plain 1 caller 300 stocked (refl, tt)
