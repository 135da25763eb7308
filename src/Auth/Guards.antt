-- ===== src/Auth/Guards.antt =====
-- quansec/core/auth.py: API keys and the route guards.
use quansec_pqc_platform.Prelude.{
  ℕ, ◌≡◌, refl, ◌&&◌, Option, none, some, List, [], ◌∷◌, ◌++◌, Text, codes, join, arith,
  if◌then◌else◌, ◌∙◌, Option-cases, Bool-cases, ◌⊎◌, inl, inr,
}
use quansec_pqc_platform.Scopes.{Scope, expand, normalise, or_empty, has_any, scope_name}
use quansec_pqc_platform.Scopes.Checks.{has_any-expand, is_met_name}
use quansec_pqc_platform.Scopes.Roles.{granted}
use quansec_pqc_platform.Tokens.Rows.{User}
use quansec_pqc_platform.Http.{KeyRow, Db, Request, ok, http_error}
use quansec_pqc_platform.Auth.{
  Principal, principal, narrowed, principal_from_api_key, or_no_scopes, find_key, owner,
  has_expired, Method, api_key, require_scope,
}
use quansec_pqc_platform.Auth.Principals.{IsNarrowed, known-narrowed, expand-narrowed}

-- All tables but the audit log are as before.
pub record OnlyLogged (db db' : Db) : Type 0 where
  pub same_users : db'.users ≡ db.users
  pub same_tokens : db'.tokens ≡ db.tokens
  pub same_keys : db'.api_keys ≡ db.api_keys
  pub same_limiter : db'.limiter ≡ db.limiter

abbrev pub usable : Option (KeyRow × User) → ℕ → Option (KeyRow × User)
usable none now = none
usable (some (k, u)) now = if has_expired k.expires_at now then none else some (k, u)

pub principal_from_api_key_exact :
    (sha256 : Text → Text) (r : Request) (token : Text) (now : ℕ) (db : Db)
    → ((usable (owner db.users (find_key db.api_keys (sha256 token))) now ≡ none)
        × ((principal_from_api_key sha256 r token now db).0
            ≡ http_error 401 (codes "Invalid or revoked API key"))
        × OnlyLogged db (principal_from_api_key sha256 r token now db).1)
      ⊎ ((k : KeyRow) × (u : User) × (p : Principal) × (usable
              (owner db.users (find_key db.api_keys (sha256 token)))
              now
            ≡ some (k, u))
          × ((principal_from_api_key sha256 r token now db).0 ≡ ok p)
          × IsNarrowed (or_no_scopes k.scopes) u p)
unfolding principal_from_api_key
principal_from_api_key_exact sha256 r token now db =
    elim (Option-cases (owner db.users (find_key db.api_keys (sha256 token)))) [
      | inl e ↦ inl (
        ground (arith, e),
        rw (e, principal_from_api_key) refl,
        rw (e, principal_from_api_key)
            (record {
              same_users = refl;
              same_tokens = refl;
              same_keys = refl;
              same_limiter = refl;
            }),
      )
      | inr ((k, u), e) ↦ elim (Bool-cases (has_expired k.expires_at now)) [
        | inl late ↦ inl (
          rw e (rw late refl),
          rw (e, principal_from_api_key) (rw late refl),
          rw (e, principal_from_api_key)
              (rw late (record {
                same_users = refl;
                same_tokens = refl;
                same_keys = refl;
                same_limiter = refl;
              })),
        )
        | inr early ↦ inr (
          k,
          u,
          principal u (narrowed (or_no_scopes k.scopes) u) (api_key k.id),
          rw e (rw early refl),
          rw (e, principal_from_api_key) (rw early refl),
          record {
            same_id = refl;
            same_role = refl;
            exact = known-narrowed (or_no_scopes k.scopes) u;
          },
        )
      ]
    ]

-- A route that requires the scope `s` admits a principal of the user `u` exactly when its credential
-- grants `s` and the user's present role and portal grant `s`; a refusal is 403, and changes nothing
-- but the audit log. So a demoted administrator is refused with a token that still names system:admin.
pub require_scope_exact :
    (s : Scope) (r : Request) (held : List Text) (u : User) (m : Method) (db : Db)
    → let p = principal u (narrowed held u) m in
      let grant = expand held s && granted (normalise u.role) (normalise (or_empty u.portal)) s in
      ((require_scope (scope_name s ∷ []) r p db).0
        ≡ (if grant then ok p else http_error 403 (codes "Requires one of: " ++ scope_name s)))
      × OnlyLogged db (require_scope (scope_name s ∷ []) r p db).1
unfolding require_scope join
require_scope_exact s r held u m db =
    let grant = expand held s && granted (normalise u.role) (normalise (or_empty u.portal)) s in
    let test : has_any (some (narrowed held u)) (scope_name s ∷ []) ≡ grant =
      has_any-expand (narrowed held u) (scope_name s ∷ [])
      ∙ ground (arith, is_met_name (expand (narrowed held u)) s, expand-narrowed held u s) in
    elim (Bool-cases grant) [
      | inl e ↦
          let pass = test ∙ e in
          (
            rw (pass, require_scope) (rw e refl),
            rw (pass, require_scope)
                (record {
                  same_users = refl;
                  same_tokens = refl;
                  same_keys = refl;
                  same_limiter = refl;
                }),
          )
      | inr e ↦
          let fail = test ∙ e in
          (
            rw (fail, require_scope) (rw e refl),
            rw (fail, require_scope)
                (record {
                  same_users = refl;
                  same_tokens = refl;
                  same_keys = refl;
                  same_limiter = refl;
                }),
          )
    ]
