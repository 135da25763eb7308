-- ===== src/Auth/Principals.antt =====
-- quansec/core/auth.py: the scopes of a principal are those of the credential and of the user's row today.
use quansec_pqc_platform.Prelude.{
  ◌≡◌, refl, Bool, ◌&&◌, none, some, List, Text, codes, arith, ap, ◌∙◌, Option-cases, ◌⊎◌, inl, inr,
}
use quansec_pqc_platform.Json.{Fields, get_field}
use quansec_pqc_platform.Scopes.{
  Scope, ScopeSet, expand, inter, known, scopes_for, normalise, or_empty,
}
use quansec_pqc_platform.Scopes.Closure.{expand-IsClosed, inter-IsClosed, expand-sort_scopes_closed}
use quansec_pqc_platform.Scopes.Roles.{
  known-sort_scopes, granted, scopes_for_exact, expand-scopes_for,
}
use quansec_pqc_platform.Tokens.Rows.{User}
use quansec_pqc_platform.AccessTokens.{int_of}
use quansec_pqc_platform.Http.{Db, Request, ok, http_error}
use quansec_pqc_platform.Auth.{
  Principal, principal, narrowed, claimed, find_user, principal_from_claims, text_or_none,
  access_token,
}

-- Narrowing intersects, scope by scope.
pub known-narrowed :
    (held : List Text) (u : User) (s : Scope)
    → known (narrowed held u) s
      ≡ (expand held s && granted (normalise u.role) (normalise (or_empty u.portal)) s)
known-narrowed held u s =
    known-sort_scopes (inter (expand held) (expand (scopes_for (some u.role) u.portal))) s
    ∙ ap (λ (b : Bool). expand held s && b)
        (expand-scopes_for (some u.role) u.portal s ∙ scopes_for_exact (some u.role) u.portal s)

-- What a check on a narrowed list sees.
pub expand-narrowed :
    (held : List Text) (u : User) (s : Scope)
    → expand (narrowed held u) s
      ≡ (expand held s && granted (normalise u.role) (normalise (or_empty u.portal)) s)
expand-narrowed held u s =
    let now = scopes_for (some u.role) u.portal in
    ap (λ (g : ScopeSet). g s)
      (expand-sort_scopes_closed (inter (expand held) (expand now))
        (inter-IsClosed (expand held) (expand now) (expand-IsClosed held) (expand-IsClosed now)))
    ∙ ap (λ (b : Bool). expand held s && b)
        (expand-scopes_for (some u.role) u.portal s ∙ scopes_for_exact (some u.role) u.portal s)

-- A principal whose scopes are narrowed from `held` by the row of `u` in the database.
pub record IsNarrowed (held : List Text) (u : User) (p : Principal) : Type 0 where
  pub same_id : p.id ≡ u.id
  pub same_role : p.role ≡ u.role
  pub exact :
      (s : Scope)
      → known p.scopes s
        ≡ (expand held s && granted (normalise u.role) (normalise (or_empty u.portal)) s)

-- Verified claims give a principal exactly when their subject is a user of today's table; its scopes
-- are those that both the claims and that user's present role and portal grant. Otherwise the
-- request is refused with 401.
pub principal_from_claims_exact :
    (r : Request) (c : Fields) (db : Db)
    → ((find_user db.users (int_of (get_field (codes "sub") c)) ≡ none)
        × ((principal_from_claims r c db).0 ≡ http_error 401 (codes "Invalid or expired token")))
      ⊎ ((u : User) × (p : Principal) × (find_user db.users (int_of (get_field (codes "sub") c))
            ≡ some u)
          × (principal_from_claims r c db ≡ (ok p, db))
          × IsNarrowed (claimed (get_field (codes "scopes") c)) u p)
unfolding principal_from_claims
principal_from_claims_exact r c db =
    elim (Option-cases (find_user db.users (int_of (get_field (codes "sub") c)))) [
      | inl e ↦ inl (e, ground arith)
      | inr (u, e) ↦ inr (
        u,
        principal u (narrowed (claimed (get_field (codes "scopes") c)) u)
            (access_token (text_or_none (get_field (codes "jti") c))),
        e,
        rw (e, principal_from_claims) refl,
        record {
          same_id = refl;
          same_role = refl;
          exact = known-narrowed (claimed (get_field (codes "scopes") c)) u;
        },
      )
    ]
