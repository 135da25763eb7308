-- ===== src/Scopes/Roles.antt =====
-- quansec/core/scopes.py, `scopes_for`: what each role and portal is granted.
use quansec_pqc_platform.Prelude.{
  ℕ, ◌≡◌, refl, sym, ap, ◌∙◌, Bool, true, false, ◌&&◌, ◌||◌, Option, List, [], ◌∷◌, map, Text,
  codes, eq_text, eq_text_iff, any, keep, arith,
}
use quansec_pqc_platform.Scopes.{
  Scope, tls_read, tls_probe, tls_admin, ssh_read, ssh_admin, ipsec_read, ipsec_admin, system_admin,
  scope_name, all_scopes, same, ScopeSet, implies, expand, sort_scopes, known, role_scopes,
  portal_admin_scope, with_portal, scopes_for, normalise, or_empty,
}
use quansec_pqc_platform.Scopes.Lookup.{eq_text-name}
use quansec_pqc_platform.Scopes.Closure.{
  expand-sort_scopes, expand-sort_scopes_closed, expand-IsClosed,
}

known-map :
    (g : ScopeSet) (s : Scope) (xs : List Scope)
    → known (map scope_name (keep g xs)) s ≡ any (λ r. g r && same r s) xs
unfolding known
known-map g s [] = refl
known-map g s (x ∷ xs) = ground (arith, known-map g s xs, eq_text-name x s)

-- A sorted list names exactly the members of its set.
pub known-sort_scopes : (g : ScopeSet) (s : Scope) → known (sort_scopes g) s ≡ g s
known-sort_scopes g s = known-map g s all_scopes ∙ go s
  where
    go : (s : Scope) → any (λ r. g r && same r s) all_scopes ≡ g s
    go tls_read = ground arith
    go _ = ground arith

abbrev pub is_read : Scope → Bool
is_read tls_read = true
is_read ssh_read = true
is_read ipsec_read = true
is_read _ = false

-- What the operator of a protocol's portal holds beyond reading.
abbrev pub administers : Text → Scope → Bool
administers portal tls_admin = eq_text portal (codes "tls")
administers portal tls_probe = eq_text portal (codes "tls")
administers portal ssh_admin = eq_text portal (codes "ssh")
administers portal ipsec_admin = eq_text portal (codes "ipsec")
administers portal _ = false

tls-ne-ssh : (p : Text) → eq_text p (codes "tls") ≡ true → eq_text p (codes "ssh") ≡ false
unfolding eq_text
tls-ne-ssh p h = rw ((eq_text_iff p (codes "tls")).0 h) refl

tls-ne-ipsec : (p : Text) → eq_text p (codes "tls") ≡ true → eq_text p (codes "ipsec") ≡ false
unfolding eq_text
tls-ne-ipsec p h = rw ((eq_text_iff p (codes "tls")).0 h) refl

ssh-ne-ipsec : (p : Text) → eq_text p (codes "ssh") ≡ true → eq_text p (codes "ipsec") ≡ false
unfolding eq_text
ssh-ne-ipsec p h = rw ((eq_text_iff p (codes "ssh")).0 h) refl

-- The grant, with the role and the portal in normal form.
abbrev pub granted : Text → Text → Scope → Bool
granted role portal s =
    eq_text role (codes "admin")
    || eq_text role (codes "operator") && (is_read s || administers portal s)

closed_grant : Text → Text → Scope → Bool
closed_grant role portal s =
    any (λ r. with_portal (role_scopes role) portal r && (same r s || implies r s)) all_scopes

closed_grant_blank : (role : Text) (s : Scope) → closed_grant role [] s ≡ granted role [] s
unfolding closed_grant with_portal role_scopes eq_text
closed_grant_blank role tls_read = ground arith
closed_grant_blank role _ = ground arith

closed_grant_portal :
    (role : Text) (c : ℕ) (p : Text) (s : Scope)
    → closed_grant role (c ∷ p) s ≡ granted role (normalise (c ∷ p)) s
unfolding closed_grant with_portal role_scopes portal_admin_scope
closed_grant_portal role c p tls_read =
    let q = normalise (c ∷ p) in ground (arith, tls-ne-ssh q, tls-ne-ipsec q, ssh-ne-ipsec q)
closed_grant_portal role c p _ =
    let q = normalise (c ∷ p) in ground (arith, tls-ne-ssh q, tls-ne-ipsec q, ssh-ne-ipsec q)

closed_grant_lem :
    (role p : Text) (s : Scope) → closed_grant role p s ≡ granted role (normalise p) s
unfolding normalise
closed_grant_lem role [] s = closed_grant_blank role s
closed_grant_lem role (c ∷ p) s = closed_grant_portal role c p s

-- A role and portal are granted exactly this, after both are stripped and lowered: an admin has every
-- scope; an operator has the three read scopes and, on a protocol's own portal, that protocol's admin
-- scope and what it implies; any other role has nothing, whatever the portal.
pub scopes_for_exact :
    (role portal : Option Text) (s : Scope)
    → known (scopes_for role portal) s
      ≡ granted (normalise (or_empty role)) (normalise (or_empty portal)) s
unfolding scopes_for closed_grant
scopes_for_exact role portal s =
    let g = with_portal (role_scopes (normalise (or_empty role))) (or_empty portal) in
    known-sort_scopes (expand (sort_scopes g)) s
    ∙ expand-sort_scopes g s
    ∙ closed_grant_lem (normalise (or_empty role)) (or_empty portal) s

-- The granted list is closed: expanding it gives its own members.
pub expand-scopes_for :
    (role portal : Option Text) (s : Scope)
    → expand (scopes_for role portal) s ≡ known (scopes_for role portal) s
unfolding scopes_for
expand-scopes_for role portal s =
    let ts =
      sort_scopes (with_portal (role_scopes (normalise (or_empty role))) (or_empty portal)) in
    ap (λ (g : ScopeSet). g s) (expand-sort_scopes_closed (expand ts) (expand-IsClosed ts))
    ∙ sym (known-sort_scopes (expand ts) s)

none_known : (g : ScopeSet) → ((s : Scope) → g s ≡ false) → sort_scopes g ≡ []
none_known g h = ground (
  arith,
  h ipsec_admin,
  h ipsec_read,
  h ssh_admin,
  h ssh_read,
  h system_admin,
  h tls_admin,
  h tls_probe,
  h tls_read,
)
