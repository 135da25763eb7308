-- ===== src/Scopes/Checks.antt =====
-- quansec/core/scopes.py, `has_any`: the decision depends on the closure of the held side only.
use quansec_pqc_platform.Prelude.{
  ◌≡◌, refl, sym, ◌∙◌, ap₂, Bool, true, false, ◌&&◌, ◌||◌, none, some, List, [], ◌∷◌, Text, eq_text,
  any, arith, inl, inr, Option-cases,
}
use quansec_pqc_platform.Scopes.{
  Scope, tls_read, tls_admin, ssh_admin, ipsec_admin, system_admin, scope_name, find_scope, same,
  ScopeSet, no_scopes, expand, has_any, known, nonempty,
}
use quansec_pqc_platform.Scopes.Lookup.{find_scope-name, grants, expand-any, eq_text-scope_name}

-- One text of a required list is a known scope that the set `g` has.
pub is_met : ScopeSet → Text → Bool
is_met g t = elim (find_scope t) [ none ↦ false | some r ↦ g r ]

is_met_lem :
    (g : ScopeSet) (t : Text) → nonempty (λ r. g r && eq_text t (scope_name r)) ≡ is_met g t
unfolding is_met
is_met_lem g t = elim (Option-cases (find_scope t)) [
  | inl e ↦ simp (eq_text-scope_name, e) (rw (e, is_met) (ground arith))
  | inr (s, e) ↦ simp (eq_text-scope_name, e) (rw (e, is_met) (go s))
]
  where
    go : (s : Scope) → nonempty (λ r. g r && same s r) ≡ g s
    go tls_read = ground arith
    go _ = ground arith

-- `nonempty` distributes over the union of the tests.
nonempty-or : (g h : ScopeSet) → nonempty (λ r. g r || h r) ≡ (nonempty g || nonempty h)
nonempty-or g h = ground arith

and_or : (a b c : Bool) → (a && (b || c)) ≡ (a && b || a && c)
and_or a b c = ground arith

nonempty-known :
    (g : ScopeSet) (ts : List Text) → nonempty (λ r. g r && known ts r) ≡ any (is_met g) ts
unfolding known
nonempty-known g [] = ground arith
nonempty-known g (t ∷ ts) = simp and_or (
    nonempty-or (λ r. g r && eq_text t (scope_name r))
      (λ r. g r && any (λ u. eq_text u (scope_name r)) ts)
    ∙ ap₂ ◌||◌ (is_met_lem g t) (nonempty-known g ts))

is_met_none : (t : Text) → is_met no_scopes t ≡ false
unfolding is_met
is_met_none t = ground arith

any-is_met_none : (ts : List Text) → any (is_met no_scopes) ts ≡ false
any-is_met_none [] = refl
any-is_met_none (t ∷ ts) = ground (arith, is_met_none t, any-is_met_none ts)

-- A check passes exactly when some required text is a scope in the closure of the held texts.
pub has_any-expand :
    (held required : List Text) → has_any (some held) required ≡ any (is_met (expand held)) required
unfolding has_any
has_any-expand [] required = sym (any-is_met_none required)
has_any-expand (h ∷ hs) required = nonempty-known (expand (h ∷ hs)) required

-- The scopes that administer one protocol.
abbrev pub is_protocol_admin : Scope → Bool
is_protocol_admin tls_admin = true
is_protocol_admin ssh_admin = true
is_protocol_admin ipsec_admin = true
is_protocol_admin _ = false

grants_admin :
    (t : Text) (r : Scope)
    → is_protocol_admin r ≡ true
    → grants t r ≡ (eq_text t (scope_name r) || eq_text t (scope_name system_admin))
unfolding grants
grants_admin t r h = simp eq_text-scope_name (ground arith)

any-grants_admin :
    (ts : List Text) (r : Scope)
    → is_protocol_admin r ≡ true
    → any (λ t. grants t r) ts ≡ (
        any (λ t. eq_text t (scope_name r)) ts || any (λ t. eq_text t (scope_name system_admin)) ts)
any-grants_admin [] r h = refl
any-grants_admin (t ∷ ts) r h = ground (arith, any-grants_admin ts r, grants_admin t r)

pub is_met_name : (g : ScopeSet) (r : Scope) → is_met g (scope_name r) ≡ g r
unfolding is_met
is_met_name g r = rw (find_scope-name r, is_met)

-- A route that asks for one protocol's administration admits a caller exactly when the held texts
-- name that scope or system:admin; no other scope, read or probe, is enough.
pub has_any_no_escalation :
    (held : List Text) (r : Scope)
    → is_protocol_admin r ≡ true
    → has_any (some held) (scope_name r ∷ []) ≡ (
        any (λ t. eq_text t (scope_name r)) held
        || any (λ t. eq_text t (scope_name system_admin)) held)
has_any_no_escalation held r h =
    has_any-expand held (scope_name r ∷ [])
    ∙ ground (arith, is_met_name (expand held) r, expand-any held r, any-grants_admin held r)
