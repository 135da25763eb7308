-- ===== src/Scopes/Lookup.antt =====
-- quansec/core/scopes.py: what one text of a list grants, and `expand` as a search of the list.
use quansec_pqc_platform.Prelude.{
  ◌≡◌, refl, ◌∙◌, true, false, ◌||◌, none, some, List, [], ◌∷◌, Text, eq_text, eq_text_iff, any,
  arith, inl, inr, Option-cases,
}
use quansec_pqc_platform.Scopes.{
  Scope, tls_read, tls_probe, tls_admin, ssh_read, ssh_admin, ipsec_read, ipsec_admin, system_admin,
  scope_name, find_scope, same, ScopeSet, no_scopes, implies, expand, expand_from, expand_step,
}

pub find_scope-name : (s : Scope) → find_scope (scope_name s) ≡ some s
unfolding find_scope eq_text
find_scope-name tls_read = refl
find_scope-name _ = refl

-- What one held text grants.
unfoldable pub grants : Text → ScopeSet
grants t r = elim (find_scope t) [ none ↦ false | some s ↦ same s r || implies s r ]

pub expand_from-any :
    (g : ScopeSet) (ts : List Text) (r : Scope)
    → expand_from g ts r ≡ (g r || any (λ t. grants t r) ts)
unfolding expand_from expand_step grants
expand_from-any g [] r = ground arith
expand_from-any g (t ∷ ts) r = expand_from-any (expand_step g t) ts r ∙ ground arith

pub expand-any : (ts : List Text) (r : Scope) → expand ts r ≡ any (λ t. grants t r) ts
unfolding expand
expand-any ts r = expand_from-any no_scopes ts r

pub eq_text-name : (s r : Scope) → eq_text (scope_name s) (scope_name r) ≡ same s r
unfolding eq_text
eq_text-name tls_read tls_read = refl
eq_text-name tls_read _ = refl
eq_text-name tls_probe tls_read = refl
eq_text-name tls_probe _ = refl
eq_text-name tls_admin tls_read = refl
eq_text-name tls_admin _ = refl
eq_text-name ssh_read tls_read = refl
eq_text-name ssh_read _ = refl
eq_text-name ssh_admin tls_read = refl
eq_text-name ssh_admin _ = refl
eq_text-name ipsec_read tls_read = refl
eq_text-name ipsec_read _ = refl
eq_text-name ipsec_admin tls_read = refl
eq_text-name ipsec_admin _ = refl
eq_text-name system_admin tls_read = refl
eq_text-name system_admin _ = refl

pub find_scope_sound :
    (t : Text) (s : Scope) → find_scope t ≡ some s → eq_text t (scope_name s) ≡ true
unfolding find_scope
find_scope_sound t s h = ground arith

pub find_scope-none :
    (t : Text) (r : Scope) → find_scope t ≡ none → eq_text t (scope_name r) ≡ false
unfolding find_scope
find_scope-none t tls_read h = ground arith
find_scope-none t _ h = ground arith

-- A text is the name of `r` when the lookup finds `r`.
pub eq_text-scope_name :
    (t : Text) (r : Scope)
    → eq_text t (scope_name r) ≡ elim (find_scope t) [ none ↦ false | some s ↦ same s r ]
eq_text-scope_name t r = elim (Option-cases (find_scope t)) [
  | inl e ↦ rw e (find_scope-none t r e)
  | inr (s, e) ↦
      rw e (rw ((eq_text_iff t (scope_name s)).0 (find_scope_sound t s e)) (eq_text-name s r))
]
