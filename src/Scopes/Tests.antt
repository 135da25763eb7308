-- ===== src/Scopes/Tests.antt =====
-- Concrete roles, portals and checks.
use quansec_pqc_platform.Prelude.{
  ◌≡◌, refl, true, false, some, List, [], ◌∷◌, Text, eq_text, codes, map,
}
use quansec_pqc_platform.Scopes.{
  Scope, ScopeSet, tls_read, tls_probe, tls_admin, ssh_read, ipsec_read, scope_name, expand,
  has_any, scopes_for,
}
use quansec_pqc_platform.Scopes.Checks.{has_any_no_escalation}
use quansec_pqc_platform.Scopes.Closure.{IsClosed, Names, expand_least}

scopes_for_operator :
    scopes_for (some (codes " Operator ")) (some (codes "TLS"))
    ≡ map scope_name (ipsec_read ∷ ssh_read ∷ tls_admin ∷ tls_probe ∷ tls_read ∷ [])
unfolding scopes_for eq_text
scopes_for_operator = refl

has_any_no_escalation_example :
    has_any (some (codes "tls:probe" ∷ codes "ssh:admin" ∷ [])) (codes "tls:admin" ∷ []) ≡ false
unfolding eq_text
has_any_no_escalation_example =
    has_any_no_escalation (codes "tls:probe" ∷ codes "ssh:admin" ∷ []) tls_admin refl

abbrev held : List Text
held = codes "tls:admin" ∷ codes "nonsense" ∷ []

expand_least_example :
    IsClosed (expand held)
    × Names (expand held) held
    × ((g : ScopeSet) → IsClosed g → Names g held → (r : Scope) → expand held r ≡ true → g r ≡ true)
expand_least_example = expand_least held
