-- ===== src/Scopes.antt =====
-- quansec/core/scopes.py: the authorization vocabulary, implication, and the scopes of a role and portal.
-- A scope string is a text; a `frozenset` of known scopes is its characteristic function.
pub mod Lookup
pub mod Checks
pub mod Closure
pub mod Roles
mod Tests
use quansec_pqc_platform.Prelude.{
  ◌≡◌, refl, Bool, true, false, ◌&&◌, ◌||◌, Option, none, some, List, [], ◌∷◌, map, Text, codes,
  eq_text, truthy, strip, lower, any, keep, find, if◌then◌else◌,
}

pub data Scope : Type 0 where
  tls_read tls_probe tls_admin ssh_read ssh_admin ipsec_read ipsec_admin system_admin : Scope

-- The string constants.
abbrev pub scope_name : Scope → Text
scope_name tls_read = codes "tls:read"
scope_name tls_probe = codes "tls:probe"
scope_name tls_admin = codes "tls:admin"
scope_name ssh_read = codes "ssh:read"
scope_name ssh_admin = codes "ssh:admin"
scope_name ipsec_read = codes "ipsec:read"
scope_name ipsec_admin = codes "ipsec:admin"
scope_name system_admin = codes "system:admin"

-- ALL_SCOPES, in the order of `sorted`.
abbrev pub all_scopes : List Scope
all_scopes =
    ipsec_admin ∷ ipsec_read ∷ ssh_admin ∷ ssh_read ∷ system_admin ∷ tls_admin ∷ tls_probe
    ∷ tls_read ∷ []

-- `none` is `scope not in ALL_SCOPES`.
unfoldable pub find_scope : Text → Option Scope
find_scope t = find (λ s. eq_text t (scope_name s)) all_scopes

abbrev pub same : Scope → Scope → Bool
same tls_read tls_read = true
same tls_probe tls_probe = true
same tls_admin tls_admin = true
same ssh_read ssh_read = true
same ssh_admin ssh_admin = true
same ipsec_read ipsec_read = true
same ipsec_admin ipsec_admin = true
same system_admin system_admin = true
same _ _ = false

abbrev pub ScopeSet : Type 0
ScopeSet = Scope → Bool

abbrev pub no_scopes : ScopeSet
no_scopes s = false

abbrev pub add : ScopeSet → Scope → ScopeSet
add g s r = g r || same s r

abbrev pub union : ScopeSet → ScopeSet → ScopeSet
union g h r = g r || h r

abbrev pub inter : ScopeSet → ScopeSet → ScopeSet
inter g h r = g r && h r

-- bool(s)
abbrev pub nonempty : ScopeSet → Bool
nonempty g = any g all_scopes

-- sorted(s)
abbrev pub sort_scopes : ScopeSet → List Text
sort_scopes g = map scope_name (keep g all_scopes)

-- IMPLIES.get(scope, frozenset())
abbrev pub implies : Scope → ScopeSet
implies system_admin r = true
implies tls_admin tls_read = true
implies tls_admin tls_probe = true
implies tls_probe tls_read = true
implies ssh_admin ssh_read = true
implies ipsec_admin ipsec_read = true
implies _ _ = false

-- One round of the loop of `expand`.
unfoldable pub expand_step : ScopeSet → Text → ScopeSet
expand_step result scope = elim (find_scope scope) [
  | none ↦ result
  | some s ↦ union (add result s) (implies s)
]

unfoldable pub expand_from : ScopeSet → List Text → ScopeSet
expand_from result [] = result
expand_from result (scope ∷ rest) = expand_from (expand_step result scope) rest

unfoldable pub expand : List Text → ScopeSet
unfolding expand_from expand_step find_scope
expand scopes = expand_from no_scopes scopes

-- {scope for scope in required if scope in ALL_SCOPES}
unfoldable pub known : List Text → ScopeSet
known required r = any (λ t. eq_text t (scope_name r)) required

unfoldable pub has_any : Option (List Text) → List Text → Bool
unfolding expand known
has_any none required = false
has_any (some []) required = false
has_any (some (h ∷ hs)) required = nonempty (inter (expand (h ∷ hs)) (known required))

-- _ROLE_SCOPES.get(role, frozenset())
unfoldable pub role_scopes : Text → ScopeSet
role_scopes role =
    if eq_text role (codes "admin")
    then add no_scopes system_admin
    else if eq_text role (codes "operator")
    then add (add (add no_scopes tls_read) ssh_read) ipsec_read
    else no_scopes

-- _PORTAL_ADMIN_SCOPE.get(portal)
unfoldable pub portal_admin_scope : Text → Option Scope
portal_admin_scope portal =
    if eq_text portal (codes "tls")
    then some tls_admin
    else if eq_text portal (codes "ssh")
    then some ssh_admin
    else if eq_text portal (codes "ipsec")
    then some ipsec_admin
    else none

-- (text or "").strip().lower()
abbrev pub or_empty : Option Text → Text
or_empty none = []
or_empty (some t) = t

unfoldable pub normalise : Text → Text
unfolding strip lower
normalise t = lower (strip t)

-- `if module_admin: granted.add(module_admin)`
abbrev add_admin : ScopeSet → Option Scope → ScopeSet
add_admin granted none = granted
add_admin granted (some s) = add granted s

-- `if granted and portal: ...`
unfoldable pub with_portal : ScopeSet → Text → ScopeSet
unfolding portal_admin_scope
with_portal granted portal =
    if nonempty granted && truthy portal
    then add_admin granted (portal_admin_scope (normalise portal))
    else granted

unfoldable pub scopes_for : Option Text → Option Text → List Text
unfolding role_scopes with_portal normalise expand
scopes_for role portal =
    sort_scopes (
      expand
        (sort_scopes (with_portal (role_scopes (normalise (or_empty role))) (or_empty portal))))
