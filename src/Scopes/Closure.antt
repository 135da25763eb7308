-- ===== src/Scopes/Closure.antt =====
-- quansec/core/scopes.py, `expand`: the closure of a set of scopes under implication.
use quansec_pqc_platform.Prelude.{
  ◌≡◌, refl, sym, ◌∙◌, fun_ext, true, ◌&&◌, ◌||◌, some, List, [], ◌∷◌, map, Text, any, keep, All,
  arith, inl, inr, Option-cases, Bool-cases,
}
use quansec_pqc_platform.Scopes.{
  Scope, tls_read, tls_probe, tls_admin, ssh_read, ssh_admin, ipsec_read, ipsec_admin, system_admin,
  scope_name, all_scopes, find_scope, same, ScopeSet, implies, expand, sort_scopes, inter,
}
use quansec_pqc_platform.Scopes.Lookup.{find_scope-name, grants, expand-any}

-- Sets that hold what their members imply, and sets that hold the known texts of a list.
abbrev pub IsClosed : ScopeSet → Type 0
IsClosed g = (s r : Scope) → g s ≡ true → implies s r ≡ true → g r ≡ true

abbrev pub Names : ScopeSet → List Text → Type 0
Names g ts = All (λ t. (s : Scope) → find_scope t ≡ some s → g s ≡ true) ts

implies_trans : (s r q : Scope) → implies s r ≡ true → implies r q ≡ true → implies s q ≡ true
implies_trans s r q = ground arith

grants-IsClosed : (t : Text) → IsClosed (grants t)
unfolding grants
grants-IsClosed t s r = ground arith

any-IsClosed : (ts : List Text) → IsClosed (λ r. any (λ t. grants t r) ts)
any-IsClosed [] s r = ground arith
any-IsClosed (t ∷ ts) s r = ground (arith, grants-IsClosed t s r, any-IsClosed ts s r)

pub expand-IsClosed : (ts : List Text) → IsClosed (expand ts)
expand-IsClosed ts s r h i = expand-any ts r ∙ any-IsClosed ts s r (sym (expand-any ts s) ∙ h) i

-- A larger set of grants still names every text.
Names-more :
    (g h : ScopeSet) (ts : List Text)
    → ((r : Scope) → g r ≡ true → h r ≡ true)
    → Names g ts
    → Names h ts
Names-more g h [] sub n = tt
Names-more g h (t ∷ ts) sub n = (λ s e. sub s (n.0 s e), Names-more g h ts sub n.1)

granted-Names : (ts : List Text) → Names (λ r. any (λ t. grants t r) ts) ts
unfolding grants
granted-Names [] = tt
granted-Names (t ∷ ts) = (
  λ s e. rw (e, grants) (same_self s),
  Names-more _ _ ts (λ r h. ground arith) (granted-Names ts),
)
  where
    same_self : (s : Scope) → (same s s || implies s s || any (λ t. grants t s) ts) ≡ true
    same_self s = ground arith

granted_least :
    (ts : List Text) (g : ScopeSet)
    → IsClosed g
    → Names g ts
    → (r : Scope) → any (λ t. grants t r) ts ≡ true
    → g r ≡ true
unfolding grants
granted_least [] g c n r h = cc
granted_least (t ∷ ts) g c n r h = elim (Option-cases (find_scope t)) [
  | inl e ↦ granted_least ts g c n.1 r (rw (e, grants) at h)
  | inr (s, e) ↦ ground (arith, n.0 s e, c s r, granted_least ts g c n.1 r)
]

-- `expand` is the closure of the known texts under implication: the result is closed, it has every
-- known scope that the list names, and any closed set that has those has all of it.
pub expand_least :
    (ts : List Text)
    → IsClosed (expand ts)
      × Names (expand ts) ts
      × ((g : ScopeSet) → IsClosed g → Names g ts → (r : Scope) → expand ts r ≡ true → g r ≡ true)
expand_least ts = (
  expand-IsClosed ts,
  Names-more _ _ ts (λ r h. expand-any ts r ∙ h) (granted-Names ts),
  λ g c n r h. granted_least ts g c n r (sym (expand-any ts r) ∙ h),
)

-- Every member of a sorted set is found in it, and every member of the list is in the set.
sort_scopes-Names :
    (g h : ScopeSet) (xs : List Scope)
    → ((r : Scope) → g r ≡ true → h r ≡ true)
    → Names h (map scope_name (keep g xs))
sort_scopes-Names g h [] sub = tt
sort_scopes-Names g h (x ∷ xs) sub = elim (Bool-cases (g x)) [
  | inl e ↦ rw e (λ s f. ground (arith, find_scope-name x, sub x e), sort_scopes-Names g h xs sub)
  | inr e ↦ rw e (sort_scopes-Names g h xs sub)
]

any-sort_scopes :
    (g : ScopeSet) (r : Scope) (xs : List Scope)
    → any (λ t. grants t r) (map scope_name (keep g xs))
      ≡ any (λ s. g s && (same s r || implies s r)) xs
unfolding grants
any-sort_scopes g r [] = refl
any-sort_scopes g r (x ∷ xs) = ground (arith, find_scope-name x, any-sort_scopes g r xs)

-- Expanding the sorted list of any set adds only what its members imply.
pub expand-sort_scopes :
    (g : ScopeSet) (r : Scope)
    → expand (sort_scopes g) r ≡ any (λ s. g s && (same s r || implies s r)) all_scopes
expand-sort_scopes g r = expand-any (sort_scopes g) r ∙ any-sort_scopes g r all_scopes

closed_fix :
    (g : ScopeSet)
    → IsClosed g
    → (r : Scope) → any (λ s. g s && (same s r || implies s r)) all_scopes ≡ g r
closed_fix g c tls_read =
    ground (arith, c system_admin tls_read, c tls_admin tls_read, c tls_probe tls_read)
closed_fix g c tls_probe = ground (arith, c system_admin tls_probe, c tls_admin tls_probe)
closed_fix g c tls_admin = ground (arith, c system_admin tls_admin)
closed_fix g c ssh_read = ground (arith, c system_admin ssh_read, c ssh_admin ssh_read)
closed_fix g c ssh_admin = ground (arith, c system_admin ssh_admin)
closed_fix g c ipsec_read = ground (arith, c system_admin ipsec_read, c ipsec_admin ipsec_read)
closed_fix g c ipsec_admin = ground (arith, c system_admin ipsec_admin)
closed_fix g c system_admin = ground arith

-- A closed set survives being sorted and expanded again.
pub expand-sort_scopes_closed : (g : ScopeSet) → IsClosed g → expand (sort_scopes g) ≡ g
expand-sort_scopes_closed g c = fun_ext λ r. expand-sort_scopes g r ∙ closed_fix g c r

-- The scopes that two closed sets share are closed too.
pub inter-IsClosed : (g h : ScopeSet) → IsClosed g → IsClosed h → IsClosed (inter g h)
inter-IsClosed g h c d s r = ground (arith, c s r, d s r)
