-- ===== src/Tls/Policy/Comparison.antt =====
-- quansec/protocols/tls/policy.py, `compare`: what a policy in sync says about the one that runs.
use quansec_pqc_platform.Prelude.{
  ℕ, ◌≡◌, refl, sym, ap, ◌∙◌, inl, inr, Bool, true, false, Option, none, some, List, [], ◌∷◌, ◌++◌,
  Text, codes, eq_text, eq_text_iff, strip, is_space, lstrip, truthy, keep, arith, Bool-cases,
}
use mathlib.Core.List.{reverse, reverse-cons, reverse-reverse}
use quansec_pqc_platform.Tls.Policy.{
  TlsSettings, PolicyView, Parsed, is_separator, split, parse_groups, is_fail_closed, evaluate,
  only_tls13, intended_policy, running_policy, compare, in_sync, differing, same_text, no_names,
}

space_separates : (c : ℕ) → is_space c ≡ true → is_separator c ≡ true
unfolding is_separator
space_separates c e = ground (arith, e)

split-cons : (s : Text) → (w : Text) × (ws : List Text) × (split s ≡ w ∷ ws)
unfolding split
split-cons [] = ([], [], refl)
split-cons (c ∷ s) =
    let (w, ws, e) = split-cons s in
    elim (Bool-cases (is_separator c)) [
      | inl sep ↦ ([], split s, rw sep refl)
      | inr letter ↦ (c ∷ w, ws, rw (letter, e) refl)
    ]

split-end :
    (c : ℕ) (s : Text) → is_separator c ≡ true → split (s ++ (c ∷ [])) ≡ split s ++ ([] ∷ [])
unfolding split
split-end c [] e = rw e refl
split-end c (d ∷ s) e =
    let (w, ws, first) = split-cons s in
    let rest = split-end c s e in
    elim (Bool-cases (is_separator d)) [
      | inl sep ↦ rw (sep, rest) refl
      | inr letter ↦ rw (letter, rest, first) refl
    ]

keep-end : (ts : List Text) → keep truthy (ts ++ ([] ∷ [])) ≡ keep truthy ts
keep-end [] = refl
keep-end (t ∷ ts) = elim (Bool-cases (truthy t)) [
  | inl e ↦ rw (e, keep-end ts) refl
  | inr e ↦ rw (e, keep-end ts) refl
]

parse_groups-lstrip : (s : Text) → parse_groups (lstrip s) ≡ parse_groups s
unfolding parse_groups lstrip split
parse_groups-lstrip [] = refl
parse_groups-lstrip (c ∷ s) = elim (Bool-cases (is_space c)) [
  | inl e ↦ rw (space_separates c e, e) (parse_groups-lstrip s)
  | inr e ↦ rw e refl
]

parse_groups-end :
    (c : ℕ) (s : Text) → is_space c ≡ true → parse_groups (s ++ (c ∷ [])) ≡ parse_groups s
unfolding parse_groups
parse_groups-end c s e = ap (keep truthy) (split-end c s (space_separates c e)) ∙ keep-end (split s)

parse_groups-rstrip : (r : Text) → parse_groups (reverse (lstrip r)) ≡ parse_groups (reverse r)
unfolding lstrip
parse_groups-rstrip [] = refl
parse_groups-rstrip (c ∷ r) = elim (Bool-cases (is_space c)) [
  | inl e ↦
      rw (e, reverse-cons c r) (parse_groups-rstrip r ∙ sym (parse_groups-end c (reverse r) e))
  | inr e ↦ rw e refl
]

pub parse_groups-strip : (s : Text) → parse_groups (strip s) ≡ parse_groups s
unfolding strip
parse_groups-strip s =
    parse_groups-rstrip (reverse (lstrip s))
    ∙ ap parse_groups (reverse-reverse (lstrip s))
    ∙ parse_groups-lstrip s

differing-none :
    (same : Bool) (name : Text) (rest : List Text)
    → no_names (differing same name ++ rest) ≡ true
    → (same ≡ true) × (no_names rest ≡ true)
differing-none true name rest e = (refl, e)
differing-none false name rest e = ground (arith, e)

parse_groups-same : (g h : Text) → same_text g h ≡ true → parse_groups g ≡ parse_groups h
parse_groups-same g h e =
    sym (parse_groups-strip g)
    ∙ ap parse_groups ((eq_text_iff (strip g) (strip h)).0 e)
    ∙ parse_groups-strip h

only_tls13-same : (p q : Text) → same_text p q ≡ true → only_tls13 p ≡ only_tls13 q
only_tls13-same p q e =
    ap (λ (t : Text). eq_text t (codes "TLSv1.3")) ((eq_text_iff (strip p) (strip q)).0 e)

-- A comparison that finds the file in sync has read a policy from it, which is fail-closed exactly when
-- the intended policy is, and has the same fallback groups, however the directives are spaced.
pub in_sync-fail_closed :
    (sha256 : Text → Text) (render : TlsSettings → Text) (s : TlsSettings) (file : Option Parsed)
    (digest : Option Text)
    → let intended = intended_policy sha256 render s in
      in_sync (compare intended (running_policy s.hybrid_group file digest)) ≡ true
      → (running : PolicyView) × (running_policy s.hybrid_group file digest ≡ some running)
        × (running.fail_closed ≡ intended.fail_closed)
        × (running.fallback_groups ≡ intended.fallback_groups)
unfolding compare running_policy intended_policy evaluate is_fail_closed
in_sync-fail_closed sha256 render s none digest e = ground (arith, e)
in_sync-fail_closed sha256 render s (some p) digest e =
    let (protocols, rest) = differing-none _ _ _ e in
    let (groups, rest') = differing-none _ _ _ rest in
    let parsed = parse_groups-same s.groups p.groups groups in
    let tls13 = only_tls13-same s.protocols p.protocols protocols in
    (_, refl, rw (parsed, tls13) refl, rw parsed refl)
