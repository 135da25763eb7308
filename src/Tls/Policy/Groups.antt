-- ===== src/Tls/Policy/Groups.antt =====
-- quansec/protocols/tls/policy.py, `parse_groups` and `is_fail_closed`.
use quansec_pqc_platform.Prelude.{
  ℕ, ◌≡◌, refl, sym, ap, ◌∙◌, ◌↔◌, inl, inr, true, false, not, List, [], ◌∷◌, ◌++◌, Text, codes,
  eq_text_iff, eq_text_refl, lower, lower_code, is_space, join, truthy, all, All, arith, Bool-cases,
}
use quansec_pqc_platform.Tls.Policy.{
  is_separator, split, parse_groups, is_fail_closed, judge, same_group,
}

-- A name that a group list can hold: not empty, and without separators.
pub record IsName (n : Text) : Type 0 where
  pub plain : all (λ c. not (is_separator c)) n ≡ true
  pub filled : truthy n ≡ true

split-plain : (n : Text) → all (λ c. not (is_separator c)) n ≡ true → split n ≡ n ∷ []
unfolding split
split-plain [] e = refl
split-plain (c ∷ n) e =
    let rest = split-plain n (ground (arith, e)) in
    let letter : is_separator c ≡ false = ground (arith, e) in rw (letter, rest) refl

colon : is_separator 58 ≡ true
unfolding is_separator
colon = refl

split-colon :
    (n s : Text) → all (λ c. not (is_separator c)) n ≡ true → split (n ++ (58 ∷ s)) ≡ n ∷ split s
unfolding split
split-colon [] s e = rw colon refl
split-colon (c ∷ n) s e =
    let rest = split-colon n s (ground (arith, e)) in
    let letter : is_separator c ≡ false = ground (arith, e) in rw (letter, rest) refl

-- Names joined by colons are parsed as those names.
pub parse_groups-join : (ns : List Text) → All IsName ns → parse_groups (join (codes ":") ns) ≡ ns
unfolding parse_groups join split
parse_groups-join [] a = refl
parse_groups-join (n ∷ []) a = rw (split-plain n a.0.plain, a.0.filled) refl
parse_groups-join (n ∷ (m ∷ ms)) a =
    rw (split-colon n (join (codes ":") (m ∷ ms)) a.0.plain, a.0.filled)
      (ap (λ (ts : List Text). n ∷ ts) (parse_groups-join (m ∷ ms) a.1))

-- The one name of a list that is fail-closed.
abbrev Only : Text → List Text → Type 0
Only hybrid names = (n : Text) × (names ≡ n ∷ []) × (lower n ≡ lower hybrid)

judge-Only : (hybrid : Text) (names : List Text) → (judge hybrid names).0 ≡ true → Only hybrid names
judge-Only hybrid [] e = ground arith
judge-Only hybrid (n ∷ []) e = elim (Bool-cases (same_group hybrid n)) [
  | inl same ↦ (n, refl, (eq_text_iff (lower n) (lower hybrid)).0 same)
  | inr other ↦ ground (arith, e, other)
]
judge-Only hybrid (n ∷ (m ∷ ms)) e = ground (arith, e)

Only-judge : (hybrid : Text) (names : List Text) → Only hybrid names → (judge hybrid names).0 ≡ true
Only-judge hybrid names (n, e, same) = rw (e, same, eq_text_refl (lower hybrid)) refl

-- A list of names, joined by colons, is fail-closed exactly when it is one name, which is the hybrid
-- group but for case.
pub is_fail_closed_exact :
    (hybrid : Text) (names : List Text)
    → All IsName names
    → ((is_fail_closed (join (codes ":") names) hybrid).0 ≡ true)
      ↔ ((n : Text) × (names ≡ n ∷ []) × (lower n ≡ lower hybrid))
unfolding is_fail_closed
is_fail_closed_exact hybrid names a =
    rw (parse_groups-join names a) (judge-Only hybrid names, Only-judge hybrid names)

lower_code-separates : (c : ℕ) → is_separator (lower_code c) ≡ is_separator c
unfolding is_separator is_space lower_code
lower_code-separates c = ground arith

plain-lower :
    (n : Text) → all (λ c. not (is_separator c)) (lower n) ≡ all (λ c. not (is_separator c)) n
unfolding lower
plain-lower [] = refl
plain-lower (c ∷ n) = rw (lower_code-separates c, plain-lower n) refl

filled-lower : (n : Text) → truthy (lower n) ≡ truthy n
unfolding lower
filled-lower [] = refl
filled-lower (c ∷ n) = refl

-- A text that is a name but for case is a name.
IsName-lower : (n m : Text) → lower n ≡ lower m → IsName m → IsName n
IsName-lower n m e name = record {
  plain =
      sym (plain-lower n)
      ∙ ap (all (λ (c : ℕ). not (is_separator c))) e
      ∙ plain-lower m
      ∙ name.plain;
  filled = sym (filled-lower n) ∙ ap truthy e ∙ filled-lower m ∙ name.filled;
}

pub is_fail_closed-alone :
    (hybrid n : Text) → IsName hybrid → lower n ≡ lower hybrid → (is_fail_closed n hybrid).0 ≡ true
unfolding join
is_fail_closed-alone hybrid n name e =
    (is_fail_closed_exact hybrid (n ∷ []) (IsName-lower n hybrid e name, tt)).1 (n, refl, e)
