-- ===== src/Tls/Policies/Selection.antt =====
-- quansec/protocols/tls/policies.py, `validate_selection`: what a policy that may be applied guarantees.
use quansec_pqc_platform.Prelude.{
  ◌≡◌, refl, sym, ap, ◌∙◌, inl, inr, Bool, true, false, ◌&&◌, ◌||◌, not, none, some, Text, any,
  eq_text, strip, lower, is_space, lstrip, arith, Bool-cases,
}
use quansec_pqc_platform.Tls.Policy.{
  parse_groups, split, is_separator, is_fail_closed, only_tls13, same_group,
}
use quansec_pqc_platform.Tls.Policies.{
  TlsPolicyDefinition, strict_hybrid, hybrid_preferred, classical_lab, get_policy, validate_policy,
  validate_selection, hybrid_group,
}

abbrev pub offers_hybrid : TlsPolicyDefinition → Bool
offers_hybrid p = any (same_group hybrid_group) (parse_groups p.groups)

abbrev Guaranteed : Bool → Bool → TlsPolicyDefinition → Type 0
Guaranteed production acknowledged p =
    (p.fail_closed ≡ ((is_fail_closed p.groups hybrid_group).0 && only_tls13 p.protocols))
    × ((acknowledged || p.fail_closed) ≡ true)
    × ((not production || offers_hybrid p) ≡ true)

strict_hybrid-Guaranteed :
    (production acknowledged : Bool) → Guaranteed production acknowledged strict_hybrid
unfolding is_fail_closed parse_groups split is_separator strip lstrip lower is_space eq_text
strict_hybrid-Guaranteed production acknowledged = (refl, ground arith, ground arith)

hybrid_preferred-Guaranteed :
    (name : Text) (production acknowledged : Bool)
    → validate_policy name production acknowledged (some hybrid_preferred) ≡ none
    → Guaranteed production acknowledged hybrid_preferred
unfolding validate_policy is_fail_closed parse_groups split is_separator strip lstrip lower is_space
    eq_text
hybrid_preferred-Guaranteed name production true e = (refl, refl, ground arith)
hybrid_preferred-Guaranteed name true false e = ground (arith, e)
hybrid_preferred-Guaranteed name false false e = ground (arith, e)

classical_lab-Guaranteed :
    (name : Text) (production acknowledged : Bool)
    → validate_policy name production acknowledged (some classical_lab) ≡ none
    → Guaranteed production acknowledged classical_lab
unfolding validate_policy is_fail_closed parse_groups split is_separator strip lstrip lower is_space
    eq_text
classical_lab-Guaranteed name false true e = (refl, refl, refl)
classical_lab-Guaranteed name true acknowledged e = ground (arith, e)
classical_lab-Guaranteed name false false e = ground (arith, e)

get_policy-second :
    (name : Text)
    → eq_text strict_hybrid.name name ≡ false
    → eq_text hybrid_preferred.name name ≡ true
    → get_policy name ≡ some hybrid_preferred
get_policy-second name n₁ found = rw (n₁, found) refl

get_policy-third :
    (name : Text)
    → eq_text strict_hybrid.name name ≡ false
    → eq_text hybrid_preferred.name name ≡ false
    → eq_text classical_lab.name name ≡ true
    → get_policy name ≡ some classical_lab
get_policy-third name n₁ n₂ found = rw (n₁, n₂, found) refl

get_policy-unknown :
    (name : Text)
    → eq_text strict_hybrid.name name ≡ false
    → eq_text hybrid_preferred.name name ≡ false
    → eq_text classical_lab.name name ≡ false
    → get_policy name ≡ none
get_policy-unknown name n₁ n₂ n₃ = rw (n₁, n₂, n₃) refl

-- A selection that `validate_selection` allows names a policy whose stored flag `fail_closed` is what
-- `is_fail_closed` and the protocols say of it; without an acknowledgement that policy is fail-closed, and
-- in production it offers the hybrid group.
pub selection_guaranteed :
    (name : Text) (production acknowledged : Bool)
    → validate_selection name production acknowledged ≡ none
    → (p : TlsPolicyDefinition) × (get_policy name ≡ some p)
      × (p.fail_closed ≡ ((is_fail_closed p.groups hybrid_group).0 && only_tls13 p.protocols))
      × ((acknowledged || p.fail_closed) ≡ true)
      × ((not production || offers_hybrid p) ≡ true)
unfolding validate_selection validate_policy
selection_guaranteed name production acknowledged e =
    elim (Bool-cases (eq_text strict_hybrid.name name)) [
      | inl strict ↦
          let (honest, closed, offered) = strict_hybrid-Guaranteed production acknowledged in
          (strict_hybrid, rw strict refl, honest, closed, offered)
      | inr n₁ ↦ elim (Bool-cases (eq_text hybrid_preferred.name name)) [
        | inl preferred ↦
            let (honest, closed, offered) =
              hybrid_preferred-Guaranteed name production acknowledged (
                sym (
                  ap (validate_policy name production acknowledged)
                    (get_policy-second name n₁ preferred))
                ∙ e) in
            (hybrid_preferred, get_policy-second name n₁ preferred, honest, closed, offered)
        | inr n₂ ↦ elim (Bool-cases (eq_text classical_lab.name name)) [
          | inl lab ↦
              let (honest, closed, offered) =
                classical_lab-Guaranteed name production acknowledged (
                  sym (
                    ap (validate_policy name production acknowledged)
                      (get_policy-third name n₁ n₂ lab))
                  ∙ e) in
              (classical_lab, get_policy-third name n₁ n₂ lab, honest, closed, offered)
          | inr n₃ ↦ ground (
            arith,
            sym (
                  ap (validate_policy name production acknowledged)
                    (get_policy-unknown name n₁ n₂ n₃))
                ∙ e,
          )
        ]
      ]
    ]
