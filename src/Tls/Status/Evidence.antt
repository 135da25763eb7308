-- ===== src/Tls/Status/Evidence.antt =====
-- quansec/protocols/tls/service.py, `evaluate_status`: the evidence that a claim of enforcement rests on.
use quansec_pqc_platform.Prelude.{
  ◌<◌, ◌≡◌, refl, sym, ap, subst, ◌∙◌, inl, inr, Bool, true, false, ◌&&◌, Option, none, some, [],
  ◌∷◌, Text, codes, eq_text, eq_text_iff, eq_text_refl, lower, strip, lstrip, truthy, ltb, arith,
  Option-cases, ◌↔◌,
}
use quansec_pqc_platform.Tls.Policy.{Parsed, is_fail_closed}
use quansec_pqc_platform.Tls.Policy.Groups.{IsName, is_fail_closed-alone}
use quansec_pqc_platform.Tls.Policy.Comparison.{parse_groups-strip}
use quansec_pqc_platform.Tls.Status.{
  hybrid_enforced, Observed, overall, group_configured, refused_classical, probe, evaluate_status,
}

overall_iff :
    (built running configured negotiated enforced was : Bool)
    → (overall built running configured negotiated enforced was ≡ hybrid_enforced)
      ↔ ((built && running && configured && negotiated && enforced) ≡ true)
unfolding overall
overall_iff built running configured negotiated enforced was = ground arith

passed-some : (o : Observed) (name : Text) → probe o name ≡ true → o.probe_results name ≡ some true
passed-some o name e = elim (Option-cases (o.probe_results name)) [
  | inl missing ↦ ground (arith, e, missing)
  | inr (b, found) ↦ ground (arith, e, found)
]

nothing_configured : (g : Text) → truthy g ≡ true → group_configured g none ≡ false
unfolding lower strip lstrip eq_text
nothing_configured [] given = ground (arith, given)
nothing_configured (c ∷ g) given = refl

-- With a hybrid group that is not empty, only a file can name it.
configured_file :
    (g : Text) (config : Option Parsed)
    → truthy g ≡ true
    → group_configured g config ≡ true
    → (p : Parsed) × (config ≡ some p) × (lower (strip p.groups) ≡ lower g)
configured_file g none given e = ground (arith, e, nothing_configured g given)
configured_file g (some p) given e = (p, refl, (eq_text_iff (lower (strip p.groups)) (lower g)).0 e)

abbrev Evidence : Text → Observed → Type 0
Evidence hybrid_group o =
    (o.runtime_available ≡ true)
    × (o.running ≡ true)
    × ((p : Parsed) × (o.config ≡ some p) × (lower (strip p.groups) ≡ lower hybrid_group))
    × (o.probe_results (codes "negative_x25519") ≡ some true)
    × (o.probe_results (codes "negative_prime256v1") ≡ some true)
    × (0 < o.observed_group_count)

abbrev all_five : Text → Observed → Bool
all_five g o =
    o.runtime_available
    && o.running
    && group_configured g o.config
    && ltb 0 o.observed_group_count
    && refused_classical o

all_five-Evidence : (g : Text) (o : Observed) → truthy g ≡ true → all_five g o ≡ true → Evidence g o
all_five-Evidence g o given e = (
  ground (arith, e),
  ground (arith, e),
  configured_file g o.config given (ground (arith, e)),
  passed-some o (codes "negative_x25519") (ground (arith, e)),
  passed-some o (codes "negative_prime256v1") (ground (arith, e)),
  ground (arith, e),
)

Evidence-all_five : (g : Text) (o : Observed) → Evidence g o → all_five g o ≡ true
Evidence-all_five g o (built, running, (p, found, same), x25519, prime256v1, seen) =
    let some_seen : ltb 0 o.observed_group_count ≡ true = ground (arith, seen) in
    rw (built, running, found, x25519, prime256v1, same, eq_text_refl (lower g), some_seen) refl

-- `hybrid_enforced` is reported exactly with all of this evidence: the runtime is built, NGINX runs, the
-- file on disk names the hybrid group alone, both classical probes are recorded as refused, and at least
-- one session negotiated the hybrid group. TLS 1.2 is no part of it.
pub enforced_exact :
    (hybrid_group : Text) (o : Observed)
    → truthy hybrid_group ≡ true
    → ((evaluate_status hybrid_group o).overall_status ≡ hybrid_enforced) ↔ (
        (o.runtime_available ≡ true)
        × (o.running ≡ true)
        × ((p : Parsed) × (o.config ≡ some p) × (lower (strip p.groups) ≡ lower hybrid_group))
        × (o.probe_results (codes "negative_x25519") ≡ some true)
        × (o.probe_results (codes "negative_prime256v1") ≡ some true)
        × (0 < o.observed_group_count))
unfolding evaluate_status
enforced_exact hybrid_group o given =
    let (only_if, if_) =
      overall_iff o.runtime_available o.running (group_configured hybrid_group o.config)
        (ltb 0 o.observed_group_count) (refused_classical o) o.was_enforced in
    (
      λ e. all_five-Evidence hybrid_group o given (only_if e),
      λ e. if_ (Evidence-all_five hybrid_group o e),
    )

-- Where `hybrid_enforced` is reported, the group list of the file on disk is fail-closed by the test of
-- the policy module, which parses the list.
pub enforced-fail_closed :
    (hybrid_group : Text) (o : Observed) (p : Parsed)
    → IsName hybrid_group
    → o.config ≡ some p
    → (evaluate_status hybrid_group o).overall_status ≡ hybrid_enforced
    → (is_fail_closed p.groups hybrid_group).0 ≡ true
unfolding is_fail_closed
enforced-fail_closed hybrid_group o p name found e =
    let (_, _, (q, found', same), _, _, _) = (enforced_exact hybrid_group o name.filled).0 e in
    let one : q ≡ p =
      ap (λ (c : Option Parsed). elim c [ none ↦ q | some r ↦ r ]) (sym found' ∙ found) in
    rw⁻¹ (parse_groups-strip p.groups) (
      is_fail_closed-alone hybrid_group (strip p.groups) name
        (subst (λ (r : Parsed). lower (strip r.groups) ≡ lower hybrid_group) one same))
