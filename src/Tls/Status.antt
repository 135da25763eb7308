-- ===== src/Tls/Status.antt =====
-- quansec/protocols/tls/service.py, `evaluate_status` and `_overall`: what the portal says of the data
-- plane, from the evidence at hand. The evidence is an argument: the built runtime, the process, the
-- directives of the file on disk, the probes that were recorded and the sessions that were logged. The
-- copy of it in the reply (`evidence`) is left out.
pub mod Evidence
use quansec_pqc_platform.Prelude.{
  ℕ, Bool, true, false, ◌&&◌, ◌||◌, not, Option, none, some, [], Text, codes, eq_text, lower, strip,
  ltb, if◌then◌else◌,
}
use quansec_pqc_platform.Tls.Policy.{Parsed}

pub data OverallStatus : Type 0 where
  unavailable classical configured_unproven hybrid_observed hybrid_enforced degraded : OverallStatus

pub record Observed : Type 0 where
  pub runtime_available : Bool
  pub runtime_lists_group : Bool
  pub running : Bool
  pub config : Option Parsed
  pub observed_group_count : ℕ
  pub probe_results : Text → Option Bool
  pub certificate_pqc : Bool
  pub was_enforced : Bool

pub record TlsStatus : Type 0 where
  pub runtime_supported : Bool
  pub tls13_enforced : Bool
  pub hybrid_group_configured : Bool
  pub hybrid_group_negotiated : Bool
  pub hybrid_only_enforced : Bool
  pub certificate_verified : Bool
  pub mtls_enabled : Bool
  pub authentication_quantum_safe : Bool
  pub overall_status : OverallStatus
  pub label : Text

-- probes.get(name, False)
abbrev or_not : Option Bool → Bool
or_not none = false
or_not (some b) = b

abbrev pub probe : Observed → Text → Bool
probe o name = or_not (o.probe_results name)

abbrev text_of : (Parsed → Text) → Option Parsed → Text
text_of f none = []
text_of f (some p) = f p

abbrev mtls_of : Option Parsed → Bool
mtls_of none = false
mtls_of (some p) = p.mtls

-- _overall
unfoldable pub overall : Bool → Bool → Bool → Bool → Bool → Bool → OverallStatus
overall built running configured negotiated enforced was =
    if not built || not running
    then unavailable
    else if not configured
    then classical
    else if enforced && negotiated
    then hybrid_enforced
    else if was && not enforced
    then degraded
    else if negotiated
    then hybrid_observed
    else configured_unproven

abbrev pub group_configured : Text → Option Parsed → Bool
group_configured hybrid_group config =
    eq_text (lower (strip (text_of (λ p. p.groups) config))) (lower hybrid_group)

abbrev pub refused_classical : Observed → Bool
refused_classical o = probe o (codes "negative_x25519") && probe o (codes "negative_prime256v1")

unfoldable pub evaluate_status : Text → Observed → TlsStatus
unfolding overall
evaluate_status hybrid_group o =
    let configured = group_configured hybrid_group o.config in
    let negotiated = ltb 0 o.observed_group_count in
    let enforced = refused_classical o in
    record {
      runtime_supported = o.runtime_available && o.runtime_lists_group;
      tls13_enforced =
          eq_text (strip (text_of (λ p. p.protocols) o.config)) (codes "TLSv1.3")
          && probe o (codes "negative_tls12");
      hybrid_group_configured = configured;
      hybrid_group_negotiated = negotiated;
      hybrid_only_enforced = enforced;
      certificate_verified = probe o (codes "positive_hybrid");
      mtls_enabled = mtls_of o.config;
      authentication_quantum_safe = o.certificate_pqc;
      overall_status =
          overall o.runtime_available o.running configured negotiated enforced o.was_enforced;
      label =
          if o.certificate_pqc
          then codes "Hybrid post-quantum TLS with post-quantum X.509 authentication"
          else codes "Hybrid post-quantum TLS with classical X.509 authentication";
    }
