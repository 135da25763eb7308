-- ===== src/Tls/Policies.antt =====
-- quansec/protocols/tls/policies.py: the named policies, and which of them may be applied. What a policy
-- has for display only (its title, its summary and its claim) is left out.
pub mod Selection
use quansec_pqc_platform.Prelude.{
  Bool, true, false, ◌&&◌, not, Option, none, some, List, [], ◌∷◌, ◌++◌, map, Text, codes, eq_text,
  join, find, if◌then◌else◌,
}

abbrev pub hybrid_group : Text
hybrid_group = codes "X25519MLKEM768"

abbrev pub suite_aes256 : Text
suite_aes256 = codes "TLS_AES_256_GCM_SHA384"

abbrev pub suite_tls13_standard : Text
suite_tls13_standard =
    codes "TLS_AES_256_GCM_SHA384:TLS_AES_128_GCM_SHA256:TLS_CHACHA20_POLY1305_SHA256"

pub record TlsPolicyDefinition : Type 0 where
  pub name : Text
  pub protocols : Text
  pub groups : Text
  pub ciphersuites : Text
  pub early_data : Bool
  pub mtls : Bool
  pub fail_closed : Bool
  pub downgrade_resistant : Bool
  pub production_allowed : Bool
  pub requires_acknowledgement : Bool
  pub warnings : List Text

abbrev pub strict_hybrid : TlsPolicyDefinition
strict_hybrid = record {
  name = codes "strict-hybrid";
  protocols = codes "TLSv1.3";
  groups = hybrid_group;
  ciphersuites = suite_aes256;
  early_data = false;
  mtls = false;
  fail_closed = true;
  downgrade_resistant = true;
  production_allowed = true;
  requires_acknowledgement = false;
  warnings = [];
}

abbrev pub hybrid_preferred : TlsPolicyDefinition
hybrid_preferred = record {
  name = codes "hybrid-preferred";
  protocols = codes "TLSv1.3";
  groups = hybrid_group ++ codes ":x25519:secp256r1";
  ciphersuites = suite_tls13_standard;
  early_data = false;
  mtls = false;
  fail_closed = false;
  downgrade_resistant = false;
  production_allowed = true;
  requires_acknowledgement = true;
  warnings =
      codes
        "NOT downgrade-resistant. An attacker who strips the hybrid group from the ClientHello gets a classical handshake, and this policy accepts it."
      ∷ codes
          "Hybrid coverage under this policy is a measurement of what clients chose, not a guarantee of what they were required to do."
      ∷ [];
}

abbrev pub classical_lab : TlsPolicyDefinition
classical_lab = record {
  name = codes "classical-lab";
  protocols = codes "TLSv1.3";
  groups = codes "x25519:secp256r1";
  ciphersuites = suite_tls13_standard;
  early_data = false;
  mtls = false;
  fail_closed = false;
  downgrade_resistant = false;
  production_allowed = false;
  requires_acknowledgement = true;
  warnings =
      codes
        "No post-quantum protection whatsoever. This policy exists for measured comparison and is refused when QUANSEC_ENV=production."
      ∷ [];
}

abbrev pub policies : List TlsPolicyDefinition
policies = strict_hybrid ∷ hybrid_preferred ∷ classical_lab ∷ []

abbrev pub get_policy : Text → Option TlsPolicyDefinition
get_policy name = find (λ p. eq_text p.name name) policies

abbrev pub policy_names : List Text
policy_names = map (λ p. p.name) policies

abbrev pub quoted : Text → Text
quoted name = codes "Policy '" ++ (name ++ codes "'")

abbrev unknown_policy : Text → Text
unknown_policy name =
    codes "Unknown policy '" ++ (name ++ (codes "'. Allowed: " ++ join (codes ", ") policy_names))

abbrev not_in_production : Text → Text
not_in_production name =
    quoted name
    ++ codes " is not permitted in production mode. It disables post-quantum key establishment."

abbrev unacknowledged : Text → List Text → Text
unacknowledged name warnings =
    quoted name
    ++ (codes " weakens enforcement and requires explicit acknowledgement (acknowledge_risk=true). "
        ++ join (codes " ") warnings)

-- The reason of a refusal, or none.
unfoldable pub validate_policy : Text → Bool → Bool → Option TlsPolicyDefinition → Option Text
validate_policy name production acknowledged none = some (unknown_policy name)
validate_policy name production acknowledged (some policy) =
    if production && not policy.production_allowed
    then some (not_in_production name)
    else if policy.requires_acknowledgement && not acknowledged
    then some (unacknowledged name policy.warnings)
    else none

unfoldable pub validate_selection : Text → Bool → Bool → Option Text
unfolding validate_policy
validate_selection name production acknowledged =
    validate_policy name production acknowledged (get_policy name)
