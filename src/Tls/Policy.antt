-- ===== src/Tls/Policy.antt =====
-- quansec/protocols/tls/policy.py: what a policy implies, and the drift between two of them.
pub mod Groups
pub mod Comparison
use quansec_pqc_platform.Prelude.{
  ℕ, Bool, true, false, ◌&&◌, ◌||◌, not, Option, none, some, List, [], ◌∷◌, ◌++◌, Text, codes,
  eq_text, lower, strip, is_space, truthy, keep, length, ◌==◌, if◌then◌else◌,
}
use quansec_pqc_platform.AccessTokens.Decimal.{decimal}

pub record TlsSettings : Type 0 where
  pub host : Text
  pub port : ℕ
  pub nginx_bin : Text
  pub nginx_conf : Text
  pub protocols : Text
  pub groups : Text
  pub ciphersuites : Text
  pub hybrid_group : Text
  pub mtls : Bool
  pub early_data : Bool

-- The class [:,\s]
unfoldable pub is_separator : ℕ → Bool
is_separator c = c == 58 || c == 44 || is_space c

abbrev onto : ℕ → List Text → List Text
onto c [] = (c ∷ []) ∷ []
onto c (w ∷ ws) = (c ∷ w) ∷ ws

-- The pieces between separators. Those between the separators of one run are empty.
unfoldable pub split : Text → List Text
split [] = [] ∷ []
split (c ∷ s) = let rest = split s in if is_separator c then [] ∷ rest else onto c rest

unfoldable pub parse_groups : Text → List Text
parse_groups groups = keep truthy (split groups)

abbrev pub same_group : Text → Text → Bool
same_group hybrid n = eq_text (lower n) (lower hybrid)

abbrev pub fallbacks_of : Text → List Text → List Text
fallbacks_of hybrid names = keep (λ n. not (same_group hybrid n)) names

abbrev pub no_names : List Text → Bool
no_names [] = true
no_names (n ∷ ns) = false

-- From `if not names`.
abbrev pub judge : Text → List Text → Bool × List Text
judge hybrid [] = (false, [])
judge hybrid (n ∷ ns) =
    (no_names (fallbacks_of hybrid (n ∷ ns)) && length (n ∷ ns) == 1, fallbacks_of hybrid (n ∷ ns))

unfoldable pub is_fail_closed : Text → Text → Bool × List Text
is_fail_closed groups hybrid_group = judge hybrid_group (parse_groups groups)

pub record PolicyView : Type 0 where
  pub source : Text
  pub protocols : Text
  pub groups : Text
  pub ciphersuites : Text
  pub mtls : Bool
  pub early_data : Bool
  pub listen : Option Text
  pub config_sha256 : Option Text
  pub tls13_only : Bool
  pub hybrid_group_only : Bool
  pub fail_closed : Bool
  pub fallback_groups : List Text

abbrev pub only_tls13 : Text → Bool
only_tls13 protocols = eq_text (strip protocols) (codes "TLSv1.3")

-- _evaluate
unfoldable pub evaluate : PolicyView → Text → PolicyView
evaluate view hybrid_group = record view {
  tls13_only = only_tls13 view.protocols;
  hybrid_group_only = (is_fail_closed view.groups hybrid_group).0;
  fallback_groups = (is_fail_closed view.groups hybrid_group).1;
  fail_closed = (is_fail_closed view.groups hybrid_group).0 && only_tls13 view.protocols;
}

-- `render` is `render_config`, a template, and `sha256` the digest of its text.
unfoldable pub intended_policy : (Text → Text) → (TlsSettings → Text) → TlsSettings → PolicyView
intended_policy sha256 render s =
    evaluate
      (record {
        source = codes "intended";
        protocols = s.protocols;
        groups = s.groups;
        ciphersuites = s.ciphersuites;
        mtls = s.mtls;
        early_data = s.early_data;
        listen = some (s.host ++ (codes ":" ++ decimal s.port));
        config_sha256 = some (sha256 (render s));
        tls13_only = false;
        hybrid_group_only = false;
        fail_closed = false;
        fallback_groups = [];
      })
      s.hybrid_group

-- What `_running_policy` reads out of the file on disk.
pub record Parsed : Type 0 where
  pub protocols : Text
  pub groups : Text
  pub ciphersuites : Text
  pub mtls : Bool
  pub early_data : Bool
  pub listen : Text

-- `none` for a missing file.
unfoldable pub running_policy : Text → Option Parsed → Option Text → Option PolicyView
running_policy hybrid_group none digest = none
running_policy hybrid_group (some p) digest = some (
    evaluate
      (record {
        source = codes "running";
        protocols = p.protocols;
        groups = p.groups;
        ciphersuites = p.ciphersuites;
        mtls = p.mtls;
        early_data = p.early_data;
        listen = some p.listen;
        config_sha256 = digest;
        tls13_only = false;
        hybrid_group_only = false;
        fail_closed = false;
        fallback_groups = [];
      })
      hybrid_group)

pub data Drift : Type 0 where
  no_config : Drift
  compared : List Text → Drift

abbrev same_flag : Bool → Bool → Bool
same_flag true b = b
same_flag false b = not b

abbrev pub differing : Bool → Text → List Text
differing same name = if same then [] else name ∷ []

abbrev pub same_text : Text → Text → Bool
same_text want have = eq_text (strip want) (strip have)

-- The names of `differences`.
unfoldable pub compare : PolicyView → Option PolicyView → Drift
compare intended none = no_config
compare intended (some running) = compared (
    differing (same_text intended.protocols running.protocols) (codes "protocols")
    ++ (differing (same_text intended.groups running.groups) (codes "groups")
        ++ (differing (same_text intended.ciphersuites running.ciphersuites) (codes "ciphersuites")
            ++ (differing (same_flag intended.mtls running.mtls) (codes "mtls")
                ++ differing (same_flag intended.early_data running.early_data)
                    (codes "early_data")))))

abbrev pub in_sync : Drift → Bool
in_sync no_config = false
in_sync (compared differences) = no_names differences
