-- ===== src/Tls/Tests.antt =====
-- The strict policy, applied, compared, selected and proved.
use quansec_pqc_platform.Prelude.{
  ◌≡◌, refl, sym, ap, ◌↔◌, ◌<◌, Bool, true, false, ◌&&◌, ◌||◌, not, Option, none, some, [], ◌∷◌,
  ◌++◌, Text, codes, eq_text, join, lower, lower_code, strip, lstrip, is_space, truthy, arith,
}
use quansec_pqc_platform.Tls.Policy.{
  TlsSettings, PolicyView, Parsed, is_separator, is_fail_closed, only_tls13, evaluate,
  intended_policy, running_policy, compare, in_sync,
}
use quansec_pqc_platform.Tls.Policy.Groups.{IsName, is_fail_closed_exact}
use quansec_pqc_platform.Tls.Policy.Comparison.{in_sync-fail_closed}
use quansec_pqc_platform.Tls.Apply.{TlsDb, Completed, Runs, apply_policy}
use quansec_pqc_platform.Tls.Apply.Outcomes.{Outcome, apply_policy_exact}
use quansec_pqc_platform.Tls.Apply.Soundness.{IsSound, IsVerdict, apply_policy-IsSound}
use quansec_pqc_platform.Tls.Policies.{
  TlsPolicyDefinition, hybrid_group, get_policy, validate_policy, validate_selection,
}
use quansec_pqc_platform.Tls.Policies.Selection.{offers_hybrid, selection_guaranteed}
use quansec_pqc_platform.Tls.Status.{Observed, hybrid_enforced, overall, evaluate_status}
use quansec_pqc_platform.Tls.Status.Evidence.{enforced_exact}

abbrev digest : Text → Text
digest t = t

abbrev settings : TlsSettings
settings = record {
  host = codes "127.0.0.1";
  port = 8443;
  nginx_bin = codes "nginx";
  nginx_conf = codes "nginx.conf";
  protocols = codes "TLSv1.3";
  groups = hybrid_group;
  ciphersuites = codes "TLS_AES_256_GCM_SHA384";
  hybrid_group = hybrid_group;
  mtls = true;
  early_data = false;
}

abbrev rendered : TlsSettings → Text
rendered s = s.groups

-- The same directives, with a space after the groups.
abbrev file : Parsed
file = record {
  protocols = codes "TLSv1.3";
  groups = hybrid_group ++ codes " ";
  ciphersuites = codes "TLS_AES_256_GCM_SHA384";
  mtls = true;
  early_data = false;
  listen = codes "127.0.0.1:8443 ssl";
}

abbrev went_well : Option Completed
went_well = some (record { succeeded = true; stdout = []; stderr = codes "ok" })

abbrev runs : Runs
runs = record { test = went_well; running = true; retest = went_well; signal = went_well }

abbrev empty : TlsDb
empty = record { states = []; next_state = 1; events = []; on_disk = none }

hybrid_group-IsName : IsName hybrid_group
unfolding is_separator is_space
hybrid_group-IsName = record { plain = refl; filled = refl }

is_fail_closed_exact_example :
    ((is_fail_closed (join (codes ":") (hybrid_group ∷ codes "x25519" ∷ [])) hybrid_group).0 ≡ true)
    ↔ ((n : Text) × ((hybrid_group ∷ codes "x25519" ∷ []) ≡ n ∷ [])
        × (lower n ≡ lower hybrid_group))
unfolding is_separator is_space
is_fail_closed_exact_example =
    is_fail_closed_exact hybrid_group (hybrid_group ∷ codes "x25519" ∷ [])
      (hybrid_group-IsName, (record { plain = refl; filled = refl }, tt))

same_directives :
    in_sync (
      compare
        (intended_policy digest rendered settings)
        (running_policy settings.hybrid_group (some file) none))
    ≡ true
unfolding compare intended_policy running_policy evaluate eq_text strip lstrip is_space
same_directives = refl

in_sync-fail_closed_example :
    (running : PolicyView) × (running_policy settings.hybrid_group (some file) none ≡ some running)
    × (running.fail_closed ≡ (intended_policy digest rendered settings).fail_closed)
    × (running.fallback_groups ≡ (intended_policy digest rendered settings).fallback_groups)
in_sync-fail_closed_example =
    in_sync-fail_closed digest rendered settings (some file) none same_directives

apply_policy_exact_example :
    Outcome digest rendered settings runs
      (apply_policy digest rendered (codes "a@x") settings true runs empty).0
      empty
      (apply_policy digest rendered (codes "a@x") settings true runs empty).1
apply_policy_exact_example =
    apply_policy_exact digest rendered (codes "a@x") settings true runs empty

-- An nginx that accepts every file that is not empty.
abbrev accepts : Text → Bool
accepts text = truthy text

accepts-IsVerdict : IsVerdict accepts (rendered settings) runs
accepts-IsVerdict r ran = sym (ap succeeded_of ran)
  where
    succeeded_of : Option Completed → Bool
    succeeded_of none = false
    succeeded_of (some q) = q.succeeded

empty-IsSound : IsSound digest accepts hybrid_group empty
empty-IsSound = record { one_active = omega arith; enforced = tt }

apply_policy-IsSound_example :
    IsSound digest accepts hybrid_group
      (apply_policy digest rendered (codes "a@x") settings true runs empty).1
apply_policy-IsSound_example =
    apply_policy-IsSound digest rendered accepts (codes "a@x") settings true runs empty
      accepts-IsVerdict empty-IsSound

selection_guaranteed_example :
    (p : TlsPolicyDefinition) × (get_policy (codes "strict-hybrid") ≡ some p)
    × (p.fail_closed ≡ ((is_fail_closed p.groups hybrid_group).0 && only_tls13 p.protocols))
    × ((false || p.fail_closed) ≡ true)
    × ((not true || offers_hybrid p) ≡ true)
unfolding validate_selection validate_policy eq_text
selection_guaranteed_example = selection_guaranteed (codes "strict-hybrid") true false refl

abbrev observed : Observed
observed = record {
  runtime_available = true;
  runtime_lists_group = true;
  running = true;
  config = some file;
  observed_group_count = 3;
  probe_results = λ name. some true;
  certificate_pqc = false;
  was_enforced = false;
}

observed_enforced : (evaluate_status hybrid_group observed).overall_status ≡ hybrid_enforced
unfolding evaluate_status overall eq_text lower lower_code strip lstrip is_space
observed_enforced = refl

enforced_exact_example :
    ((evaluate_status hybrid_group observed).overall_status ≡ hybrid_enforced) ↔ (
      (true ≡ true)
      × (true ≡ true)
      × ((p : Parsed) × (some file ≡ some p) × (lower (strip p.groups) ≡ lower hybrid_group))
      × (some true ≡ some true)
      × (some true ≡ some true)
      × (0 < 3))
enforced_exact_example = enforced_exact hybrid_group observed refl
