-- ===== src/Alerts/Tests.antt =====
-- A classical tunnel that is reported, acknowledged, and reported no more.
use quansec_pqc_platform.Prelude.{
  ◌≡◌, refl, true, false, none, List, [], ◌∷◌, ◌++◌, codes, eq_text, All,
}
use quansec_pqc_platform.Alerts.{
  Alert, AlertDb, Report, Platform, has_alert, alert_of, raise_alert, raise_all, reports,
  evaluate_once, tunnel_reports, session_reports, rejection_reports, tls_reports, has_column,
  ack_alert,
}
use quansec_pqc_platform.Alerts.Raising.{Extends, evaluate_once_lem}
use quansec_pqc_platform.Alerts.Silence.{
  IsLive, IsSilent, two_rules_only, evaluate_all, evaluate_all-IsSilent,
}

abbrev classical : Platform
classical = record {
  tunnels = record { pqc_enabled = false; kex_algorithm = none } ∷ [];
  ssh_sessions = [];
  zt_audit = none;
  observations = record { outcome = codes "refused"; pqc_enabled = false } ∷ [];
}

abbrev none_yet : AlertDb
none_yet = record { alerts = []; next_id = 1 }

abbrev acked_tunnel : AlertDb
acked_tunnel = ack_alert 1 (evaluate_once classical none_yet)

-- The refused TLS observation raises nothing.
one_alert :
    (evaluate_once classical none_yet).alerts
    ≡ record {
      id = 1;
      rule = codes "downgrade_detected";
      severity = codes "critical";
      protocol = codes "ipsec";
      message = codes "IPsec tunnel using classical KEX: None";
      fingerprint = codes "ipsec-downgrade-None";
      acked = false;
    }
      ∷ []
unfolding evaluate_once raise_all raise_alert reports tunnel_reports session_reports
    rejection_reports tls_reports has_column has_alert alert_of eq_text
one_alert = refl

evaluate_once_lem_example :
    Extends (reports classical) [] (evaluate_once classical none_yet).alerts
    × All
        (λ (r : Report). has_alert r.fingerprint (evaluate_once classical none_yet).alerts ≡ true)
        (reports classical)
    × ((evaluate_once classical (evaluate_once classical none_yet)).alerts
        ≡ (evaluate_once classical none_yet).alerts)
evaluate_once_lem_example = evaluate_once_lem classical none_yet

two_rules_only_example :
    (new : List Alert) × ((evaluate_once classical none_yet).alerts ≡ [] ++ new)
    × All (λ (a : Alert). IsLive a.rule) new
two_rules_only_example = two_rules_only classical none_yet

evaluate_all-IsSilent_example :
    IsSilent (codes "ipsec-downgrade-None") (evaluate_all (classical ∷ []) acked_tunnel).alerts
unfolding evaluate_once raise_all raise_alert reports tunnel_reports session_reports
    rejection_reports tls_reports has_column has_alert alert_of eq_text ack_alert IsSilent
evaluate_all-IsSilent_example =
    evaluate_all-IsSilent (codes "ipsec-downgrade-None") (classical ∷ []) acked_tunnel refl
      (λ e. refl, tt)
