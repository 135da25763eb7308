-- ===== src/Alerts.antt =====
-- quansec/protocols/alerts/router.py: the rules that raise alerts, and the acknowledgement of an alert. The
-- rows that the queries select are inputs. The table alerts stands in the order of insertion. Of the tables of
-- the TLS part, the model has what the migrations create.
pub mod Raising
pub mod Silence
mod Tests
use quansec_pqc_platform.Prelude.{
  ℕ, suc, Bool, true, false, not, ◌&&◌, Option, none, some, List, [], ◌∷◌, ◌++◌, map, Text, codes,
  eq_text, any, all, keep, take, count, length, ltb, ◌==◌, if◌then◌else◌,
}
use quansec_pqc_platform.AccessTokens.Decimal.{decimal}

pub record Alert : Type 0 where
  pub id : ℕ
  pub rule : Text
  pub severity : Text
  pub protocol : Text
  pub message : Text
  pub fingerprint : Text
  pub acked : Bool

pub record AlertDb : Type 0 where
  pub alerts : List Alert
  pub next_id : ℕ

-- The arguments of _raise.
pub record Report : Type 0 where
  pub rule : Text
  pub severity : Text
  pub protocol : Text
  pub message : Text
  pub fingerprint : Text

unfoldable pub has_alert : Text → List Alert → Bool
has_alert fingerprint alerts = any (λ (a : Alert). eq_text a.fingerprint fingerprint) alerts

unfoldable pub alert_of : ℕ → Report → Alert
alert_of id r = record {
  id = id;
  rule = r.rule;
  severity = r.severity;
  protocol = r.protocol;
  message = r.message;
  fingerprint = r.fingerprint;
  acked = false;
}

-- _raise: ON CONFLICT (fingerprint) DO NOTHING. The sequence advances all the same.
unfoldable pub raise_alert : Report → AlertDb → AlertDb
unfolding has_alert alert_of
raise_alert r db = record {
  alerts =
      if has_alert r.fingerprint db.alerts
      then db.alerts
      else db.alerts ++ alert_of db.next_id r ∷ [];
  next_id = suc db.next_id;
}

unfoldable pub raise_all : List Report → AlertDb → AlertDb
unfolding raise_alert
raise_all [] db = db
raise_all (r ∷ rs) db = raise_all rs (raise_alert r db)

-- An established tunnel: its column pqc_kem is read as the key exchange.
pub record IpsecRow : Type 0 where
  pub pqc_enabled : Bool
  pub kex_algorithm : Option Text

pub record SshRow : Type 0 where
  pub pqc_enabled : Bool
  pub kex_algorithm : Option Text
  pub remote_host : Option Text

pub record Rejection : Type 0 where
  pub identity : Option Text
  pub source_ip : Option Text
  pub reason : Option Text
  pub event_time : Text

pub record Observation : Type 0 where
  pub outcome : Text
  pub pqc_enabled : Bool

-- What the queries of one evaluation find. `zt_audit` is `none` before that table is created.
pub record Platform : Type 0 where
  pub tunnels : List IpsecRow
  pub ssh_sessions : List SshRow
  pub zt_audit : Option (List Rejection)
  pub observations : List Observation

-- A value in an f-string.
abbrev pub shown : Option Text → Text
shown none = codes "None"
shown (some t) = t

abbrev pub tunnel_report : IpsecRow → Report
tunnel_report r = record {
  rule = codes "downgrade_detected";
  severity = codes "critical";
  protocol = codes "ipsec";
  message = codes "IPsec tunnel using classical KEX: " ++ shown r.kex_algorithm;
  fingerprint = codes "ipsec-downgrade-" ++ shown r.kex_algorithm;
}

abbrev pub session_report : SshRow → Report
session_report r = record {
  rule = codes "downgrade_detected";
  severity = codes "critical";
  protocol = codes "ssh";
  message =
      codes "SSH session using classical KEX: "
      ++ (shown r.kex_algorithm ++ (codes " (" ++ (shown r.remote_host ++ codes ")")));
  fingerprint =
      codes "ssh-downgrade-" ++ (shown r.remote_host ++ (codes "-" ++ shown r.kex_algorithm));
}

abbrev pub rejection_report : Rejection → Report
rejection_report r = record {
  rule = codes "zt_rejection";
  severity = codes "medium";
  protocol = codes "ssh";
  message =
      codes "Zero Trust rejected: "
      ++ (shown r.identity
          ++ (codes " from "
              ++ (shown r.source_ip ++ (codes " (" ++ (shown r.reason ++ codes ")")))));
  fingerprint = codes "zt-reject-" ++ (r.event_time ++ (codes "-" ++ shown r.source_ip));
}

unfoldable pub tunnel_reports : List IpsecRow → List Report
tunnel_reports rows = map tunnel_report (keep (λ (r : IpsecRow). not r.pqc_enabled) rows)

unfoldable pub session_reports : List SshRow → List Report
session_reports rows = map session_report (keep (λ (r : SshRow). not r.pqc_enabled) rows)

-- The rows come newest first; at most five are read.
unfoldable pub rejection_reports : Option (List Rejection) → List Report
rejection_reports none = []
rejection_reports (some rows) = map rejection_report (take 5 rows)

-- The columns of tls_sessions, which 007_tls.sql creates and 010_tls_portal.sql extends. No migration leaves
-- a table tls_hybrid_evidence.
abbrev pub tls_session_columns : List Text
tls_session_columns =
    codes "id"
    ∷ codes "occurred_at"
    ∷ codes "remote_addr"
    ∷ codes "remote_port"
    ∷ codes "tls_protocol"
    ∷ codes "cipher"
    ∷ codes "negotiated_group"
    ∷ codes "client_groups"
    ∷ codes "client_verify"
    ∷ codes "client_s_dn"
    ∷ codes "server_name"
    ∷ codes "session_reused"
    ∷ codes "http_status"
    ∷ codes "request_time"
    ∷ codes "bytes_sent"
    ∷ codes "request_line"
    ∷ codes "pqc_enabled"
    ∷ codes "kem_label"
    ∷ codes "log_source"
    ∷ codes "log_offset"
    ∷ codes "raw_line"
    ∷ codes "recorded_at"
    ∷ codes "connection_id"
    ∷ codes "hybrid_negotiated"
    ∷ codes "certificate_signature_algorithm"
    ∷ codes "mtls_enabled"
    ∷ codes "client_certificate_verified"
    ∷ codes "started_at"
    ∷ codes "last_seen"
    ∷ codes "request_count"
    ∷ codes "evidence_source"
    ∷ []

unfoldable pub has_column : List Text → Text → Bool
has_column columns c = any (λ d. eq_text d c) columns

abbrev pub is_success : Observation → Bool
is_success o = eq_text o.outcome (codes "success")

abbrev pub down_report : ℕ → Observation → Report
down_report n o = record {
  rule = codes "tls_service_down";
  severity = codes "high";
  protocol = codes "tls";
  message =
      codes "TLS transport service unreachable: last "
      ++ (decimal n ++ (codes " observations failed (" ++ (o.outcome ++ codes ")")));
  fingerprint = codes "tls-down-" ++ o.outcome;
}

unfoldable pub down_reports : List Observation → List Report
down_reports [] = []
down_reports (o ∷ os) =
    if all (λ p. not (is_success p)) (o ∷ os) then down_report (length (o ∷ os)) o ∷ [] else []

-- `verified` is `none` when there is no table of evidence: the query raises, and the rule ends.
unfoldable pub coverage_reports : Option Bool → List Observation → List Report
coverage_reports none recent = []
coverage_reports (some verified) recent =
    let successful = keep is_success recent in
    let classical = count (λ (o : Observation). not o.pqc_enabled) successful in
    if verified && ltb 0 classical
    then record {
      rule = codes "pqc_coverage_drop";
      severity = codes "high";
      protocol = codes "tls";
      message =
          codes "TLS hybrid was verified previously, but "
          ++ (decimal classical
              ++ (codes " of the last "
                  ++ (decimal (length successful)
                      ++ codes " handshakes are not covered by evidence")));
      fingerprint = codes "tls-coverage-drop";
    }
      ∷ []
    else []

-- The query reads these columns; a column that is missing raises, and the rule ends.
unfoldable pub tls_reports : List Text → Option Bool → List Observation → List Report
unfolding has_column down_reports coverage_reports
tls_reports columns verified observations =
    let recent = take 5 observations in
    if all (has_column columns) (codes "outcome" ∷ codes "pqc_enabled" ∷ codes "observed_at" ∷ [])
    then down_reports recent ++ coverage_reports verified recent
    else []

unfoldable pub reports : Platform → List Report
unfolding tunnel_reports session_reports rejection_reports tls_reports
reports p =
    tunnel_reports p.tunnels
    ++ (session_reports p.ssh_sessions
        ++ (tls_reports tls_session_columns none p.observations ++ rejection_reports p.zt_audit))

unfoldable pub evaluate_once : Platform → AlertDb → AlertDb
unfolding raise_all reports
evaluate_once p db = raise_all (reports p) db

abbrev pub ack_one : ℕ → Alert → Alert
ack_one id a = if a.id == id then record a { acked = true } else a

unfoldable pub ack_alert : ℕ → AlertDb → AlertDb
ack_alert id db = record db { alerts = map (ack_one id) db.alerts }
