-- ===== src/Ssh/Policies.antt =====
-- quansec/protocols/ssh/policy.py and quansec/core/host_control.py: the policies of the SSH daemon. The host's agent
-- is the model of host_policy_agent.py. The texts that only describe a policy are left out, and the rows of
-- ssh_policy_history stand newest first.
pub mod Outcomes
pub mod History
use quansec_pqc_platform.Prelude.{
  Bool, true, false, Option, none, some, List, [], ◌∷◌, Text, codes, eq_text, find, if◌then◌else◌,
}
use quansec_pqc_platform.Json.{Fields, field, end, str, flag}
use quansec_pqc_platform.Http.{Response, ok, http_error}
use quansec_pqc_platform.HostAgent.{Host, SshRuns, Answer, applied, failure, apply_ssh}

pub record SshPolicy : Type 0 where
  pub name : Text
  pub kex : Text
  pub pqc : Bool

-- SSH_POLICIES
abbrev pub kex_policies : List SshPolicy
kex_policies =
    record { name = codes "classical"; kex = codes "curve25519-sha256"; pqc = false }
    ∷ record { name = codes "pqc-hybrid"; kex = codes "mlkem768x25519-sha256"; pqc = true }
    ∷ []

unfoldable pub kex_policy : Text → Option SshPolicy
kex_policy name = find (λ (p : SshPolicy). eq_text name p.name) kex_policies

-- A row of audit_events that a protocol's handler inserts by itself.
pub record PolicyEvent : Type 0 where
  pub action : Text
  pub resource : Text
  pub detail : Fields
  pub severity : Text

pub record HistoryRow : Type 0 where
  pub policy_name : Text
  pub kex : Text

pub record SshWorld : Type 0 where
  pub host : Host
  pub history : List HistoryRow
  pub events : List PolicyEvent

-- What becomes of a request to the agent: no connection, an answer that does not arrive, or an answer. The
-- first two carry the text of the error.
pub data Link : Type 0 where
  unreachable : Text → Link
  no_reply : Text → Link
  connected : Link

-- HostControlError, or the result.
pub data Controlled : Type 0 where
  control_error : Text → Controlled
  result : Text → Text → Controlled

abbrev pub control_reply : Answer → Controlled
control_reply (applied policy output) = result policy output
control_reply (failure e) = control_error e

unfoldable pub host_control_request : Link → (Host → Answer × Host) → Host → Controlled × Host
host_control_request (unreachable e) act host = (control_error e, host)
host_control_request (no_reply e) act host =
    let (answer, after) = act host in (control_error e, after)
host_control_request connected act host =
    let (answer, after) = act host in (control_reply answer, after)

pub record SshApplied : Type 0 where
  pub policy : Text
  pub kex : Text
  pub pqc_enabled : Bool
  pub output : Text

-- The audit row and _record_policy.
unfoldable pub record_ssh_policy : Text → SshPolicy → SshWorld → SshWorld
record_ssh_policy name p w = record w {
  events =
      record {
        action = codes "ssh_policy_apply";
        resource = codes "ssh";
        detail = field (codes "policy") (str name) (field (codes "real_daemon") (flag true) end);
        severity = codes "warning";
      }
      ∷ w.events;
  history = record { policy_name = name; kex = p.kex } ∷ w.history;
}

unfoldable pub on_controlled :
    Text → SshPolicy → Controlled × Host → SshWorld → Response SshApplied × SshWorld
unfolding record_ssh_policy
on_controlled name p (control_error e, host) w = (http_error 503 e, record w { host = host })
on_controlled name p (result policy output, host) w = (
  ok (record { policy = name; kex = p.kex; pqc_enabled = p.pqc; output = output }),
  record_ssh_policy name p (record w { host = host }),
)

unfoldable pub on_known :
    Text → Option SshPolicy → Link → SshRuns → SshWorld → Response SshApplied × SshWorld
unfolding on_controlled host_control_request
on_known name none link runs w =
    (http_error 400 (codes "Unknown policy. Available: ['classical', 'pqc-hybrid']"), w)
on_known name (some p) link runs w =
    on_controlled name p (host_control_request link (apply_ssh name runs) w.host) w

unfoldable pub apply_ssh_policy : Text → Link → SshRuns → SshWorld → Response SshApplied × SshWorld
unfolding on_known kex_policy
apply_ssh_policy name link runs w = on_known name (kex_policy name) link runs w

-- The reply of a rollback: the policy it went back to.
abbrev pub rolled_back_reply : Text → Response SshApplied × SshWorld → Response Text × SshWorld
rolled_back_reply previous (ok a, w) = (ok previous, w)
rolled_back_reply previous (http_error status detail, w) = (http_error status detail, w)

unfoldable pub roll_back_to : List HistoryRow → Link → SshRuns → SshWorld → Response Text × SshWorld
unfolding apply_ssh_policy
roll_back_to [] link runs w = (http_error 400 (codes "No previous policy to roll back to"), w)
roll_back_to (row ∷ []) link runs w =
    (http_error 400 (codes "No previous policy to roll back to"), w)
roll_back_to (row ∷ (previous ∷ rest)) link runs w =
    rolled_back_reply previous.policy_name (apply_ssh_policy previous.policy_name link runs w)

unfoldable pub ssh_policy_rollback : Link → SshRuns → SshWorld → Response Text × SshWorld
unfolding roll_back_to
ssh_policy_rollback link runs w = roll_back_to w.history link runs w
