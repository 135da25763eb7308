-- ===== src/Tls/Apply.antt =====
-- quansec/protocols/tls/policy.py, `record_policy_state` and `apply_policy`, with the calls of
-- quansec/protocols/tls/service.py that drive NGINX. What a run of the nginx binary gives is an input; the
-- table tls_policy_state has the rows of one policy name, newest first.
pub mod Outcomes
pub mod Soundness
use quansec_pqc_platform.Prelude.{
  ℕ, suc, Bool, true, false, ◌&&◌, Option, none, some, List, [], ◌∷◌, ◌++◌, map, Text, codes, strip,
  take, keep, find, ◌==◌, if◌then◌else◌,
}
use quansec_pqc_platform.Json.{Fields, str, arr, flag, field, end, strings, opt_str}
use quansec_pqc_platform.Tls.Policy.{TlsSettings, PolicyView, intended_policy}

pub record StateRow : Type 0 where
  pub id : ℕ
  pub ssl_protocols : Text
  pub groups : Text
  pub ciphersuites : Text
  pub mtls_enabled : Bool
  pub early_data : Bool
  pub listen_addr : Text
  pub config_path : Text
  pub config_sha256 : Option Text
  pub validated : Bool
  pub active : Bool
  pub applied_by : Text

pub record TlsEvent : Type 0 where
  pub event_type : Text
  pub severity : Text
  pub summary : Text
  pub detail : Fields

-- The two tables, and the text of nginx.conf.
pub record TlsDb : Type 0 where
  pub states : List StateRow
  pub next_state : ℕ
  pub events : List TlsEvent
  pub on_disk : Option Text

-- subprocess.CompletedProcess; `none` is a program that could not run.
pub record Completed : Type 0 where
  pub succeeded : Bool
  pub stdout : Text
  pub stderr : Text

-- The runs of one apply: `nginx -t`, the test of the pid, `nginx -t` again and `nginx -s reload`.
pub record Runs : Type 0 where
  pub test : Option Completed
  pub running : Bool
  pub retest : Option Completed
  pub signal : Option Completed

-- The dictionary that apply_policy returns; the wording of the refusal is left out.
pub data Applied : Type 0 where
  not_fail_closed : PolicyView → Applied
  invalid_config : Text → PolicyView → Applied
  applied : ℕ → Bool → Text → Text → PolicyView → Applied

unfoldable pub validate_config : Text → Option Completed → Bool × Text
validate_config nginx_bin none = (false, codes "could not execute " ++ nginx_bin)
validate_config nginx_bin (some r) = (r.succeeded, strip (r.stdout ++ r.stderr))

abbrev signalled : Option Completed → Bool × Text
signalled none = (false, codes "could not execute nginx")
signalled (some r) = if r.succeeded then (true, codes "reloaded") else (false, strip r.stderr)

abbrev pub reload_nginx : Text → Runs → Bool × Text
reload_nginx nginx_bin runs =
    let (ok, output) = validate_config nginx_bin runs.retest in
    if ok then signalled runs.signal else (false, output)

-- record_event
abbrev pub record_event : Text → Text → Text → Fields → TlsDb → TlsDb
record_event event_type summary severity detail db = record db {
  events =
      record { event_type = event_type; severity = severity; summary = summary; detail = detail }
      ∷ db.events;
}

abbrev pub inactive : StateRow → StateRow
inactive r = record r { active = false }

abbrev pub deactivate : List StateRow → List StateRow
deactivate rs = map inactive rs

abbrev pub deactivate_one : ℕ → List StateRow → List StateRow
deactivate_one id rs = map (λ r. if r.id == id then inactive r else r) rs

abbrev pub or_empty_text : Option Text → Text
or_empty_text none = []
or_empty_text (some t) = t

abbrev pub state_row : PolicyView → Bool → Text → Text → ℕ → StateRow
state_row view validated applied_by config_path id = record {
  id = id;
  ssl_protocols = view.protocols;
  groups = view.groups;
  ciphersuites = view.ciphersuites;
  mtls_enabled = view.mtls;
  early_data = view.early_data;
  listen_addr = or_empty_text view.listen;
  config_path = config_path;
  config_sha256 = view.config_sha256;
  validated = validated;
  active = true;
  applied_by = applied_by;
}

unfoldable pub record_policy_state : PolicyView → Bool → Text → Text → TlsDb → ℕ × TlsDb
record_policy_state view validated applied_by config_path db = (
  db.next_state,
  record db {
    states = state_row view validated applied_by config_path db.next_state ∷ deactivate db.states;
    next_state = suc db.next_state;
  },
)

-- What active_policy_state chooses from; ORDER BY is not modelled.
abbrev pub active_rows : TlsDb → List StateRow
active_rows db = keep (λ r. r.active) db.states

-- active_policy_state, where at most one row is active.
abbrev pub active_policy_state : TlsDb → Option StateRow
active_policy_state db = find (λ r. r.active) db.states

abbrev by : Text → Fields
by applied_by = field (codes "applied_by") (str applied_by) end

abbrev refused_detail : PolicyView → Text → Fields
refused_detail view applied_by = field (codes "groups") (str view.groups) (
    field (codes "protocols") (str view.protocols)
      (field (codes "fallback_groups") (arr (strings view.fallback_groups)) (by applied_by)))

abbrev applied_detail : PolicyView → Bool → Text → Fields
applied_detail view reloaded applied_by = field (codes "groups") (str view.groups) (
    field (codes "protocols") (str view.protocols) (
      field (codes "ciphersuites") (str view.ciphersuites) (
        field (codes "mtls") (flag view.mtls) (
          field (codes "config_sha256") (opt_str view.config_sha256)
            (field (codes "reloaded") (flag reloaded) (by applied_by))))))

-- The answer to an attempt to reload, as an event.
abbrev pub record_reload : Text → Bool × Text → TlsDb → (Bool × Text) × TlsDb
record_reload applied_by (true, detail) db = (
  (true, detail),
  record_event (codes "service_reload") (codes "NGINX reloaded with the new policy") (codes "info")
      (field (codes "applied_by") (str applied_by)
        (field (codes "output") (str (take 1000 detail)) end))
      db,
)
record_reload applied_by (false, detail) db = (
  (false, detail),
  record_event (codes "config_rejected") (codes "NGINX reload failed: " ++ detail)
      (codes "critical")
      (field (codes "applied_by") (str applied_by)
        (field (codes "output") (str (take 1000 detail)) end))
      db,
)

abbrev pub maybe_reload : Bool → TlsSettings → Text → Runs → TlsDb → (Bool × Text) × TlsDb
maybe_reload reload s applied_by runs db =
    if reload
    then (if runs.running then record_reload applied_by (reload_nginx s.nginx_bin runs) db else (
      (false, codes "NGINX is not running; the configuration will take effect on the next start"),
      db,
    ))
    else ((false, codes "not requested"), db)

abbrev pub record_validated : PolicyView → Text → TlsDb → TlsDb
record_validated view applied_by =
    record_event (codes "config_validated") (codes "nginx -t accepted the rendered configuration")
      (codes "info") (field (codes "config_sha256") (opt_str view.config_sha256) (by applied_by))

-- From the event `config_validated`.
unfoldable pub activate :
    TlsSettings → PolicyView → Text → Bool → Runs → ℕ → Text → TlsDb → Applied × TlsDb
activate s view applied_by reload runs id output db =
    let ((reloaded, detail), after) =
      maybe_reload reload s applied_by runs (record_validated view applied_by db) in
    (
      applied id reloaded detail output view,
      record_event (codes "policy_applied") (codes "TLS policy applied") (codes "info")
          (applied_detail view reloaded applied_by) after,
    )

unfoldable pub reject : PolicyView → Text → ℕ → Text → TlsDb → Applied × TlsDb
reject view applied_by id output db = (
  invalid_config output view,
  record_event (codes "config_rejected") (codes "nginx -t rejected the rendered configuration")
      (codes "critical") (field (codes "output") (str (take 2000 output)) (by applied_by))
      (record db { states = deactivate_one id db.states }),
)

module _ (sha256 : Text → Text) (render : TlsSettings → Text) where
  abbrev pub write_config : TlsSettings → TlsDb → TlsDb
  write_config s db = record db { on_disk = some (render s) }

  -- After `nginx -t`, by its verdict.
  abbrev pub conclude :
      Bool → Text → PolicyView → Text → TlsSettings → Bool → Runs → TlsDb → Applied × TlsDb
  conclude ok output view applied_by s reload runs db =
      let (id, db') = record_policy_state view ok applied_by s.nginx_conf db in
      if ok
      then activate s view applied_by reload runs id output db'
      else reject view applied_by id output db'

  -- After `if not view.fail_closed`, by its test.
  unfoldable pub proceed :
      Bool → PolicyView → Text → TlsSettings → Bool → Runs → TlsDb → Applied × TlsDb
  proceed false view applied_by s reload runs db = (
    not_fail_closed view,
    record_event (codes "config_rejected")
        (codes "Refused to apply a policy that is not fail-closed") (codes "critical")
        (refused_detail view applied_by) db,
  )
  proceed true view applied_by s reload runs db =
      let (ok, output) = validate_config s.nginx_bin runs.test in
      conclude ok output view applied_by s reload runs (write_config s db)

  unfoldable pub apply_policy : Text → TlsSettings → Bool → Runs → TlsDb → Applied × TlsDb
  unfolding proceed
  apply_policy applied_by s reload runs db =
      let view = intended_policy sha256 render s in
      proceed view.fail_closed view applied_by s reload runs db
