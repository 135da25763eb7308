-- ===== src/Tls/Apply/Outcomes.antt =====
-- quansec/protocols/tls/policy.py, `apply_policy`: what each answer leaves.
use quansec_pqc_platform.Prelude.{
  ℕ, ◌≡◌, refl, ap, ◌∙◌, ◌⊎◌, inl, inr, Bool, true, false, Option, none, some, List, [], ◌∷◌, ◌++◌,
  Text, codes, strip, keep, find, ◌==◌, arith, Bool-cases,
}
use quansec_pqc_platform.Tls.Policy.{TlsSettings, PolicyView, intended_policy, evaluate}
use quansec_pqc_platform.Tls.Apply.{
  StateRow, TlsEvent, TlsDb, Completed, Runs, validate_config, Applied, not_fail_closed,
  invalid_config, applied, reload_nginx, record_reload, deactivate, deactivate_one, active_rows,
  active_policy_state, state_row, record_policy_state, maybe_reload, record_validated, activate,
  reject, write_config, conclude, proceed, apply_policy,
}

pub keep-deactivate : (rs : List StateRow) → keep (λ r. r.active) (deactivate rs) ≡ []
keep-deactivate [] = refl
keep-deactivate (r ∷ rs) = keep-deactivate rs

==_refl : (n : ℕ) → (n == n) ≡ true
==_refl n = ground arith

pub keep-deactivate_one :
    (id : ℕ) (rs : List StateRow) → keep (λ r. r.active) (deactivate_one id (deactivate rs)) ≡ []
keep-deactivate_one id [] = refl
keep-deactivate_one id (r ∷ rs) = elim (Bool-cases (r.id == id)) [
  | inl e ↦ rw e (keep-deactivate_one id rs)
  | inr e ↦ rw e (keep-deactivate_one id rs)
]

-- A reload, made or not, changes the events only.
pub record Reloaded (db db' : TlsDb) : Type 0 where
  pub same_states : db'.states ≡ db.states
  pub same_next : db'.next_state ≡ db.next_state
  pub same_disk : db'.on_disk ≡ db.on_disk

maybe_reload-Reloaded :
    (reload : Bool) (s : TlsSettings) (by : Text) (runs : Runs) (db : TlsDb)
    → Reloaded db (maybe_reload reload s by runs db).1
maybe_reload-Reloaded false s by runs db = record {
  same_states = refl;
  same_next = refl;
  same_disk = refl;
}
maybe_reload-Reloaded true s by runs db = elim (Bool-cases runs.running) [
  | inr e ↦ rw e (record { same_states = refl; same_next = refl; same_disk = refl })
  | inl e ↦ rw e (recorded (reload_nginx s.nginx_bin runs))
]
  where
    recorded : (answer : Bool × Text) → Reloaded db (record_reload by answer db).1
    recorded (true, detail) = record { same_states = refl; same_next = refl; same_disk = refl }
    recorded (false, detail) = record { same_states = refl; same_next = refl; same_disk = refl }

pub activate-Reloaded :
    (s : TlsSettings) (view : PolicyView) (by : Text) (reload : Bool) (runs : Runs) (id : ℕ)
    (output : Text) (db : TlsDb)
    → Reloaded db (activate s view by reload runs id output db).1
unfolding activate
activate-Reloaded s view by reload runs id output db =
    let same = maybe_reload-Reloaded reload s by runs (record_validated view by db) in
    record {
      same_states = same.same_states;
      same_next = same.same_next;
      same_disk = same.same_disk;
    }

-- What `nginx -t` said, with its output: it could not run, it refused, or it accepted.
abbrev pub Verdict : Text → Option Completed → Bool → Text → Type 0
Verdict nginx_bin test false output =
    ((test ≡ none) × (output ≡ codes "could not execute " ++ nginx_bin))
    ⊎ ((r : Completed) × (test ≡ some r)
        × (r.succeeded ≡ false)
        × (output ≡ strip (r.stdout ++ r.stderr)))
Verdict nginx_bin test true output =
    (r : Completed) × (test ≡ some r)
    × (r.succeeded ≡ true)
    × (output ≡ strip (r.stdout ++ r.stderr))

validate_config-Verdict :
    (nginx_bin : Text) (test : Option Completed)
    → let (ok, output) = validate_config nginx_bin test in Verdict nginx_bin test ok output
unfolding validate_config
validate_config-Verdict nginx_bin none = inl (refl, refl)
validate_config-Verdict nginx_bin (some r) = by_flag r.succeeded refl
  where
    by_flag :
        (ok : Bool)
        → r.succeeded ≡ ok
        → Verdict nginx_bin (some r) ok (strip (r.stdout ++ r.stderr))
    by_flag true e = (r, refl, e, refl)
    by_flag false e = inr (r, refl, e, refl)

module _ (sha256 : Text → Text) (render : TlsSettings → Text) where
  -- The one active row, and the file it stands for.
  pub record IsInForce (s : TlsSettings) (id : ℕ) (db : TlsDb) : Type 0 where
    pub row : StateRow
    pub only_active : active_rows db ≡ row ∷ []
    pub reported : active_policy_state db ≡ some row
    pub same_id : row.id ≡ id
    pub validated : row.validated ≡ true
    pub same_groups : row.groups ≡ s.groups
    pub same_protocols : row.ssl_protocols ≡ s.protocols
    pub digest : row.config_sha256 ≡ some (sha256 (render s))

  abbrev pub Outcome : TlsSettings → Runs → Applied → TlsDb → TlsDb → Type 0
  Outcome s runs (not_fail_closed view) db db' =
      ((intended_policy sha256 render s).fail_closed ≡ false)
      × (db'.states ≡ db.states)
      × (db'.on_disk ≡ db.on_disk)
      × ((e : TlsEvent) × (db'.events ≡ e ∷ db.events) × (e.severity ≡ codes "critical"))
  Outcome s runs (invalid_config output view) db db' =
      ((intended_policy sha256 render s).fail_closed ≡ true)
      × Verdict s.nginx_bin runs.test false output
      × (active_rows db' ≡ [])
      × (db'.on_disk ≡ some (render s))
      × ((e : TlsEvent) × (db'.events ≡ e ∷ db.events) × (e.severity ≡ codes "critical"))
  Outcome s runs (applied id reloaded detail output view) db db' =
      ((intended_policy sha256 render s).fail_closed ≡ true)
      × Verdict s.nginx_bin runs.test true output
      × (db'.on_disk ≡ some (render s))
      × IsInForce s id db'

  conclude-Outcome :
      (ok : Bool) (output : Text) (view : PolicyView) (by : Text) (s : TlsSettings) (reload : Bool)
      (runs : Runs) (db : TlsDb)
      → view ≡ intended_policy sha256 render s
      → (intended_policy sha256 render s).fail_closed ≡ true
      → Verdict s.nginx_bin runs.test ok output
      → let (answer, db') =
          conclude sha256 render ok output view by s reload runs
            (write_config sha256 render s db) in
        Outcome s runs answer db db'
  unfolding record_policy_state reject activate intended_policy evaluate
  conclude-Outcome false output view by s reload runs db same closed verdict = (
    closed,
    verdict,
    rw (==_refl db.next_state) (keep-deactivate_one db.next_state db.states),
    refl,
    (_, refl, refl),
  )
  conclude-Outcome true output view by s reload runs db same closed verdict =
      let db₁ =
        (record_policy_state view true by s.nginx_conf (write_config sha256 render s db)).1 in
      let kept = activate-Reloaded s view by reload runs db.next_state output db₁ in
      (
        closed,
        verdict,
        kept.same_disk,
        record {
          row = state_row view true by s.nginx_conf db.next_state;
          only_active =
              ap (keep (λ (r : StateRow). r.active)) kept.same_states
              ∙ ap (λ (rs : List StateRow). state_row view true by s.nginx_conf db.next_state ∷ rs)
                  (keep-deactivate db.states);
          reported = ap (find (λ (r : StateRow). r.active)) kept.same_states;
          same_id = refl;
          validated = refl;
          same_groups = ap (λ (v : PolicyView). v.groups) same;
          same_protocols = ap (λ (v : PolicyView). v.protocols) same;
          digest = ap (λ (v : PolicyView). v.config_sha256) same;
        },
      )

  proceed-Outcome :
      (closed : Bool) (view : PolicyView) (by : Text) (s : TlsSettings) (reload : Bool)
      (runs : Runs) (db : TlsDb)
      → view ≡ intended_policy sha256 render s
      → (intended_policy sha256 render s).fail_closed ≡ closed
      → let (answer, db') = proceed sha256 render closed view by s reload runs db in
        Outcome s runs answer db db'
  unfolding proceed
  proceed-Outcome false view by s reload runs db same open_ = (open_, refl, refl, (_, refl, refl))
  proceed-Outcome true view by s reload runs db same closed =
      conclude-Outcome _ _ view by s reload runs db same closed
        (validate_config-Verdict s.nginx_bin runs.test)

  -- `apply_policy`, for every setting and every run of NGINX. A policy that is not fail-closed is refused:
  -- the table and the file are as before, and one critical event is recorded. Else the rendered file is on
  -- disk, and `nginx -t` decides. If it could not run or rejected the file, the answer has its output,
  -- one critical event is recorded, and no row is active any more. If it accepted the file, the
  -- policy is applied: the one active row is the new one, validated, with the groups and protocols of the
  -- settings and the digest of that file.
  pub apply_policy_exact :
      (by : Text) (s : TlsSettings) (reload : Bool) (runs : Runs) (db : TlsDb)
      → let (answer, db') = apply_policy sha256 render by s reload runs db in
        Outcome s runs answer db db'
  unfolding apply_policy
  apply_policy_exact by s reload runs db =
      proceed-Outcome _ (intended_policy sha256 render s) by s reload runs db refl refl
