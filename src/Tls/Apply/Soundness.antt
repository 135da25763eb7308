-- ===== src/Tls/Apply/Soundness.antt =====
-- quansec/protocols/tls/policy.py, `apply_policy`: the invariant of the table and of the file on disk.
use quansec_pqc_platform.Prelude.{
  ◌≡◌, sym, ◌∙◌, Bool, true, Option, none, some, Text, length, All, ◌≤◌, arith,
}
use quansec_pqc_platform.Tls.Policy.{
  TlsSettings, is_fail_closed, only_tls13, evaluate, intended_policy,
}
use quansec_pqc_platform.Tls.Apply.{
  StateRow, TlsDb, Completed, Runs, Applied, not_fail_closed, invalid_config, applied, active_rows,
  apply_policy,
}
use quansec_pqc_platform.Tls.Apply.Outcomes.{Outcome, apply_policy_exact}

abbrev digest_of : (Text → Text) → Option Text → Option Text
digest_of sha256 none = none
digest_of sha256 (some text) = some (sha256 text)

-- NGINX accepts the file on disk.
abbrev pub IsAccepted : (Text → Bool) → Option Text → Type 0
IsAccepted accepts none = ⊥
IsAccepted accepts (some text) = accepts text ≡ true

-- A row whose policy refuses classical key exchange, tested, and whose configuration is the one on disk.
pub record IsEnforced (sha256 : Text → Text) (accepts : Text → Bool) (hybrid : Text)
    (on_disk : Option Text) (r : StateRow) : Type 0 where
  pub validated : r.validated ≡ true
  pub only_hybrid : (is_fail_closed r.groups hybrid).0 ≡ true
  pub tls13 : only_tls13 r.ssl_protocols ≡ true
  pub accepted : IsAccepted accepts on_disk
  pub current : r.config_sha256 ≡ digest_of sha256 on_disk

pub record IsSound (sha256 : Text → Text) (accepts : Text → Bool) (hybrid : Text) (db : TlsDb)
    : Type 0 where
  pub one_active : length (active_rows db) ≤ 1
  pub enforced : All (IsEnforced sha256 accepts hybrid db.on_disk) (active_rows db)

-- The runs of `nginx -t` give the verdict of `accepts`, where the program could run.
abbrev pub IsVerdict : (Text → Bool) → Text → Runs → Type 0
IsVerdict accepts text runs = (r : Completed) → runs.test ≡ some r → r.succeeded ≡ accepts text

module _ (sha256 : Text → Text) (render : TlsSettings → Text) (accepts : Text → Bool) where
  intended_policy-closed :
      (s : TlsSettings)
      → (intended_policy sha256 render s).fail_closed ≡ true
      → ((is_fail_closed s.groups s.hybrid_group).0 ≡ true) × (only_tls13 s.protocols ≡ true)
  unfolding intended_policy evaluate
  intended_policy-closed s e = (ground (arith, e), ground (arith, e))

  Outcome-IsSound :
      (s : TlsSettings) (runs : Runs) (answer : Applied) (db db' : TlsDb)
      → IsVerdict accepts (render s) runs
      → IsSound sha256 accepts s.hybrid_group db
      → Outcome sha256 render s runs answer db db'
      → IsSound sha256 accepts s.hybrid_group db'
  Outcome-IsSound s runs (not_fail_closed view) db db' verdict sound
        (_, same_states, same_disk, _) =
      record {
        one_active = rw same_states sound.one_active;
        enforced = rw (same_states, same_disk) sound.enforced;
      }
  Outcome-IsSound s runs (invalid_config output view) db db' verdict sound
        (_, _, none_active, _, _) =
      record { one_active = rw none_active (omega arith); enforced = rw none_active tt }
  Outcome-IsSound s runs (applied id reloaded detail output view) db db' verdict sound
        (closed, (r, ran, passed, said), disk, force) =
      let (only_hybrid, tls13) = intended_policy-closed s closed in
      record {
        one_active = rw force.only_active (omega arith);
        enforced =
            rw (force.only_active, disk)
              (
                record {
                  validated = force.validated;
                  only_hybrid = rw force.same_groups only_hybrid;
                  tls13 = rw force.same_protocols tls13;
                  accepted = sym (verdict r ran) ∙ passed;
                  current = force.digest;
                },
                tt,
              );
      }

  -- `apply_policy` keeps at most one row active, and an active row stands for a policy with the hybrid
  -- group and TLS 1.3 only, recorded as validated, whose digest is that of the file on disk, which
  -- NGINX accepts. This is where each run of `nginx -t` that could run gives the verdict `accepts` of the
  -- rendered file.
  pub apply_policy-IsSound :
      (by : Text) (s : TlsSettings) (reload : Bool) (runs : Runs) (db : TlsDb)
      → IsVerdict accepts (render s) runs
      → IsSound sha256 accepts s.hybrid_group db
      → IsSound sha256 accepts s.hybrid_group (apply_policy sha256 render by s reload runs db).1
  apply_policy-IsSound by s reload runs db verdict sound =
      Outcome-IsSound s runs (apply_policy sha256 render by s reload runs db).0 db _ verdict sound
        (apply_policy_exact sha256 render by s reload runs db)
