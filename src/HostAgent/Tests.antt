-- ===== src/HostAgent/Tests.antt =====
-- The hybrid policy on a small configuration, and a reload that fails.
use quansec_pqc_platform.Prelude.{
  ◌≡◌, refl, ◌⊎◌, true, some, [], ◌∷◌, ◌++◌, Text, codes, eq_text, strip, lstrip, is_space,
  starts_with, join,
}
use quansec_pqc_platform.HostAgent.{
  Host, finished, raised, SshRuns, applied, failure, split_lines, updated, apply_ssh,
}
use quansec_pqc_platform.HostAgent.Rollback.{Reason, IsChanged, apply_ssh_exact}

abbrev line_feed : Text
line_feed = 10 ∷ []

abbrev host : Host
host = record {
  sshd_config = some (codes "Port 22" ++ (line_feed ++ (codes " KexAlgorithms x" ++ line_feed)));
  sshd_binary = true;
}

abbrev went_well : SshRuns
went_well = record { test = finished []; reload = finished (codes "done") }

abbrev not_reloaded : SshRuns
not_reloaded = record { test = finished []; reload = raised (codes "failed") }

hybrid_applied : apply_ssh (codes "pqc-hybrid") went_well host ≡ (
  applied (codes "pqc-hybrid") (codes "done"),
  record {
    sshd_config = some (
        codes "Port 22"
        ++ (line_feed ++ (codes "KexAlgorithms mlkem768x25519-sha256" ++ line_feed)));
    sshd_binary = true;
  },
)
unfolding apply_ssh split_lines updated eq_text strip lstrip is_space starts_with join
hybrid_applied = refl

-- Without a line feed at the end, the added line is none of its own.
run_together :
    apply_ssh
      (codes "pqc-hybrid")
      went_well
      (record { sshd_config = some (codes "Port 22"); sshd_binary = true })
    ≡ (
      applied (codes "pqc-hybrid") (codes "done"),
      record {
        sshd_config = some (codes "Port 22KexAlgorithms mlkem768x25519-sha256" ++ line_feed);
        sshd_binary = true;
      },
    )
unfolding apply_ssh split_lines updated eq_text strip lstrip is_space starts_with join
run_together = refl

rolled_back : apply_ssh (codes "pqc-hybrid") not_reloaded host ≡ (failure (codes "failed"), host)
unfolding apply_ssh eq_text
rolled_back = refl

apply_ssh_exact_example :
    (((e : Text) × ((apply_ssh (codes "pqc-hybrid") went_well host).0 ≡ failure e)
        × Reason (codes "pqc-hybrid") went_well host e)
      × ((apply_ssh (codes "pqc-hybrid") went_well host).1 ≡ host))
    ⊎ IsChanged
        (codes "pqc-hybrid")
        went_well
        host
        (apply_ssh (codes "pqc-hybrid") went_well host).1
        (apply_ssh (codes "pqc-hybrid") went_well host).0
apply_ssh_exact_example = apply_ssh_exact (codes "pqc-hybrid") went_well host
