-- ===== src/Ssh/Tests.antt =====
-- A host on which the hybrid policy is applied and rolled back, and keys that are signed.
use quansec_pqc_platform.Prelude.{
  ◌≡◌, refl, Bool, true, none, some, List, [], ◌∷◌, ◌++◌, Text, codes, eq_text, strip, lstrip,
  is_space, starts_with, join, contains_text, upper, words, words_from,
}
use quansec_pqc_platform.Http.{ok, http_error}
use quansec_pqc_platform.HostAgent.{Host, finished, SshRuns, updated, split_lines, apply_ssh}
use quansec_pqc_platform.HostAgent.Lines.{ends_line}
use quansec_pqc_platform.HostAgent.Rewrites.{has_place}
use quansec_pqc_platform.Ssh.Policies.{
  SshWorld, connected, no_reply, kex_policy, apply_ssh_policy, ssh_policy_rollback, roll_back_to,
  on_known, on_controlled, record_ssh_policy, host_control_request,
}
use quansec_pqc_platform.Ssh.Policies.Outcomes.{Outcome, apply_ssh_policy_exact}
use quansec_pqc_platform.Ssh.Policies.History.{
  Call, Synced, IsReady, after_calls, after_calls-Synced, rollback_twice,
}
use quansec_pqc_platform.Ssh.Ca.{
  IssueRequest, CaDb, produced, is_public_key, are_key_words, is_key_type, is_base64, refusal,
  issue_certificate,
}
use quansec_pqc_platform.Ssh.Ca.Serials.{Issue, issue_certificate_exact}

abbrev sshd_host : Host
sshd_host = record {
  sshd_config = some (codes "KexAlgorithms curve25519-sha256" ++ (10 ∷ []));
  sshd_binary = true;
}

abbrev went_well : SshRuns
went_well = record { test = finished []; reload = finished (codes "done") }

abbrev unapplied : SshWorld
unapplied = record { host = sshd_host; history = []; events = [] }

apply_ssh_policy_exact_example :
    Outcome
      (codes "pqc-hybrid")
      connected
      went_well
      unapplied
      (apply_ssh_policy (codes "pqc-hybrid") connected went_well unapplied)
apply_ssh_policy_exact_example =
    apply_ssh_policy_exact (codes "pqc-hybrid") connected went_well unapplied

abbrev calls : List Call
calls =
    record { target = some (codes "pqc-hybrid"); link = connected; runs = went_well }
    ∷ record { target = some (codes "classical"); link = connected; runs = went_well }
    ∷ record { target = none; link = connected; runs = went_well }
    ∷ []

sshd_host-IsReady : IsReady sshd_host
unfolding IsReady has_place ends_line split_lines strip lstrip is_space starts_with
sshd_host-IsReady = refl

after_calls-Synced_example : Synced (after_calls calls unapplied)
unfolding Synced
after_calls-Synced_example =
    after_calls-Synced calls unapplied (tt, (tt, (tt, tt))) sshd_host-IsReady tt

abbrev both : SshWorld
both = record {
  host = sshd_host;
  history =
      record { policy_name = codes "classical"; kex = codes "curve25519-sha256" }
      ∷ record { policy_name = codes "pqc-hybrid"; kex = codes "mlkem768x25519-sha256" }
      ∷ [];
  events = [];
}

abbrev rolled_back : SshWorld
rolled_back = (ssh_policy_rollback connected went_well both).1

abbrev rolled_back_again : SshWorld
rolled_back_again = (ssh_policy_rollback connected went_well rolled_back).1

to_previous : ssh_policy_rollback connected went_well both ≡ (ok (codes "pqc-hybrid"), rolled_back)
unfolding ssh_policy_rollback roll_back_to apply_ssh_policy on_known on_controlled record_ssh_policy
    host_control_request kex_policy apply_ssh split_lines updated eq_text strip lstrip is_space
    starts_with join
to_previous = refl

and_back :
    ssh_policy_rollback connected went_well rolled_back
    ≡ (ok (codes "classical"), rolled_back_again)
unfolding ssh_policy_rollback roll_back_to apply_ssh_policy on_known on_controlled record_ssh_policy
    host_control_request kex_policy apply_ssh split_lines updated eq_text strip lstrip is_space
    starts_with join
and_back = refl

rollback_twice_example :
    (some (codes "pqc-hybrid") ≡ some (codes "pqc-hybrid"))
    × (some (codes "classical") ≡ some (codes "classical"))
rollback_twice_example =
    rollback_twice (codes "pqc-hybrid") (codes "classical") connected connected went_well went_well
      both rolled_back rolled_back_again
      (record { policy_name = codes "classical"; kex = codes "curve25519-sha256" })
      (record { policy_name = codes "pqc-hybrid"; kex = codes "mlkem768x25519-sha256" }) [] refl
      to_previous and_back

-- The agent changed the host, and its answer did not arrive: the reply is 503, and no row tells of it.
lost_answer :
    apply_ssh_policy (codes "pqc-hybrid") (no_reply (codes "timed out")) went_well unapplied ≡ (
      http_error 503 (codes "timed out"),
      record unapplied {
        host = record sshd_host {
          sshd_config = some (codes "KexAlgorithms mlkem768x25519-sha256" ++ (10 ∷ []));
        };
      },
    )
unfolding apply_ssh_policy on_known on_controlled record_ssh_policy host_control_request kex_policy
    apply_ssh split_lines updated eq_text strip lstrip is_space starts_with join
lost_answer = refl

abbrev alice : IssueRequest
alice = record {
  public_key = codes " ssh-ed25519 AAAAC3Nz alice@bank.com ";
  identity = codes "alice@bank.com";
  principals = codes "hd6441";
  valid_hours = 8;
}

abbrev any_detail : Text → Bool
any_detail t = true

abbrev no_certs : CaDb
no_certs = record { issued = []; events = [] }

issue_certificate_exact_example :
    Issue any_detail 100
      (λ serial. produced (codes "cert"))
      alice
      no_certs
      (issue_certificate any_detail 100 (λ serial. produced (codes "cert")) alice no_certs)
issue_certificate_exact_example =
    issue_certificate_exact any_detail 100 (λ serial. produced (codes "cert")) alice no_certs

good_key : refusal (strip alice.public_key) ≡ none
unfolding refusal is_public_key are_key_words words words_from is_key_type is_base64 contains_text
    upper strip lstrip is_space eq_text starts_with
good_key = refl

-- The words of a key may stand on two lines.
two_lines : is_public_key (codes "ssh-rsa" ++ (10 ∷ codes "AAAA")) ≡ true
unfolding is_public_key are_key_words words words_from is_key_type is_base64 is_space eq_text
two_lines = refl
