-- ===== src/HostAgent/Rollback.antt =====
-- quansec/host_policy_agent.py, `apply_ssh`: either the whole change, or none.
use quansec_pqc_platform.Prelude.{
  ◌≡◌, refl, ◌⊎◌, inl, inr, Bool, true, false, Option, none, some, [], Text, codes, join,
}
use quansec_pqc_platform.HostAgent.{
  Host, Ran, finished, raised, SshRuns, Answer, applied, failure, missing_runtime, ssh_policies,
  split_lines, updated, write_kex, on_test, on_runtime, on_policy, apply_ssh,
}
use quansec_pqc_platform.HostAgent.Edits.{ssh_policies-IsDirective}
use quansec_pqc_platform.HostAgent.Rewrites.{Edited, updated-Edited}

-- Why a change fails: the policy is unknown, the runtime or its configuration is missing, the test of the new
-- configuration failed, or its reload did.
abbrev pub Reason : Text → SshRuns → Host → Text → Type 0
Reason policy runs host e =
    ((ssh_policies policy ≡ none) × (e ≡ codes "SSH policy is not allow-listed"))
    ⊎ ((((host.sshd_config ≡ none) ⊎ (host.sshd_binary ≡ false)) × (e ≡ missing_runtime))
        ⊎ ((runs.test ≡ raised e)
            ⊎ ((tested : Text) × (runs.test ≡ finished tested) × (runs.reload ≡ raised e))))

-- The change that an answer reports, and the file that is written.
pub record IsChanged (policy : Text) (runs : SshRuns) (host host' : Host) (answer : Answer)
    : Type 0 where
  pub algorithms : Text
  pub text : Text
  pub tested : Text
  pub output : Text
  pub file : Text
  pub allowed : ssh_policies policy ≡ some algorithms
  pub runnable : host.sshd_binary ≡ true
  pub present : host.sshd_config ≡ some text
  pub accepted : runs.test ≡ finished tested
  pub reloaded : runs.reload ≡ finished output
  pub answered : answer ≡ applied policy output
  pub written : host' ≡ record host { sshd_config = some file }
  pub edited : Edited algorithms text file

abbrev Whole : Text → SshRuns → Host → Answer × Host → Type 0
Whole policy runs host (answer, host') =
    (((e : Text) × (answer ≡ failure e) × Reason policy runs host e) × (host' ≡ host))
    ⊎ IsChanged policy runs host host' answer

module _ (policy : Text) (runs : SshRuns) (host : Host) where
  on_test-Whole :
      (a text : Text) (test reload : Ran)
      → ssh_policies policy ≡ some a
      → host.sshd_binary ≡ true
      → host.sshd_config ≡ some text
      → runs.test ≡ test
      → runs.reload ≡ reload
      → Whole policy runs host (
          on_test policy
            (record { test = test; reload = reload })
            test
            host
            (write_kex a text host))
  on_test-Whole a text (raised e) reload known binary present tested reloaded =
      inl ((e, refl, inr (inr (inl tested))), refl)
  on_test-Whole a text (finished t) (raised e) known binary present tested reloaded =
      inl ((e, refl, inr (inr (inr (t, tested, reloaded)))), refl)
  on_test-Whole a text (finished t) (finished output) known binary present tested reloaded =
      inr (record {
        algorithms = a;
        text = text;
        tested = t;
        output = output;
        file = join [] (updated a (split_lines text));
        allowed = known;
        runnable = binary;
        present = present;
        accepted = tested;
        reloaded = reloaded;
        answered = refl;
        written = refl;
        edited = updated-Edited a (ssh_policies-IsDirective policy a known) text;
      })

  on_runtime-Whole :
      (a : Text) (binary : Bool) (file : Option Text)
      → ssh_policies policy ≡ some a
      → host.sshd_binary ≡ binary
      → host.sshd_config ≡ file
      → Whole policy runs host (on_runtime policy a runs binary file host)
  on_runtime-Whole a binary none known run present =
      inl ((_, refl, inr (inl (inl present, refl))), refl)
  on_runtime-Whole a false (some text) known run present =
      inl ((_, refl, inr (inl (inr run, refl))), refl)
  on_runtime-Whole a true (some text) known run present =
      on_test-Whole a text runs.test runs.reload known run present refl refl

  on_policy-Whole :
      (found : Option Text)
      → ssh_policies policy ≡ found
      → Whole policy runs host (on_policy policy found runs host)
  on_policy-Whole none known = inl ((_, refl, inl (known, refl)), refl)
  on_policy-Whole (some a) known =
      on_runtime-Whole a host.sshd_binary host.sshd_config known refl refl

  -- `apply_ssh` is all or nothing. Either it answers with a failure, the host is as it was, and the policy
  -- is unknown, the runtime or its configuration is missing, or the test or the reload failed with that
  -- text. Or none of this is so, and the file is rewritten: where the old file ends with a line break, or
  -- sets the key exchange already, one at least of the lines that are read in the new file is the policy's
  -- directive, no line sets another key exchange, and the other lines are the old ones; where neither is so, the
  -- directive runs into the last line.
  pub apply_ssh_exact :
      let (answer, host') = apply_ssh policy runs host in
      (((e : Text) × (answer ≡ failure e) × Reason policy runs host e) × (host' ≡ host))
      ⊎ IsChanged policy runs host host' answer
  unfolding apply_ssh
  apply_ssh_exact = on_policy-Whole (ssh_policies policy) refl
