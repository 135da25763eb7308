-- ===== src/HostAgent.antt =====
-- quansec/host_policy_agent.py: the root agent on the host, and its operation `apply_ssh`. The agent's
-- input and output of files succeeds; what a command gives is an input, and `_restore` ignores it. The
-- commands that follow a restore change no file, and their answers are dropped by the code.
pub mod Lines
pub mod Edits
pub mod Rewrites
pub mod Rollback
mod Tests
use quansec_pqc_platform.Prelude.{
  ℕ, Bool, true, false, ◌&&◌, ◌||◌, not, Option, none, some, List, [], ◌∷◌, ◌++◌, map, Text, codes,
  eq_text, strip, starts_with, join, any, leb, ◌==◌, if◌then◌else◌,
}

-- The SSH side of the host: `none` for a configuration that is no regular file.
pub record Host : Type 0 where
  pub sshd_config : Option Text
  pub sshd_binary : Bool

-- _run: the output, or the text of the exception.
pub data Ran : Type 0 where
  finished : Text → Ran
  raised : Text → Ran

pub record SshRuns : Type 0 where
  pub test : Ran
  pub reload : Ran

-- What Handler.handle answers.
pub data Answer : Type 0 where
  applied : Text → Text → Answer
  failure : Text → Answer

-- SSH_POLICIES.get(policy)
abbrev pub ssh_policies : Text → Option Text
ssh_policies policy =
    if eq_text policy (codes "classical")
    then some (codes "curve25519-sha256")
    else if eq_text policy (codes "pqc-hybrid")
    then some (codes "mlkem768x25519-sha256")
    else none

abbrev pub is_line_break : ℕ → Bool
is_line_break c =
    (leb 10 c && leb c 13) || (leb 28 c && leb c 30) || c == 133 || c == 8232 || c == 8233

abbrev pub starts_line_feed : Text → Bool
starts_line_feed [] = false
starts_line_feed (c ∷ s) = c == 10

abbrev pub onto : ℕ → List Text → List Text
onto c [] = (c ∷ []) ∷ []
onto c (w ∷ ws) = (c ∷ w) ∷ ws

-- text.splitlines(keepends=True)
unfoldable pub split_lines : Text → List Text
split_lines [] = []
split_lines (c ∷ s) =
    let rest = split_lines s in
    if is_line_break c && not (c == 13 && starts_line_feed s) then (c ∷ []) ∷ rest else onto c rest

abbrev pub is_kex : Text → Bool
is_kex line = starts_with (strip line) (codes "KexAlgorithms")

abbrev pub replacement : Text → Text
replacement algorithms = codes "KexAlgorithms " ++ (algorithms ++ (10 ∷ []))

abbrev pub replaced : Text → List Text → List Text
replaced algorithms lines = map (λ line. if is_kex line then replacement algorithms else line) lines

unfoldable pub updated : Text → List Text → List Text
updated algorithms lines =
    if any is_kex lines
    then replaced algorithms lines
    else replaced algorithms lines ++ (replacement algorithms ∷ [])

-- After the file was replaced: the test and the reload, and the rollback of either's failure.
abbrev pub on_reload : Text → Ran → Host → Host → Answer × Host
on_reload policy (finished output) before after = (applied policy output, after)
on_reload policy (raised e) before after = (failure e, before)

abbrev pub on_test : Text → SshRuns → Ran → Host → Host → Answer × Host
on_test policy runs (finished output) before after = on_reload policy runs.reload before after
on_test policy runs (raised e) before after = (failure e, before)

abbrev pub write_kex : Text → Text → Host → Host
write_kex algorithms text host = record host {
  sshd_config = some (join [] (updated algorithms (split_lines text)));
}

abbrev pub missing_runtime : Text
missing_runtime = codes "real PQC OpenSSH runtime/configuration is missing"

abbrev pub on_runtime : Text → Text → SshRuns → Bool → Option Text → Host → Answer × Host
on_runtime policy algorithms runs binary none host = (failure missing_runtime, host)
on_runtime policy algorithms runs false (some text) host = (failure missing_runtime, host)
on_runtime policy algorithms runs true (some text) host =
    on_test policy runs runs.test host (write_kex algorithms text host)

abbrev pub on_policy : Text → Option Text → SshRuns → Host → Answer × Host
on_policy policy none runs host = (failure (codes "SSH policy is not allow-listed"), host)
on_policy policy (some algorithms) runs host =
    on_runtime policy algorithms runs host.sshd_binary host.sshd_config host

unfoldable pub apply_ssh : Text → SshRuns → Host → Answer × Host
apply_ssh policy runs host = on_policy policy (ssh_policies policy) runs host
