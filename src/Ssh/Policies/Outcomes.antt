-- ===== src/Ssh/Policies/Outcomes.antt =====
-- quansec/protocols/ssh/policy.py: what a change of the policy does to the host and to its history.
use quansec_pqc_platform.Prelude.{
  ◌≡◌, refl, sym, ap, ◌∙◌, ◌⊎◌, inl, inr, Bool, true, false, Option, none, some, [], ◌∷◌, Text,
  codes, eq_text, subst, any, all, arith, if◌then◌else◌,
}
use quansec_pqc_platform.Http.{Response, ok, http_error}
use quansec_pqc_platform.HostAgent.{
  Host, SshRuns, Answer, applied, failure, apply_ssh, ssh_policies, split_lines,
}
use quansec_pqc_platform.HostAgent.Rollback.{Reason, IsChanged, apply_ssh_exact}
use quansec_pqc_platform.HostAgent.Edits.{sets, allows}
use quansec_pqc_platform.HostAgent.Rewrites.{Edited}
use quansec_pqc_platform.Ssh.Policies.{
  SshPolicy, SshWorld, SshApplied, Link, unreachable, no_reply, connected, control_reply,
  kex_policy, host_control_request, on_controlled, on_known, apply_ssh_policy, record_ssh_policy,
}

abbrev kex_of : Option SshPolicy → Option Text
kex_of none = none
kex_of (some p) = some p.kex

-- The backend and the agent know the same policies, with the same key exchange each.
pub kex_policy-ssh_policies : (name : Text) → kex_of (kex_policy name) ≡ ssh_policies name
unfolding kex_policy
kex_policy-ssh_policies name =
    by_tests (eq_text name (codes "classical")) (eq_text name (codes "pqc-hybrid"))
  where
    by_tests :
        (a b : Bool)
        → kex_of (
            if a
            then some
                (record { name = codes "classical"; kex = codes "curve25519-sha256"; pqc = false })
            else if b
            then some (record {
              name = codes "pqc-hybrid";
              kex = codes "mlkem768x25519-sha256";
              pqc = true;
            })
            else none)
          ≡ (if a
              then some (codes "curve25519-sha256")
              else if b
              then some (codes "mlkem768x25519-sha256")
              else none)
    by_tests true b = refl
    by_tests false true = refl
    by_tests false false = refl

-- The lines that are read in the configuration of the daemon: one at least sets `kex` and none another.
abbrev pub Installs : Text → Host → Type 0
Installs kex host =
    (file : Text) × (host.sshd_config ≡ some file)
    × (any (sets kex) (split_lines file) ≡ true)
    × (all (allows kex) (split_lines file) ≡ true)

-- The daemon's configuration was `text`, and the directive of `kex` was written into it.
abbrev pub IsEdited : Text → Host → Host → Type 0
IsEdited kex host host' =
    (text file : Text) × (host.sshd_config ≡ some text)
    × (host'.sshd_config ≡ some file)
    × Edited kex text file

-- A change that was answered: the policy is known, the agent applied it, and the history has it on top.
pub record IsApplied (name : Text) (link : Link) (runs : SshRuns) (w w' : SshWorld) (a : SshApplied)
    : Type 0 where
  pub policy : SshPolicy
  pub policy_known : kex_policy name ≡ some policy
  pub linked : link ≡ connected
  pub agreed : (output : Text) × (apply_ssh name runs w.host ≡ (applied name output, w'.host))
  pub edited : IsEdited policy.kex w.host w'.host
  pub recorded : w'.history ≡ record { policy_name = name; kex = policy.kex } ∷ w.history
  pub told : (a.policy ≡ name) × (a.kex ≡ policy.kex) × (a.pqc_enabled ≡ policy.pqc)

-- Why a request to the agent fails: there is no connection, no answer arrives, or the agent answers with a
-- failure.
abbrev pub Failed : Text → Link → SshRuns → Host → Text → Host → Type 0
Failed name link runs host detail host' =
    ((link ≡ unreachable detail) × (host' ≡ host))
    ⊎ (((link ≡ no_reply detail) × (host' ≡ (apply_ssh name runs host).1))
        ⊎ ((link ≡ connected) × Reason name runs host detail × (host' ≡ host)))

abbrev pub Outcome : Text → Link → SshRuns → SshWorld → Response SshApplied × SshWorld → Type 0
Outcome name link runs w (ok a, w') = IsApplied name link runs w w' a
Outcome name link runs w (http_error status detail, w') =
    ((w'.history ≡ w.history) × (w'.events ≡ w.events))
    × (((status ≡ 400) × (kex_policy name ≡ none) × (w' ≡ w))
        ⊎ ((status ≡ 503) × Failed name link runs w.host detail w'.host))

kex_text : Option Text → Text
kex_text none = []
kex_text (some t) = t

is_applied : Answer → Bool
is_applied (applied policy output) = true
is_applied (failure e) = false

failure_text : Answer → Text
failure_text (applied policy output) = []
failure_text (failure e) = e

module _ (name : Text) (runs : SshRuns) (w : SshWorld) (p : SshPolicy)
    (policy_known : kex_policy name ≡ some p) where
  agent_kex : (a : Text) → ssh_policies name ≡ some a → p.kex ≡ a
  unfolding kex_text
  agent_kex a allowed =
      ap kex_text (sym (ap kex_of policy_known) ∙ kex_policy-ssh_policies name ∙ allowed)

  answered :
      (answer : Answer) (host' : Host)
      → apply_ssh name runs w.host ≡ (answer, host')
      → (((e : Text) × (answer ≡ failure e) × Reason name runs w.host e) × (host' ≡ w.host))
        ⊎ IsChanged name runs w.host host' answer
      → Outcome name connected runs w (on_controlled name p (control_reply answer, host') w)
  unfolding on_controlled record_ssh_policy failure_text
  answered (failure e) host' agent (inl ((e', failed, why), same)) = (
    (refl, refl),
    inr (
      refl,
      inr (inr (refl, subst (Reason name runs w.host) (sym (ap failure_text failed)) why, same)),
    ),
  )
  answered (failure e) host' agent (inr c) = absurd (ground (arith, ap is_applied c.answered))
  answered (applied policy output) host' agent (inl ((e, bad, why), same)) =
      absurd (ground (arith, ap is_applied bad))
  answered (applied policy output) host' agent (inr c) =
      let same_kex = agent_kex c.algorithms c.allowed in
      record {
        policy = p;
        policy_known = policy_known;
        linked = refl;
        agreed = (c.output, agent ∙ ap (λ a. (a, host')) c.answered);
        edited =
            subst (λ k. IsEdited k w.host host') (sym same_kex)
              (c.text, c.file, c.present, ap (λ (h : Host). h.sshd_config) c.written, c.edited);
        recorded = refl;
        told = (refl, refl, refl);
      }

  requested :
      (link : Link)
      → Outcome name link runs w
          (on_controlled name p (host_control_request link (apply_ssh name runs) w.host) w)
  unfolding host_control_request on_controlled
  requested (unreachable e) = ((refl, refl), inr (refl, inl (refl, refl)))
  requested (no_reply e) = ((refl, refl), inr (refl, inr (inl (refl, refl))))
  requested connected =
      let (answer, host') = apply_ssh name runs w.host in
      answered answer host' refl (apply_ssh_exact name runs w.host)

-- `apply_ssh_policy` either succeeds or fails as a whole, for the database. If it answers, the policy is
-- known, the agent was reached and applied it, the history has the policy with it on top, and the reply tells
-- them; the daemon's file was edited: where the old file ended with a line break, or set the key exchange
-- already, one at least of the new file's lines is the directive of that key exchange and no line sets
-- another, else the directive ran into the last line. If it fails, neither the history nor the audit log has
-- changed: with 400 the policy is unknown and nothing has changed at all; with 503 there was no
-- connection, or the agent failed with that text and its reason, and the host is as it was, or the
-- agent's answer was lost, and the host is as the agent left it.
pub apply_ssh_policy_exact :
    (name : Text) (link : Link) (runs : SshRuns) (w : SshWorld)
    → Outcome name link runs w (apply_ssh_policy name link runs w)
unfolding apply_ssh_policy on_known
apply_ssh_policy_exact name link runs w = by_policy (kex_policy name) refl
  where
    by_policy :
        (found : Option SshPolicy)
        → kex_policy name ≡ found
        → Outcome name link runs w (on_known name found link runs w)
    by_policy none unknown = ((refl, refl), inl (refl, unknown, refl))
    by_policy (some p) policy_known = requested name runs w p policy_known link
