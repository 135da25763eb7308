-- ===== src/Ssh/Policies/History.antt =====
-- quansec/protocols/ssh/policy.py: the history of the policy along changes and rollbacks.
use quansec_pqc_platform.Prelude.{
  is_none, ◌≡◌, refl, sym, ap, ◌∙◌, subst, inl, inr, true, Option, none, some, List, [], ◌∷◌, Text,
  All, arith,
}
use quansec_pqc_platform.Http.{Response, ok, http_error}
use quansec_pqc_platform.HostAgent.{Host, SshRuns}
use quansec_pqc_platform.Ssh.Policies.{
  SshWorld, SshApplied, HistoryRow, Link, unreachable, no_reply, connected, apply_ssh_policy,
  rolled_back_reply, roll_back_to, ssh_policy_rollback,
}
use quansec_pqc_platform.Ssh.Policies.Outcomes.{Outcome, Installs, IsEdited, apply_ssh_policy_exact}
use quansec_pqc_platform.HostAgent.Rewrites.{has_place}

SyncedAt : List HistoryRow → Host → Type 0
SyncedAt [] host = Unit
SyncedAt (row ∷ rest) host = Installs row.kex host

-- The newest row of the history names the key exchange that the daemon's file sets.
unfoldable pub Synced : SshWorld → Type 0
unfolding SyncedAt
Synced w = SyncedAt w.history w.host

PlaceAt : Option Text → Type 0
PlaceAt none = Unit
PlaceAt (some text) = has_place text ≡ true

-- The daemon's file ends with a line break, or sets the key exchange.
unfoldable pub IsReady : Host → Type 0
unfolding PlaceAt
IsReady host = PlaceAt host.sshd_config

abbrev Kept : SshWorld → Type 0
Kept w = Synced w × IsReady w.host

abbrev pub Arrives : Link → Type 0
Arrives (unreachable e) = Unit
Arrives (no_reply e) = ⊥
Arrives connected = Unit

not_lost : (link : Link) (e : Text) → Arrives link → link ≡ no_reply e → ⊥
not_lost link e arrives lost = subst Arrives lost arrives

edited-Installs :
    (kex : Text) (host host' : Host)
    → IsEdited kex host host'
    → IsReady host
    → Installs kex host' × IsReady host'
unfolding IsReady PlaceAt
edited-Installs kex host host' (text, file, present, written, inl (place, e)) ready =
    ((file, written, e.some_set, e.none_else), subst PlaceAt (sym written) e.again)
edited-Installs kex host host' (text, file, present, written, inr (ajar, e)) ready =
    let place : has_place text ≡ true = subst PlaceAt present ready in
    absurd (ground (arith, place, ajar))

same-Kept : (w w' : SshWorld) → w'.history ≡ w.history → w'.host ≡ w.host → Kept w → Kept w'
unfolding Synced IsReady
same-Kept w w' rows host (synced, ready) = (
  subst (λ rs. SyncedAt rs w'.host) (sym rows) (subst (SyncedAt w.history) (sym host) synced),
  subst IsReady (sym host) ready,
)

Outcome-Kept :
    (name : Text) (link : Link) (runs : SshRuns) (w : SshWorld) (r : Response SshApplied × SshWorld)
    → Arrives link
    → Outcome name link runs w r
    → Kept w
    → Kept r.1
unfolding Synced SyncedAt
Outcome-Kept name link runs w (ok a, w') arrives out (synced, ready) =
    let (installed, again) = edited-Installs out.policy.kex w.host w'.host out.edited ready in
    (subst (λ rows. SyncedAt rows w'.host) (sym out.recorded) installed, again)
Outcome-Kept name link runs w (http_error s d, w') arrives ((rows, events), inl (s400, unknown, e))
      kept =
    subst Kept (sym e) kept
Outcome-Kept name link runs w (http_error s d, w') arrives
      ((rows, events), inr (s503, inl (lost, host))) kept =
    same-Kept w w' rows host kept
Outcome-Kept name link runs w (http_error s d, w') arrives
      ((rows, events), inr (s503, inr (inl (lost, host)))) kept =
    absurd (not_lost link d arrives lost)
Outcome-Kept name link runs w (http_error s d, w') arrives
      ((rows, events), inr (s503, inr (inr (reached, why, host)))) kept =
    same-Kept w w' rows host kept

-- A request of an administrator: a change to the named policy, or a rollback.
pub record Call : Type 0 where
  pub target : Option Text
  pub link : Link
  pub runs : SshRuns

after_call : Option Text → Link → SshRuns → SshWorld → SshWorld
after_call (some name) link runs w = let (r, w') = apply_ssh_policy name link runs w in w'
after_call none link runs w = let (r, w') = ssh_policy_rollback link runs w in w'

unfoldable pub after_calls : List Call → SshWorld → SshWorld
unfolding after_call
after_calls [] w = w
after_calls (c ∷ calls) w = after_calls calls (after_call c.target c.link c.runs w)

world-rolled_back_reply :
    (name : Text) (r : Response SshApplied × SshWorld) → (rolled_back_reply name r).1 ≡ r.1
world-rolled_back_reply name (ok a, w) = refl
world-rolled_back_reply name (http_error s d, w) = refl

module _ (link : Link) (runs : SshRuns) (arrives : Arrives link) where
  apply-Kept : (name : Text) (w : SshWorld) → Kept w → Kept (apply_ssh_policy name link runs w).1
  apply-Kept name w kept =
      Outcome-Kept name link runs w (apply_ssh_policy name link runs w) arrives
        (apply_ssh_policy_exact name link runs w) kept

  rollback-Kept :
      (rows : List HistoryRow) (w : SshWorld) → Kept w → Kept (roll_back_to rows link runs w).1
  unfolding roll_back_to
  rollback-Kept [] w kept = kept
  rollback-Kept (row ∷ []) w kept = kept
  rollback-Kept (row ∷ (previous ∷ rest)) w kept =
      subst Kept
        (sym (
          world-rolled_back_reply previous.policy_name
            (apply_ssh_policy previous.policy_name link runs w)))
        (apply-Kept previous.policy_name w kept)

  after_call-Kept :
      (target : Option Text) (w : SshWorld) → Kept w → Kept (after_call target link runs w)
  unfolding after_call ssh_policy_rollback
  after_call-Kept (some name) w kept = apply-Kept name w kept
  after_call-Kept none w kept = rollback-Kept w.history w kept

after_calls-Kept :
    (calls : List Call) (w : SshWorld)
    → All (λ (c : Call). Arrives c.link) calls
    → Kept w
    → Kept (after_calls calls w)
unfolding after_calls
after_calls-Kept [] w arrive kept = kept
after_calls-Kept (c ∷ calls) w (arrives, arrive) kept =
    after_calls-Kept calls (after_call c.target c.link c.runs w) arrive
      (after_call-Kept c.link c.runs arrives c.target w kept)

-- Whatever changes and rollbacks are asked for, and however they end, the newest row of the history names the
-- key exchange that a line of the daemon's file sets, and no line of it sets another. This is as long as
-- every answer of the agent arrives and it held at first, for a file that at first ended with a line break
-- or set the key exchange.
pub after_calls-Synced :
    (calls : List Call) (w : SshWorld)
    → All (λ (c : Call). Arrives c.link) calls
    → IsReady w.host
    → Synced w
    → Synced (after_calls calls w)
after_calls-Synced calls w arrive ready synced = (after_calls-Kept calls w arrive (synced, ready)).0

reverted : Response Text → Option Text
reverted (ok name) = some name
reverted (http_error s d) = none

rolled_back_lem :
    (name x : Text) (link : Link) (runs : SshRuns) (w w' : SshWorld)
    (r : Response SshApplied × SshWorld)
    → Outcome name link runs w r
    → rolled_back_reply name r ≡ (ok x, w')
    → (some name ≡ some x)
      × ((kex : Text) × (w'.history ≡ record { policy_name = name; kex = kex } ∷ w.history))
unfolding reverted
rolled_back_lem name x link runs w w' (ok a, w'') out e = (
  ap (λ (p : Response Text × SshWorld). reverted p.0) e,
  (out.policy.kex, sym (ap (λ (p : Response Text × SshWorld). p.1.history) e) ∙ out.recorded),
)
rolled_back_lem name x link runs w w' (http_error s d, w'') out e =
    absurd (ground (arith, ap is_none (ap (λ (p : Response Text × SshWorld). reverted p.0) e)))

-- A rollback that succeeds goes to the policy below the newest one, and pushes that on the history.
pub ssh_policy_rollback-pushes :
    (x : Text) (link : Link) (runs : SshRuns) (w w' : SshWorld) (row previous : HistoryRow)
    (rest : List HistoryRow)
    → w.history ≡ row ∷ (previous ∷ rest)
    → ssh_policy_rollback link runs w ≡ (ok x, w')
    → (some previous.policy_name ≡ some x)
      × ((kex : Text) × (w'.history
            ≡ record { policy_name = previous.policy_name; kex = kex } ∷ w.history))
unfolding ssh_policy_rollback roll_back_to
ssh_policy_rollback-pushes x link runs w w' row previous rest rows e =
    rolled_back_lem previous.policy_name x link runs w w'
      (apply_ssh_policy previous.policy_name link runs w)
      (apply_ssh_policy_exact previous.policy_name link runs w)
      (sym (ap (λ rs. roll_back_to rs link runs w) rows) ∙ e)

-- Of two rollbacks that succeed one after the other, the first goes to the policy below the newest one of the
-- history, and the second goes back to the policy that the first one undid, not to an older one.
pub rollback_twice :
    (x y : Text) (link link' : Link) (runs runs' : SshRuns) (w w' w'' : SshWorld)
    (row previous : HistoryRow) (rest : List HistoryRow)
    → w.history ≡ row ∷ (previous ∷ rest)
    → ssh_policy_rollback link runs w ≡ (ok x, w')
    → ssh_policy_rollback link' runs' w' ≡ (ok y, w'')
    → (some x ≡ some previous.policy_name) × (some y ≡ some row.policy_name)
rollback_twice x y link link' runs runs' w w' w'' row previous rest rows first second =
    let (same, (kex, pushed)) =
      ssh_policy_rollback-pushes x link runs w w' row previous rest rows first in
    let (same', more) =
      ssh_policy_rollback-pushes y link' runs' w' w''
        (record { policy_name = previous.policy_name; kex = kex }) row (previous ∷ rest)
        (pushed ∙ ap (λ rs. record { policy_name = previous.policy_name; kex = kex } ∷ rs) rows)
        second in
    (sym same, sym same')
