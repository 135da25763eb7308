-- ===== src/Alerts/Silence.antt =====
-- quansec/protocols/alerts/router.py: which rules raise alerts, and which conditions stay silent.
use quansec_pqc_platform.Prelude.{
  ◌≡◌, refl, sym, ap, ◌⊎◌, inl, inr, true, false, not, List, [], ◌∷◌, ◌++◌, map, Text, codes,
  eq_text, keep, take, All, arith, Bool-cases, Option, none, some, subst, eq_text_sound,
}
use quansec_pqc_platform.Alerts.{
  Alert, AlertDb, Report, Platform, IpsecRow, SshRow, Rejection, has_alert, alert_of, raise_alert,
  raise_all, reports, evaluate_once, tunnel_report, session_report, rejection_report,
  tunnel_reports, session_reports, rejection_reports, tls_reports, has_column,
}
use quansec_pqc_platform.Alerts.Raising.{
  Among, evaluate_once_lem, has_alert-raise, has_alert-raise_all,
}

abbrev pub IsLive : Text → Type 0
IsLive rule = (rule ≡ codes "downgrade_detected") ⊎ (rule ≡ codes "zt_rejection")

abbrev Live : Report → Type 0
Live r = IsLive r.rule

All-++ : (xs ys : List Report) → All Live xs → All Live ys → All Live (xs ++ ys)
All-++ [] ys h k = k
All-++ (x ∷ xs) ys (p, h) k = (p, All-++ xs ys h k)

tunnels-Live : (rows : List IpsecRow) → All Live (map tunnel_report rows)
tunnels-Live [] = tt
tunnels-Live (r ∷ rows) = (inl refl, tunnels-Live rows)

sessions-Live : (rows : List SshRow) → All Live (map session_report rows)
sessions-Live [] = tt
sessions-Live (r ∷ rows) = (inl refl, sessions-Live rows)

map-Live : (rows : List Rejection) → All Live (map rejection_report rows)
map-Live [] = tt
map-Live (r ∷ rows) = (inr refl, map-Live rows)

rejections-Live : (rows : Option (List Rejection)) → All Live (rejection_reports rows)
unfolding rejection_reports
rejections-Live none = tt
rejections-Live (some rows) = map-Live (take 5 rows)

reports-Live : (p : Platform) → All Live (reports p)
unfolding reports tunnel_reports session_reports tls_reports has_column eq_text
reports-Live p =
    All-++ (tunnel_reports p.tunnels)
      (session_reports p.ssh_sessions ++ rejection_reports p.zt_audit)
      (tunnels-Live (keep (λ (r : IpsecRow). not r.pqc_enabled) p.tunnels))
      (All-++ (session_reports p.ssh_sessions) (rejection_reports p.zt_audit)
        (sessions-Live (keep (λ (r : SshRow). not r.pqc_enabled) p.ssh_sessions))
        (rejections-Live p.zt_audit))

Among-Live : (a : Alert) (rs : List Report) → All Live rs → Among a rs → IsLive a.rule
unfolding Among alert_of
Among-Live a [] live among = absurd among
Among-Live a (r ∷ rs) (live, h) (inl e) = subst IsLive (sym (ap (λ (b : Alert). b.rule) e)) live
Among-Live a (r ∷ rs) (live, h) (inr among) = Among-Live a rs h among

new-Live :
    (rs : List Report) (new : List Alert)
    → All Live rs
    → All (λ (a : Alert). Among a rs) new
    → All (λ (a : Alert). IsLive a.rule) new
new-Live rs [] live h = tt
new-Live rs (a ∷ new) live (among, h) = (Among-Live a rs live among, new-Live rs new live h)

-- Of the five rules that the API lists, only `downgrade_detected` and `zt_rejection` ever raise an alert,
-- whatever the platform and its TLS observations are, over the tables of the migrations.
pub two_rules_only :
    (p : Platform) (db : AlertDb)
    → (new : List Alert) × ((evaluate_once p db).alerts ≡ db.alerts ++ new)
      × All (λ (a : Alert). IsLive a.rule) new
two_rules_only p db =
    let (extends, present, again) = evaluate_once_lem p db in
    (extends.new, extends.kept, new-Live (reports p) extends.new (reports-Live p) extends.reported)

-- The alerts of the fingerprint are acknowledged.
unfoldable pub IsSilent : Text → List Alert → Type 0
IsSilent f = All (λ (a : Alert). eq_text a.fingerprint f ≡ true → a.acked ≡ true)

IsSilent-last :
    (f : Text) (a : Alert) (alerts : List Alert)
    → eq_text a.fingerprint f ≡ false
    → IsSilent f alerts
    → IsSilent f (alerts ++ a ∷ [])
unfolding IsSilent
IsSilent-last f a [] other h = (λ e. absurd (ground (arith, e, other)), tt)
IsSilent-last f a (b ∷ alerts) other (p, h) = (p, IsSilent-last f a alerts other h)

raise-IsSilent :
    (f : Text) (r : Report) (db : AlertDb)
    → has_alert f db.alerts ≡ true
    → IsSilent f db.alerts
    → IsSilent f (raise_alert r db).alerts
unfolding raise_alert alert_of
raise-IsSilent f r db old silent = elim (Bool-cases (has_alert r.fingerprint db.alerts)) [
  | inl known ↦ rw known silent
  | inr new ↦ rw new (IsSilent-last f (alert_of db.next_id r) db.alerts (differs new) silent)
]
  where
    differs : has_alert r.fingerprint db.alerts ≡ false → eq_text r.fingerprint f ≡ false
    differs new = elim (Bool-cases (eq_text r.fingerprint f)) [
      | inl same ↦ absurd (
          ground
            (arith, new, old, ap (λ g. has_alert g db.alerts) (eq_text_sound r.fingerprint f same)))
      | inr other ↦ other
    ]

raise_all-IsSilent :
    (f : Text) (rs : List Report) (db : AlertDb)
    → has_alert f db.alerts ≡ true
    → IsSilent f db.alerts
    → IsSilent f (raise_all rs db).alerts
unfolding raise_all
raise_all-IsSilent f [] db old silent = silent
raise_all-IsSilent f (r ∷ rs) db old silent =
    raise_all-IsSilent f rs (raise_alert r db) (has_alert-raise f r db old)
      (raise-IsSilent f r db old silent)

evaluate_once-IsSilent :
    (f : Text) (p : Platform) (db : AlertDb)
    → has_alert f db.alerts ≡ true
    → IsSilent f db.alerts
    → IsSilent f (evaluate_once p db).alerts
unfolding evaluate_once
evaluate_once-IsSilent f p db = raise_all-IsSilent f (reports p) db

has_alert-evaluate_once :
    (f : Text) (p : Platform) (db : AlertDb)
    → has_alert f db.alerts ≡ true
    → has_alert f (evaluate_once p db).alerts ≡ true
unfolding evaluate_once
has_alert-evaluate_once f p db = has_alert-raise_all f (reports p) db

-- The evaluations of the loop, on the platform as it changes.
unfoldable pub evaluate_all : List Platform → AlertDb → AlertDb
unfolding evaluate_once
evaluate_all [] db = db
evaluate_all (p ∷ ps) db = evaluate_all ps (evaluate_once p db)

-- Once the alerts of a fingerprint are acknowledged, there is never again an open one: no later
-- evaluation raises an alert with that fingerprint, whether or not the condition ended and came back.
pub evaluate_all-IsSilent :
    (f : Text) (ps : List Platform) (db : AlertDb)
    → has_alert f db.alerts ≡ true
    → IsSilent f db.alerts
    → IsSilent f (evaluate_all ps db).alerts
unfolding evaluate_all
evaluate_all-IsSilent f [] db old silent = silent
evaluate_all-IsSilent f (p ∷ ps) db old silent =
    evaluate_all-IsSilent f ps (evaluate_once p db) (has_alert-evaluate_once f p db old)
      (evaluate_once-IsSilent f p db old silent)
