-- ===== src/Alerts/Raising.antt =====
-- quansec/protocols/alerts/router.py: what an evaluation adds to the alerts.
use quansec_pqc_platform.Prelude.{
  ◌≡◌, refl, sym, ap, ◌∙◌, ◌⊎◌, inl, inr, Bool, true, false, List, [], ◌∷◌, ◌++◌, Text, eq_text,
  eq_text_refl, any, All, arith, Bool-cases, if◌then◌else◌, subst,
}
use mathlib.Core.List.{append_assoc, append-nil}
use quansec_pqc_platform.Alerts.{
  Alert, AlertDb, Report, Platform, has_alert, alert_of, raise_alert, raise_all, reports,
  evaluate_once,
}

any-++ {ℓ} :
    {A : Type ℓ} (p : A → Bool) (xs ys : List A) → any p xs ≡ true → any p (xs ++ ys) ≡ true
any-++ p [] ys h = absurd (ground (arith, h))
any-++ p (x ∷ xs) ys h = ground (arith, h, any-++ p xs ys)

any-last {ℓ} :
    {A : Type ℓ} (p : A → Bool) (xs : List A) (y : A) → p y ≡ true → any p (xs ++ y ∷ []) ≡ true
any-last p [] y h = rw h refl
any-last p (x ∷ xs) y h = ground (arith, any-last p xs y h)

pub has_alert-raise :
    (f : Text) (r : Report) (db : AlertDb)
    → has_alert f db.alerts ≡ true
    → has_alert f (raise_alert r db).alerts ≡ true
unfolding raise_alert has_alert
has_alert-raise f r db h = by_test (has_alert r.fingerprint db.alerts)
  where
    by_test :
        (b : Bool)
        → has_alert f (if b then db.alerts else db.alerts ++ alert_of db.next_id r ∷ []) ≡ true
    by_test true = h
    by_test false =
        any-++ (λ (a : Alert). eq_text a.fingerprint f) db.alerts (alert_of db.next_id r ∷ []) h

pub has_alert-raise_all :
    (f : Text) (rs : List Report) (db : AlertDb)
    → has_alert f db.alerts ≡ true
    → has_alert f (raise_all rs db).alerts ≡ true
unfolding raise_all
has_alert-raise_all f [] db h = h
has_alert-raise_all f (r ∷ rs) db h =
    has_alert-raise_all f rs (raise_alert r db) (has_alert-raise f r db h)

raised : (r : Report) (db : AlertDb) → has_alert r.fingerprint (raise_alert r db).alerts ≡ true
unfolding raise_alert has_alert alert_of
raised r db = elim (Bool-cases (has_alert r.fingerprint db.alerts)) [
  | inl old ↦ rw old old
  | inr new ↦ rw new (
      any-last (λ (a : Alert). eq_text a.fingerprint r.fingerprint) db.alerts
        (alert_of db.next_id r) (eq_text_refl r.fingerprint))
]

covered :
    (rs : List Report) (db : AlertDb)
    → All (λ (r : Report). has_alert r.fingerprint (raise_all rs db).alerts ≡ true) rs
unfolding raise_all
covered [] db = tt
covered (r ∷ rs) db = (
  has_alert-raise_all r.fingerprint rs (raise_alert r db) (raised r db),
  covered rs (raise_alert r db),
)

unchanged :
    (r : Report) (db : AlertDb)
    → has_alert r.fingerprint db.alerts ≡ true
    → (raise_alert r db).alerts ≡ db.alerts
unfolding raise_alert
unchanged r db old = rw old refl

repeated :
    (rs : List Report) (db : AlertDb)
    → All (λ (r : Report). has_alert r.fingerprint db.alerts ≡ true) rs
    → (raise_all rs db).alerts ≡ db.alerts
unfolding raise_all
repeated [] db h = refl
repeated (r ∷ rs) db (old, h) =
    repeated rs (raise_alert r db) (
      subst (λ alerts. All (λ (s : Report). has_alert s.fingerprint alerts ≡ true) rs)
        (sym (unchanged r db old)) h)
    ∙ unchanged r db old

-- The alert is an open one, with the fields of one of the reports.
unfoldable pub Among : Alert → List Report → Type 0
Among a [] = ⊥
Among a (r ∷ rs) = (a ≡ alert_of a.id r) ⊎ Among a rs

-- What is there at the end: the alerts of before, and new ones that come from the reports.
pub record Extends (rs : List Report) (before after : List Alert) : Type 0 where
  pub new : List Alert
  pub kept : after ≡ before ++ new
  pub reported : All (λ (a : Alert). Among a rs) new

weaker :
    (r : Report) (rs : List Report) (new : List Alert)
    → All (λ (a : Alert). Among a rs) new
    → All (λ (a : Alert). Among a (r ∷ rs)) new
unfolding Among
weaker r rs [] h = tt
weaker r rs (a ∷ new) (among, h) = (inr among, weaker r rs new h)

raise_alert-Extends :
    (r : Report) (rs : List Report) (db : AlertDb)
    → Extends (r ∷ rs) db.alerts (raise_alert r db).alerts
unfolding raise_alert Among alert_of
raise_alert-Extends r rs db = by_test (has_alert r.fingerprint db.alerts)
  where
    by_test :
        (b : Bool)
        → Extends
            (r ∷ rs)
            db.alerts
            (if b then db.alerts else db.alerts ++ alert_of db.next_id r ∷ [])
    by_test true = record { new = []; kept = sym (append-nil db.alerts); reported = tt }
    by_test false = record {
      new = alert_of db.next_id r ∷ [];
      kept = refl;
      reported = (inl refl, tt);
    }

All-both : (P : Alert → Type 0) (xs ys : List Alert) → All P xs → All P ys → All P (xs ++ ys)
All-both P [] ys h k = k
All-both P (x ∷ xs) ys (p, h) k = (p, All-both P xs ys h k)

raise_all-Extends :
    (rs : List Report) (db : AlertDb) → Extends rs db.alerts (raise_all rs db).alerts
unfolding raise_all
raise_all-Extends [] db = record { new = []; kept = sym (append-nil db.alerts); reported = tt }
raise_all-Extends (r ∷ rs) db =
    let first = raise_alert-Extends r rs db in
    let rest = raise_all-Extends rs (raise_alert r db) in
    record {
      new = first.new ++ rest.new;
      kept =
          rest.kept
          ∙ ap (λ alerts. alerts ++ rest.new) first.kept
          ∙ append_assoc db.alerts first.new rest.new;
      reported =
          All-both (λ (a : Alert). Among a (r ∷ rs)) first.new rest.new first.reported
            (weaker r rs rest.new rest.reported);
    }

-- An evaluation keeps every alert as it is, and adds open alerts only, each from something that the
-- rules report of the platform. Afterwards everything they report has an alert with its
-- fingerprint, and to evaluate the same platform again adds none.
pub evaluate_once_lem :
    (p : Platform) (db : AlertDb)
    → Extends (reports p) db.alerts (evaluate_once p db).alerts
      × All (λ (r : Report). has_alert r.fingerprint (evaluate_once p db).alerts ≡ true) (reports p)
      × ((evaluate_once p (evaluate_once p db)).alerts ≡ (evaluate_once p db).alerts)
unfolding evaluate_once
evaluate_once_lem p db = (
  raise_all-Extends (reports p) db,
  covered (reports p) db,
  repeated (reports p) (raise_all (reports p) db) (covered (reports p) db),
)
