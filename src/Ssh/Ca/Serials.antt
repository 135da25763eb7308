-- ===== src/Ssh/Ca/Serials.antt =====
-- quansec/protocols/ssh/ca.py: when a certificate is issued, and which serial it bears.
use quansec_pqc_platform.Prelude.{
  ℕ, ◌+◌, ◌≤◌, ◌<◌, ◌≢◌, ◌≡◌, refl, ◌⊎◌, Option, none, some, List, [], ◌∷◌, ◌++◌, Text, codes,
  strip, All, arith, inl, inr, subst, sym, Bool,
}
use quansec_pqc_platform.Http.{Response, ok, http_error}
use quansec_pqc_platform.Ssh.Ca.{
  IssueRequest, IssuedRow, CaDb, Signing, failed, unproduced, produced, Certificate, max_serial,
  next_serial, issued_row, refusal, on_signing, on_checked, issue_certificate,
}

-- No two rows share a serial.
unfoldable pub Distinct : List IssuedRow → Type 0
Distinct [] = Unit
Distinct (row ∷ rows) = All (λ (other : IssuedRow). other.serial ≢ row.serial) rows × Distinct rows

less_next :
    (bound : ℕ) (rows : List IssuedRow)
    → max_serial rows ≤ bound
    → All (λ (row : IssuedRow). row.serial < bound + 1) rows
unfolding max_serial
less_next bound [] h = tt
less_next bound (row ∷ rows) h = (ground arith, less_next bound rows (ground arith))

apart :
    (bound : ℕ) (rows : List IssuedRow)
    → All (λ (row : IssuedRow). row.serial < bound) rows
    → All (λ (row : IssuedRow). row.serial ≢ bound) rows
apart bound [] h = tt
apart bound (row ∷ rows) (less, h) = (λ e. omega arith, apart bound rows h)

next_serial-new :
    (rows : List IssuedRow) → All (λ (row : IssuedRow). row.serial < next_serial rows) rows
unfolding next_serial
next_serial-new rows = less_next (max_serial rows) rows (omega arith)

-- The run of ssh-keygen left no certificate, and the detail says so.
abbrev pub NotSigned : Signing → Text → Type 0
NotSigned signing detail =
    ((e : Text) × (signing ≡ failed e) × (detail ≡ codes "Signing failed: " ++ e))
    ⊎ ((signing ≡ unproduced) × (detail ≡ codes "Certificate not produced"))

-- A certificate was issued: for a key that both checks passed, over the next serial, which no row has.
pub record IsIssued (now : ℕ) (sign : ℕ → Signing) (req : IssueRequest) (db db' : CaDb)
    (c : Certificate) : Type 0 where
  pub signed : Text
  pub checked : refusal (strip req.public_key) ≡ none
  pub signing : sign c.serial ≡ produced signed
  pub told : c.certificate ≡ strip signed
  pub named : (c.identity ≡ req.identity) × (c.principals ≡ req.principals)
  pub fresh : All (λ (row : IssuedRow). row.serial < c.serial) db.issued
  pub stored : db'.issued ≡ issued_row now c.serial req ∷ db.issued

module _ (is_json : Text → Bool) (now : ℕ) (sign : ℕ → Signing) (req : IssueRequest) where
  abbrev pub Issue : CaDb → Response Certificate × CaDb → Type 0
  Issue db (ok c, db') = IsIssued now sign req db db' c
  Issue db (http_error status detail, db') =
      (db' ≡ db)
      × (((status ≡ 400) × (refusal (strip req.public_key) ≡ some detail))
          ⊎ ((status ≡ 500)
              × (refusal (strip req.public_key) ≡ none)
              × NotSigned (sign (next_serial db.issued)) detail))

  on_signing-Issue :
      (signing : Signing) (db : CaDb)
      → refusal (strip req.public_key) ≡ none
      → sign (next_serial db.issued) ≡ signing
      → Issue db (on_signing is_json now (next_serial db.issued) req signing db)
  unfolding on_signing
  on_signing-Issue (failed e) db checked e' = (refl, inr (refl, checked, inl (e, e', refl)))
  on_signing-Issue unproduced db checked e' = (refl, inr (refl, checked, inr (e', refl)))
  on_signing-Issue (produced cert) db checked e' = record {
    signed = cert;
    checked = checked;
    signing = e';
    told = refl;
    named = (refl, refl);
    fresh = next_serial-new db.issued;
    stored = refl;
  }

  -- A certificate is issued exactly when the key passes both checks and ssh-keygen produces one over
  -- the next serial, which is above every serial stored so far; it names the identity and the principals
  -- of the request, and is stored. Otherwise nothing changes: the status is 400 with the refusal of
  -- the key, or 500 for a good key, where the signing failed or left no certificate, as the detail says.
  pub issue_certificate_exact : (db : CaDb) → Issue db (issue_certificate is_json now sign req db)
  unfolding issue_certificate on_checked
  issue_certificate_exact db = by_refusal (refusal (strip req.public_key)) refl
    where
      by_refusal :
          (r : Option Text)
          → refusal (strip req.public_key) ≡ r
          → Issue db (
              on_checked is_json r now
                (next_serial db.issued)
                req
                (sign (next_serial db.issued))
                db)
      by_refusal (some detail) e = (refl, inl (refl, e))
      by_refusal none e = on_signing-Issue (sign (next_serial db.issued)) db e refl

  Issue-Distinct :
      (db : CaDb) (r : Response Certificate × CaDb)
      → Issue db r
      → Distinct db.issued
      → Distinct r.1.issued
  unfolding Distinct issued_row
  Issue-Distinct db (ok c, db') out distinct =
      subst Distinct (sym out.stored) (apart c.serial db.issued out.fresh, distinct)
  Issue-Distinct db (http_error status detail, db') (same, why) distinct =
      subst (λ (d : CaDb). Distinct d.issued) (sym same) distinct

-- A request, with its time and its signing.
pub record Issuance : Type 0 where
  pub now : ℕ
  pub sign : ℕ → Signing
  pub req : IssueRequest

unfoldable pub issue_all : (Text → Bool) → List Issuance → CaDb → CaDb
issue_all is_json [] db = db
issue_all is_json (i ∷ is) db =
    let (r, db') = issue_certificate is_json i.now i.sign i.req db in issue_all is_json is db'

-- Over any sequence of requests that are served one after the other, all certificates have distinct
-- serials, as long as those issued before have.
pub issue_all-Distinct :
    (is_json : Text → Bool) (is : List Issuance) (db : CaDb)
    → Distinct db.issued
    → Distinct (issue_all is_json is db).issued
unfolding issue_all
issue_all-Distinct is_json [] db distinct = distinct
issue_all-Distinct is_json (i ∷ is) db distinct =
    issue_all-Distinct is_json is (issue_certificate is_json i.now i.sign i.req db).1 (
      Issue-Distinct is_json i.now i.sign i.req db (issue_certificate is_json i.now i.sign i.req db)
        (issue_certificate_exact is_json i.now i.sign i.req db) distinct)

-- The serial is read before the key is signed and stored after that. When two requests for good keys both
-- read it before either stores its row, both are answered with certificates of one serial, and both
-- rows are stored with it.
pub overlapping_issues :
    (is_json : Text → Bool) (now later : ℕ) (req req' : IssueRequest) (cert cert' : Text)
    (db : CaDb)
    → refusal (strip req.public_key) ≡ none
    → refusal (strip req'.public_key) ≡ none
    → let serial = next_serial db.issued in
      let first =
        on_checked is_json (refusal (strip req.public_key)) now serial req (produced cert) db in
      let second =
        on_checked is_json
          (refusal (strip req'.public_key))
          later
          serial
          req'
          (produced cert')
          first.1 in
      second.1.issued ≡ issued_row later serial req' ∷ (issued_row now serial req ∷ db.issued)
unfolding on_checked on_signing
overlapping_issues is_json now later req req' cert cert' db good good' = rw (good, good') refl
