-- ===== src/Ssh/Ca.antt =====
-- quansec/protocols/ssh/ca.py: the certificate authority. What ssh-keygen gives is an input. White space
-- and letters are the ASCII ones. A row's times are seconds.
pub mod Serials
use quansec_pqc_platform.Prelude.{
  ℕ, suc, ◌+◌, ◌*◌, Bool, true, false, ◌&&◌, ◌||◌, not, Option, none, some, List, [], ◌∷◌, ◌++◌,
  map, Text, codes, eq_text, is_space, strip, starts_with, truthy, length, all, ltb, leb, ◌==◌,
  if◌then◌else◌, contains_text, upper, words,
}
use quansec_pqc_platform.Http.{Response, ok, http_error}
use quansec_pqc_platform.AccessTokens.Decimal.{decimal}

pub record IssueRequest : Type 0 where
  pub public_key : Text
  pub identity : Text
  pub principals : Text
  pub valid_hours : ℕ

-- The bounds of the field valid_hours.
unfoldable pub is_valid_request : IssueRequest → Bool
is_valid_request r = leb 1 r.valid_hours && leb r.valid_hours 168

pub record IssuedRow : Type 0 where
  pub serial : ℕ
  pub identity : Text
  pub principals : Text
  pub valid_hours : ℕ
  pub issued_by : Text
  pub issued_at : ℕ
  pub expires_at : ℕ
  pub revoked : Bool

-- issued_certs, the newest row first, and the audit rows of this handler, whose detail is the text given for it.
pub record CaEvent : Type 0 where
  pub action : Text
  pub resource : Text
  pub detail : Text
  pub severity : Text

pub record CaDb : Type 0 where
  pub issued : List IssuedRow
  pub events : List CaEvent

-- The run of ssh-keygen: its error, success without a certificate, or the certificate.
pub data Signing : Type 0 where
  failed : Text → Signing
  unproduced : Signing
  produced : Text → Signing

unfoldable pub is_key_type : Text → Bool
unfolding starts_with
is_key_type t =
    eq_text t (codes "ssh-ed25519")
    || eq_text t (codes "ssh-rsa")
    || (starts_with t (codes "ecdsa-sha2-") && ltb 11 (length t))

-- [A-Za-z0-9+/=]
unfoldable pub is_base64 : ℕ → Bool
is_base64 c =
    (leb 65 c && leb c 90)
    || (leb 97 c && leb c 122)
    || (leb 48 c && leb c 57)
    || c == 43
    || c == 47
    || c == 61

unfoldable pub are_key_words : List Text → Bool
unfolding is_key_type is_base64
are_key_words [] = false
are_key_words (kind ∷ []) = false
are_key_words (kind ∷ (body ∷ [])) = is_key_type kind && all is_base64 body
are_key_words (kind ∷ (body ∷ (comment ∷ []))) = is_key_type kind && all is_base64 body
are_key_words (kind ∷ (body ∷ (comment ∷ (more ∷ rest)))) = false

-- PUBKEY_RE.match of a stripped text: two or three words, the first at its beginning.
unfoldable pub is_public_key : Text → Bool
unfolding are_key_words words
is_public_key pk = are_key_words (words pk)

abbrev pub max : ℕ → ℕ → ℕ
max a b = if leb a b then b else a

-- COALESCE(MAX(serial), 0)
unfoldable pub max_serial : List IssuedRow → ℕ
max_serial [] = 0
max_serial (row ∷ rows) = max row.serial (max_serial rows)

unfoldable pub next_serial : List IssuedRow → ℕ
unfolding max_serial
next_serial rows = max_serial rows + 1

pub record Certificate : Type 0 where
  pub serial : ℕ
  pub identity : Text
  pub principals : Text
  pub valid_hours : ℕ
  pub certificate : Text

unfoldable pub issued_row : ℕ → ℕ → IssueRequest → IssuedRow
issued_row now serial req = record {
  serial = serial;
  identity = req.identity;
  principals = req.principals;
  valid_hours = req.valid_hours;
  issued_by = codes "admin";
  issued_at = now;
  expires_at = now + req.valid_hours * 3_600;
  revoked = false;
}

-- The detail is put together as a text.
unfoldable pub cert_event : ℕ → IssueRequest → CaEvent
cert_event serial req = record {
  action = codes "cert_issued";
  resource = codes "ssh-ca";
  detail =
      codes "{\"identity\":\""
      ++ (req.identity ++ (codes "\",\"serial\":" ++ (decimal serial ++ codes "}")));
  severity = codes "info";
}

-- The two checks of the key, with the status 400.
unfoldable pub refusal : Text → Option Text
unfolding is_public_key contains_text upper
refusal pk =
    if not (is_public_key pk)
    then some (codes "Not a valid SSH public key line")
    else if contains_text (codes "PRIVATE KEY") (upper pk)
    then some
        (codes "That looks like a PRIVATE key — never submit private keys. Submit the .pub only.")
    else none

module _ (is_json : Text → Bool) where
  -- An insertion that PostgreSQL refuses, as the detail is no JSON, is passed over.
  unfoldable pub audit_issue : ℕ → IssueRequest → List CaEvent → List CaEvent
  unfolding cert_event
  audit_issue serial req events =
      if is_json (cert_event serial req).detail then cert_event serial req ∷ events else events

  unfoldable pub on_signing : ℕ → ℕ → IssueRequest → Signing → CaDb → Response Certificate × CaDb
  unfolding issued_row audit_issue
  on_signing now serial req (failed e) db = (http_error 500 (codes "Signing failed: " ++ e), db)
  on_signing now serial req unproduced db = (http_error 500 (codes "Certificate not produced"), db)
  on_signing now serial req (produced cert) db = (
    ok (record {
      serial = serial;
      identity = req.identity;
      principals = req.principals;
      valid_hours = req.valid_hours;
      certificate = strip cert;
    }),
    record {
      issued = issued_row now serial req ∷ db.issued;
      events = audit_issue serial req db.events;
    },
  )

  unfoldable pub on_checked :
      Option Text → ℕ → ℕ → IssueRequest → Signing → CaDb → Response Certificate × CaDb
  unfolding on_signing
  on_checked (some detail) now serial req signing db = (http_error 400 detail, db)
  on_checked none now serial req signing db = on_signing now serial req signing db

  -- The signing is given the serial that the authority chose.
  unfoldable pub issue_certificate :
      ℕ → (ℕ → Signing) → IssueRequest → CaDb → Response Certificate × CaDb
  unfolding on_checked refusal next_serial
  issue_certificate now sign req db =
      let serial = next_serial db.issued in
      on_checked (refusal (strip req.public_key)) now serial req (sign serial) db
