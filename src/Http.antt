-- ===== src/Http.antt =====
-- The handlers' world: the database, a request, and what a handler returns. A handler that raises an
-- HTTPException leaves what it wrote before.
pub mod Bind
pub mod Samples
use quansec_pqc_platform.Prelude.{Bool, codes, if◌then◌else◌, ℕ, Option, List, Text}
use quansec_pqc_platform.Json.{Fields}
use quansec_pqc_platform.Audit.{Event, Action, record_event}
use quansec_pqc_platform.Tokens.Rows.{User, Table}
use quansec_pqc_platform.RateLimit.{Limiter}

-- A row of `api_keys`. A NULL array is `none`.
pub record KeyRow : Type 0 where
  pub id : ℕ
  pub user_id : ℕ
  pub name : Text
  pub key_prefix : Text
  pub key_hash : Text
  pub scopes : Option (List Text)
  pub protocol : Option Text
  pub created_at : ℕ
  pub expires_at : Option ℕ
  pub revoked_at : Option ℕ
  pub last_used : Option ℕ

pub record Db : Type 0 where
  pub users : List User
  pub next_user : ℕ
  pub tokens : Table
  pub api_keys : List KeyRow
  pub next_key : ℕ
  pub limiter : Limiter
  pub log : List Event

-- The parts of a request that the authentication code reads.
pub record Request : Type 0 where
  pub path : Text
  pub method : Text
  pub user_agent : Option Text
  pub ip : Option Text
  pub refresh_cookie : Option Text
  pub csrf_cookie : Option Text
  pub csrf_header : Option Text

pub data Response {ℓ} (A : Type ℓ) : Type ℓ where
  ok : A → Response A
  http_error : ℕ → Text → Response A

abbrev pub status_of {ℓ} : {A : Type ℓ} → Response A → ℕ
status_of (ok a) = 200
status_of (http_error status detail) = status

abbrev pub Handler {ℓ} : Type ℓ → Type ℓ
Handler A = Db → Response A × Db

module _ {ℓ} {A : Type ℓ} where
  abbrev pub pure : A → Handler A
  pure a db = (ok a, db)

  abbrev pub raise : ℕ → Text → Handler A
  raise status detail db = (http_error status detail, db)

module _ {ℓ κ} {A : Type ℓ} {B : Type κ} where
  abbrev pub continue : Response A → (A → Handler B) → Handler B
  continue (ok a) f db = f a db
  continue (http_error status detail) f db = (http_error status detail, db)

  infixl 5 ◌>>=◌ ◌>>◌
  abbrev pub ◌>>=◌ : Handler A → (A → Handler B) → Handler B
  ◌>>=◌ m f db = let (r, db') = m db in continue r f db'

  abbrev pub ◌>>◌ : Handler A → Handler B → Handler B
  m >> k = m >>= λ _. k

-- audit.record
abbrev pub audit : Action → Option ℕ → Fields → Option Text → Handler (Unit {0})
audit action user_id detail severity db =
    (ok tt, record db { log = record_event db.log action user_id detail severity })

-- An exception that is no HTTPException.
abbrev pub crash {ℓ} : {A : Type ℓ} → Handler A
crash = raise 500 (codes "Internal Server Error")

-- if test: raise HTTPException(status, detail)
unfoldable pub refuse_if : Bool → ℕ → Text → Handler (Unit {0})
refuse_if test status detail = if test then raise status detail else pure tt
