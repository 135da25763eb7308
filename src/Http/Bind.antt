-- ===== src/Http/Bind.antt =====
-- Handlers in sequence: what an answer of the whole says of the parts.
use quansec_pqc_platform.Prelude.{ℕ, Text, ◌≡◌, refl, ap, arith}
use quansec_pqc_platform.Http.{continue, Db, Response, ok, http_error, Handler, ◌>>=◌}

module _ {ℓ κ} {A : Type ℓ} {B : Type κ} where
  -- A sequence answers only if its first part answers.
  pub bind-ok :
      (m : Handler A) (f : A → Handler B) (b : B) (db db'' : Db)
      → (m >>= f) db ≡ (ok b, db'')
      → (a : A) × (db' : Db) × (m db ≡ (ok a, db')) × (f a db' ≡ (ok b, db''))
  bind-ok m f b db db'' e = go (m db) refl
    where
      go :
          (p : Response A × Db)
          → m db ≡ p
          → (a : A) × (db' : Db) × (m db ≡ (ok a, db')) × (f a db' ≡ (ok b, db''))
      go (ok a, db') h = (a, db', h, ground (arith, e, h))
      go (http_error s d, db') h = absurd (ground (arith, e, h))

module _ {ℓ} {A : Type ℓ} where
  abbrev reply_or : A → Response A → A
  reply_or a (ok b) = b
  reply_or a (http_error s d) = a

  -- Two answers that are equal carry the same value and the same database.
  pub returned :
      (a b : A) (db db' : Db)
      → ◌≡◌ {A = Response A × Db} (ok a, db) (ok b, db')
      → (a ≡ b) × (db ≡ db')
  returned a b db db' e =
      (ap (λ (p : Response A × Db). reply_or a p.0) e, ap (λ (p : Response A × Db). p.1) e)

module _ {ℓ κ} {A : Type ℓ} {B : Type κ} where
  -- A sequence goes on from what its first part did.
  pub bind-go :
      (m : Handler A) (f : A → Handler B) (a : A) (db : Db)
      → (m db).0 ≡ ok a
      → (m >>= f) db ≡ f a (m db).1
  bind-go m f a db e = ap (λ (r : Response A). continue r f (m db).1) e

  pub bind-stop :
      (m : Handler A) (f : A → Handler B) (status : ℕ) (detail : Text) (db : Db)
      → (m db).0 ≡ http_error status detail
      → (m >>= f) db ≡ (http_error status detail, (m db).1)
  bind-stop m f status detail db e = ap (λ (r : Response A). continue r f (m db).1) e
