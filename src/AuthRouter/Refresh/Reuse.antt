-- ===== src/AuthRouter/Refresh/Reuse.antt =====
-- quansec/protocols/auth_router.py, `refresh`: a token that was rotated is presented again.
use quansec_pqc_platform.Prelude.{
  ℕ, ◌≡◌, refl, ap, ◌∙◌, Bool, true, false, Option, some, ◌∷◌, Text, codes, eq_text, arith, count,
  is_none,
}
use quansec_pqc_platform.Audit.{Event, refresh_reuse, record_event}
use quansec_pqc_platform.Tokens.Rows.{User, Row, Table}
use quansec_pqc_platform.Tokens.{
  Rotation, reuse_detected, context, rotate_refresh_token, fetch, live_in,
}
use quansec_pqc_platform.Tokens.Theft.{reuse_revokes_family}
use quansec_pqc_platform.RateLimit.{refresh_limit}
use quansec_pqc_platform.Http.{Db, Request, Response, ok, http_error, continue, ◌>>=◌}
use quansec_pqc_platform.Csrf.{is_cookie_authenticated}
use quansec_pqc_platform.AuthRouter.Session.{Env, Chance, client_of, generic_refresh_error}
use quansec_pqc_platform.AuthRouter.Refresh.{refresh, exchange, raw_token, rotate, on_rotation}
use quansec_pqc_platform.AuthRouter.Refresh.Guards.{admitted, check_csrf-go}

module _ (env : Env) where
  -- The request passes the limit and the CSRF check, and presents this token.
  pub record Presents (r : Request) (body_token : Option Text) (ch : Chance) (db : Db) (raw : Text)
      : Type 0 where
    pub unthrottled :
        (refresh_limit env.sha256 env.limits ch.limit_outage db.limiter ch.now r.ip).0.allowed
        ≡ true
    pub genuine : admitted r body_token ≡ true
    pub presented : raw_token r body_token ≡ some raw

  -- The database after the limiter has counted the request.
  abbrev pub counted : Request → Chance → Db → Db
  counted r ch db = record db {
    limiter = (refresh_limit env.sha256 env.limits ch.limit_outage db.limiter ch.now r.ip).1;
  }

  -- Such a request is rotated.
  pub refresh-rotates :
      (r : Request) (body_token : Option Text) (ch : Chance) (db : Db) (c : ℕ) (raw : Text)
      → Presents r body_token ch db (c ∷ raw)
      → refresh env r body_token ch db
        ≡ (rotate env r (c ∷ raw) ch
              >>= on_rotation env r (is_cookie_authenticated r body_token) ch)
            (counted r ch db)
  unfolding refresh exchange
  refresh-rotates r body_token ch db c raw p =
      rw (p.unthrottled, check_csrf-go env r body_token (counted r ch db) p.genuine, p.presented)
        refl

  pub rotate-some :
      (r : Request) (raw : Text) (ch : Chance) (db : Db) (result : Rotation) (t : Table)
      → rotate_refresh_token env.sha256 env.cookies.refresh_ttl_days db.users db.tokens raw
          (client_of r)
          ch.draws
          ch.now
        ≡ some (result, t)
      → rotate env r raw ch db ≡ (ok result, record db { tokens = t })
  rotate-some r raw ch db result t e = ground (arith, e)

  on_rotation-reuse :
      (r : Request) (from_cookie : Bool) (ch : Chance) (row : Row) (u : User) (n : ℕ) (db : Db)
      → let done = on_rotation env r from_cookie ch (reuse_detected (context row u) n) db in
        (done.0 ≡ http_error 401 generic_refresh_error)
        × (done.1.tokens ≡ db.tokens)
        × ((e : Event) × (done.1.log ≡ e ∷ db.log)
            × (e.action ≡ refresh_reuse)
            × (e.user_id ≡ some row.user_id)
            × (e.severity ≡ codes "critical"))
  unfolding on_rotation record_event
  on_rotation-reuse r from_cookie ch row u n db = (refl, refl, (_, refl, refl, refl, refl))

  -- `refresh` with a token whose row was replaced, within the limit and past the CSRF check: the reply is the
  -- generic 401, the family of the token has no live token left, every other family has as many as
  -- before, and the newest audit event is a critical refresh_reuse of the token's user.
  pub refresh_reuse_detected :
      (r : Request) (body_token : Option Text) (ch : Chance) (db : Db) (c : ℕ) (raw : Text)
      (row : Row) (u : User)
      → Presents r body_token ch db (c ∷ raw)
      → fetch db.users db.tokens (env.sha256 (c ∷ raw)) ≡ some (row, u)
      → is_none row.replaced_by ≡ false
      → let done = refresh env r body_token ch db in
        (done.0 ≡ http_error 401 generic_refresh_error)
        × (count (live_in row.family_id) done.1.tokens.rows ≡ 0)
        × ((f : Text)
            → eq_text row.family_id f ≡ false
            → count (live_in f) done.1.tokens.rows ≡ count (live_in f) db.tokens.rows)
        × ((e : Event) × (done.1.log ≡ e ∷ db.log)
            × (e.action ≡ refresh_reuse)
            × (e.user_id ≡ some row.user_id)
            × (e.severity ≡ codes "critical"))
  refresh_reuse_detected r body_token ch db c raw row u p e replaced =
      let (t, rotation, none_live, others) =
        reuse_revokes_family env.sha256 env.cookies.refresh_ttl_days db.users db.tokens (c ∷ raw)
          (client_of r) ch.draws ch.now row u e replaced in
      let n = count (live_in row.family_id) db.tokens.rows in
      let from_cookie = is_cookie_authenticated r body_token in
      let db₁ = counted r ch db in
      let whole : refresh env r body_token ch db
          ≡ on_rotation env r from_cookie ch (reuse_detected (context row u) n)
              (record db₁ { tokens = t }) =
        refresh-rotates r body_token ch db c raw p
        ∙ ap (λ (q : Response Rotation × Db). continue q.0 (on_rotation env r from_cookie ch) q.1)
            (rotate-some r (c ∷ raw) ch db₁ _ t rotation) in
      let (answer, kept, event) =
        on_rotation-reuse r from_cookie ch row u n (record db₁ { tokens = t }) in
      rw whole (
        answer,
        ap (λ (s : Table). count (live_in row.family_id) s.rows) kept ∙ none_live,
        λ f apart. ap (λ (s : Table). count (live_in f) s.rows) kept ∙ others f apart,
        event,
      )
