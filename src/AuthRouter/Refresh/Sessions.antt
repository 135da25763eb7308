-- ===== src/AuthRouter/Refresh/Sessions.antt =====
-- quansec/protocols/auth_router.py: a session through its life: `login`, `refresh`, `logout`.
use quansec_pqc_platform.Prelude.{
  ℕ, suc, ◌+◌, ◌*◌, ◌≡◌, refl, sym, ap, subst, ◌∙◌, Bool, true, false, Option, none, some, List,
  ◌∷◌, Text, eq_text_refl, if◌then◌else◌, arith, is_none, find, any, leb, ◌==◌,
}
use quansec_pqc_platform.Scopes.{scopes_for}
use quansec_pqc_platform.Tokens.Rows.{User, Row, Table, clashes, insert_row, update_rows}
use quansec_pqc_platform.Tokens.{
  Rotation, rotated, context, rotate_refresh_token, fetch, decide, carry_out, issued, day,
  close_row, new_row, issue_refresh_token,
}
use quansec_pqc_platform.Http.{Db, Request, Response, ok, continue}
use quansec_pqc_platform.RateLimit.{refresh_limit}
use quansec_pqc_platform.Auth.{find_email}
use quansec_pqc_platform.Csrf.{is_cookie_authenticated}
use quansec_pqc_platform.AuthRouter.Session.{
  Env, Chance, TokenResponse, Reply, client_of, session_cookies,
}
use quansec_pqc_platform.AuthRouter.Login.{login}
use quansec_pqc_platform.AuthRouter.Login.Granted.{session_row, IsSession, login_answered}
use quansec_pqc_platform.AuthRouter.Refresh.{refresh, on_rotation}
use quansec_pqc_platform.AuthRouter.Refresh.Reuse.{Presents, refresh-rotates, rotate-some, counted}

module _ (env : Env) where
  abbrev pub successor_row : Request → Chance → Table → Row → Row
  successor_row r ch t row =
      new_row env.sha256 env.cookies.refresh_ttl_days t row.user_id (some row.family_id)
        (some row.id) (client_of r) ch.draws ch.now

  -- A row that may still be exchanged, for a new row that does not clash.
  pub record IsOpen (r : Request) (ch : Chance) (t : Table) (row : Row) : Type 0 where
    pub unused : is_none row.replaced_by ≡ true
    pub live : is_none row.revoked_at ≡ true
    pub early : leb row.expires_at ch.now ≡ false
    pub fresh : any (clashes (successor_row r ch t row)) t.rows ≡ false

  -- The reply is today's role and scopes of the user.
  pub record IsRefreshed (u : User) (use_cookie : Bool) (ch : Chance) (rep : Reply TokenResponse)
      : Type 0 where
    pub role : rep.body.role ≡ u.role
    pub scopes : rep.body.scopes ≡ scopes_for (some u.role) u.portal
    pub body_token : rep.body.refresh_token ≡ (if use_cookie then none else some ch.draws.raw)
    pub cookies : rep.cookies ≡ session_cookies env.cookies use_cookie ch.draws.raw ch.csrf

  -- The table after both writes of a rotation.
  abbrev pub rotated_tokens : Request → Chance → Table → Row → Table
  rotated_tokens r ch t row =
      update_rows (λ q. q.id == row.id) (close_row t.next_id ch.now)
        (record { rows = successor_row r ch t row ∷ t.rows; next_id = suc t.next_id })

  abbrev pub exchanged : Request → Chance → Table → Row → User → Rotation
  exchanged r ch t row u =
      rotated (context row u) row.token_id
        (issued env.sha256 env.cookies.refresh_ttl_days (successor_row r ch t row) ch.draws)

  rotate-open :
      (r : Request) (raw : Text) (ch : Chance) (users : List User) (t : Table) (row : Row)
      (u : User)
      → fetch users t (env.sha256 raw) ≡ some (row, u)
      → IsOpen r ch t row
      → rotate_refresh_token env.sha256 env.cookies.refresh_ttl_days users t raw
          (client_of r)
          ch.draws
          ch.now
        ≡ some (exchanged r ch t row u, rotated_tokens r ch t row)
  unfolding rotate_refresh_token decide carry_out issue_refresh_token insert_row
  rotate-open r raw ch users t row u e o = ground (arith, e)

  on_rotation-exchanged :
      (r : Request) (from_cookie : Bool) (ch : Chance) (t : Table) (row : Row) (u : User) (db : Db)
      → (rep : Reply TokenResponse) × ((on_rotation env r from_cookie ch
            (exchanged r ch t row u)
            db).0
          ≡ ok rep)
        × IsRefreshed u from_cookie ch rep
  unfolding on_rotation
  on_rotation-exchanged r from_cookie ch t row u db =
      (_, refl, record { role = refl; scopes = refl; body_token = refl; cookies = refl })

  -- `refresh` of an open token, within the limit and past the CSRF check, answers with today's role and
  -- scopes of its user, and a new token in the cookies or in the body.
  refresh_open :
      (r : Request) (body_token : Option Text) (ch : Chance) (db : Db) (c : ℕ) (raw : Text)
      (row : Row) (u : User)
      → Presents env r body_token ch db (c ∷ raw)
      → fetch db.users db.tokens (env.sha256 (c ∷ raw)) ≡ some (row, u)
      → IsOpen r ch db.tokens row
      → (rep : Reply TokenResponse) × ((refresh env r body_token ch db).0 ≡ ok rep)
        × IsRefreshed u (is_cookie_authenticated r body_token) ch rep
  refresh_open r body_token ch db c raw row u p e o =
      let from_cookie = is_cookie_authenticated r body_token in
      let db₁ = counted env r ch db in
      let t = rotated_tokens r ch db.tokens row in
      let whole : refresh env r body_token ch db
          ≡ on_rotation env r from_cookie ch (exchanged r ch db.tokens row u)
              (record db₁ { tokens = t }) =
        refresh-rotates env r body_token ch db c raw p
        ∙ ap (λ (q : Response Rotation × Db). continue q.0 (on_rotation env r from_cookie ch) q.1)
            (rotate-some env r (c ∷ raw) ch db₁ (exchanged r ch db.tokens row u) t
              (rotate-open r (c ∷ raw) ch db.users db.tokens row u e o)) in
      rw whole (on_rotation-exchanged r from_cookie ch db.tokens row u (record db₁ { tokens = t }))

  fetch-session :
      (users : List User) (t t' : Table) (r : Request) (u v : User) (ch : Chance)
      → t'.rows ≡ session_row env r u ch t ∷ t.rows
      → find (λ w. w.id == u.id) users ≡ some v
      → fetch users t' (env.sha256 ch.draws.raw) ≡ some (session_row env r u ch t, v)
  unfolding fetch
  fetch-session users t t' r u v ch e found =
      ground (arith, e, found, eq_text_refl (env.sha256 ch.draws.raw))

  -- What the later request meets: the sessions as the login left them, the row `v` of the user, the limit
  -- not passed, the token not expired, and a new token that clashes with no row.
  pub record MayRefresh (r : Request) (ch : Chance) (u : User) (t : Table) (t' : Table)
      (r₂ : Request) (ch₂ : Chance) (db₂ : Db) (v : User) : Type 0 where
    pub same_tokens : db₂.tokens ≡ t'
    pub user_row : find (λ w. w.id == u.id) db₂.users ≡ some v
    pub unthrottled :
        (refresh_limit env.sha256 env.limits ch₂.limit_outage db₂.limiter ch₂.now r₂.ip).0.allowed
        ≡ true
    pub early : leb (ch.now + env.cookies.refresh_ttl_days * day) ch₂.now ≡ false
    pub fresh :
        any (clashes (successor_row r₂ ch₂ db₂.tokens (session_row env r u ch t))) db₂.tokens.rows
        ≡ false

  Presents-body :
      (r : Request) (ch : Chance) (db : Db) (c : ℕ) (raw : Text)
      → (refresh_limit env.sha256 env.limits ch.limit_outage db.limiter ch.now r.ip).0.allowed
        ≡ true
      → Presents env r (some (c ∷ raw)) ch db (c ∷ raw)
  unfolding is_cookie_authenticated
  Presents-body r ch db c raw e = record { unthrottled = e; genuine = refl; presented = refl }

  -- The row of a login, presented in the body.
  session_accepted :
      (r : Request) (ch : Chance) (u : User) (t t' : Table) (c : ℕ) (raw : Text)
      → ch.draws.raw ≡ c ∷ raw
      → t'.rows ≡ session_row env r u ch t ∷ t.rows
      → (r₂ : Request) (ch₂ : Chance) (db₂ : Db) (v : User) → MayRefresh r ch u t t' r₂ ch₂ db₂ v
      → (rep₂ : Reply TokenResponse) × ((refresh env r₂ (some (c ∷ raw)) ch₂ db₂).0 ≡ ok rep₂)
        × IsRefreshed v false ch₂ rep₂
  unfolding is_cookie_authenticated
  session_accepted r ch u t t' c raw draw rows r₂ ch₂ db₂ v m =
      let found =
        fetch-session db₂.users t db₂.tokens r u v ch
          (ap (λ (s : Table). s.rows) m.same_tokens ∙ rows) m.user_row in
      refresh_open r₂ (some (c ∷ raw)) ch₂ db₂ c raw (session_row env r u ch t) v
        (Presents-body r₂ ch₂ db₂ c raw m.unthrottled)
        (ap (λ (s : Text). fetch db₂.users db₂.tokens (env.sha256 s)) (sym draw) ∙ found)
        (record { unused = refl; live = refl; early = m.early; fresh = m.fresh })

  -- The refresh token that a login gives in the body is accepted by `refresh`, sent in the body, before it
  -- expires, while the sessions are as the login left them, the user has a row, the refresh limit is not
  -- passed and the new token clashes with no row. The answer has the role and the scopes that the user's
  -- row has by then, and the next token, in the body again.
  pub login_then_refresh :
      (r : Request) (email password : Text) (ch : Chance) (rep : Reply TokenResponse) (db db' : Db)
      → login env r email password false ch db ≡ (ok rep, db')
      → (c : ℕ) (raw : Text) → ch.draws.raw ≡ c ∷ raw
      → (u : User) → find_email db.users email ≡ some u
      → (r₂ : Request) (ch₂ : Chance) (db₂ : Db) (v : User)
      → MayRefresh r ch u db.tokens db'.tokens r₂ ch₂ db₂ v
      → (rep₂ : Reply TokenResponse) × ((refresh env r₂ rep.body.refresh_token ch₂ db₂).0 ≡ ok rep₂)
        × IsRefreshed v false ch₂ rep₂
  login_then_refresh r email password ch rep db db' e c raw draw u named r₂ ch₂ db₂ v m =
      let (u', g) = login_answered env r email password false ch rep db db' e in
      let same : u' ≡ u = ground (arith, g.named, named) in
      let s : IsSession env r u false ch db.tokens db'.tokens rep =
        subst (λ (w : User). IsSession env r w false ch db.tokens db'.tokens rep) same g.session in
      subst
        (λ (token : Option Text).
          (rep₂ : Reply TokenResponse) × ((refresh env r₂ token ch₂ db₂).0 ≡ ok rep₂)
          × IsRefreshed v false ch₂ rep₂)
        (sym (s.body_token ∙ ap some draw))
        (session_accepted r ch u db.tokens db'.tokens c raw draw s.rows r₂ ch₂ db₂ v m)
