-- ===== src/AuthRouter/Login/Granted.antt =====
-- quansec/protocols/auth_router.py, `login` and `login_scoped`: what an answer says.
use quansec_pqc_platform.Prelude.{
  ◌≡◌, sym, ap, subst, ◌∙◌, Bool, true, false, Option, none, some, List, ◌∷◌, Text, if◌then◌else◌,
  arith, any, Bool-cases, Option-cases, inl, inr,
}
use quansec_pqc_platform.Scopes.{scopes_for}
use quansec_pqc_platform.Json.{Fields}
use quansec_pqc_platform.Tokens.Rows.{User, Row, Table, clashes}
use quansec_pqc_platform.Tokens.{Issued, new_row, issue_refresh_token}
use quansec_pqc_platform.Tokens.Rotate.{issue_success}
use quansec_pqc_platform.RateLimit.{RateLimitResult, login_limit}
use quansec_pqc_platform.Http.{Db, Request, ok, ◌>>◌}
use quansec_pqc_platform.Http.Bind.{bind-ok, returned}
use quansec_pqc_platform.Auth.{authenticate_user, find_email, or_false}
use quansec_pqc_platform.AuthRouter.Session.{
  Env, Chance, TokenResponse, Reply, issue_session, client_of, session_cookies, on_tokens,
}
use quansec_pqc_platform.AuthRouter.Login.{
  login, login_scoped, credentials, refuse_throttled, may_enter, check_portal, reset_login,
  login_throttled_detail, login_failure_detail, scoped_throttled_detail, scoped_failure_detail,
}

module _ (env : Env) where
  -- The row that a login adds.
  abbrev pub session_row : Request → User → Chance → Table → Row
  session_row r u ch t =
      new_row env.sha256 env.cookies.refresh_ttl_days t u.id none none (client_of r) ch.draws ch.now

  -- The reply and the tables of a session that was opened for the user `u`.
  pub record IsSession (r : Request) (u : User) (use_cookie : Bool) (ch : Chance) (t t' : Table)
      (rep : Reply TokenResponse) : Type 0 where
    pub role : rep.body.role ≡ u.role
    pub scopes : rep.body.scopes ≡ scopes_for (some u.role) u.portal
    pub body_token : rep.body.refresh_token ≡ (if use_cookie then none else some ch.draws.raw)
    pub cookies : rep.cookies ≡ session_cookies env.cookies use_cookie ch.draws.raw ch.csrf
    pub rows : t'.rows ≡ session_row r u ch t ∷ t.rows
    pub fresh : any (clashes (session_row r u ch t)) t.rows ≡ false

  on_tokens-ok :
      (m : Table → Option (Issued × Table)) (i : Issued) (db db' : Db)
      → on_tokens m db ≡ (ok i, db')
      → (m db.tokens ≡ some (i, db'.tokens)) × (db'.api_keys ≡ db.api_keys) × (db'.users ≡ db.users)
  on_tokens-ok m i db db' e = elim (Option-cases (m db.tokens)) [
    | inl gone ↦ absurd (ground (arith, e, gone))
    | inr ((j, t), found) ↦
        (ground (arith, e, found), ground (arith, e, found), ground (arith, e, found))
  ]

  pub issue_session-ok :
      (r : Request) (u : User) (use_cookie : Bool) (ch : Chance) (rep : Reply TokenResponse)
      (db db' : Db)
      → issue_session env r u use_cookie ch db ≡ (ok rep, db')
      → IsSession r u use_cookie ch db.tokens db'.tokens rep
        × (db'.api_keys ≡ db.api_keys)
        × (db'.users ≡ db.users)
  unfolding issue_session
  issue_session-ok r u use_cookie ch rep db db' e =
      let m = λ (t : Table).
        issue_refresh_token env.sha256 env.cookies.refresh_ttl_days t u.id none none (client_of r)
          ch.draws ch.now in
      let (i, db₁, e₁, rest) = bind-ok (on_tokens m) _ rep db db' e in
      let (m_eq, keys, users) = on_tokens-ok m i db db₁ e₁ in
      let (fresh, t_eq, i_eq) =
        issue_success env.sha256 env.cookies.refresh_ttl_days db.tokens u.id none none (client_of r)
          ch.draws ch.now m_eq in
      let (rep_eq, db_eq) = returned _ rep _ db' rest in
      let raw : i.raw_token ≡ ch.draws.raw = ap (λ (j : Issued). j.raw_token) i_eq in
      let kept : db'.tokens ≡ db₁.tokens = ap (λ (d : Db). d.tokens) (sym db_eq) in
      (
        record {
          role = ap (λ (x : Reply TokenResponse). x.body.role) (sym rep_eq);
          scopes = ap (λ (x : Reply TokenResponse). x.body.scopes) (sym rep_eq);
          body_token =
              ap (λ (x : Reply TokenResponse). x.body.refresh_token) (sym rep_eq)
              ∙ ap (λ (x : Text). if use_cookie then none else some x) raw;
          cookies =
              ap (λ (x : Reply TokenResponse). x.cookies) (sym rep_eq)
              ∙ ap (λ (x : Text). session_cookies env.cookies use_cookie x ch.csrf) raw;
          rows = ap (λ (t : Table). t.rows) (kept ∙ t_eq);
          fresh = fresh;
        },
        ap (λ (d : Db). d.api_keys) (sym db_eq) ∙ keys,
        ap (λ (d : Db). d.users) (sym db_eq) ∙ users,
      )

  credentials-ok :
      (ch : Chance) (email password : Text) (detail : Fields) (u : User) (db db' : Db)
      → credentials env ch email password detail db ≡ (ok u, db')
      → (find_email db.users email ≡ some u)
        × (env.passwords.verify password u.password_hash ≡ some true)
        × (db'.tokens ≡ db.tokens)
        × (db'.api_keys ≡ db.api_keys)
  unfolding credentials authenticate_user
  credentials-ok ch email password detail u db db' e =
      elim (Option-cases (find_email db.users email)) [
        | inl no_user ↦ absurd (ground (arith, e, no_user))
        | inr (v, found) ↦
            elim (Bool-cases (or_false (env.passwords.verify password v.password_hash))) [
              | inr wrong ↦ absurd (ground (arith, e, found, wrong))
              | inl right ↦ (
                ground (arith, e, found, right),
                ground (arith, e, found, right),
                ground (arith, e, found, right),
                ground (arith, e, found, right),
              )
            ]
      ]

  check_portal-ok :
      (portal : Text) (u : User) (x : Unit {0}) (db db' : Db)
      → check_portal env portal u db ≡ (ok x, db')
      → (may_enter env portal u ≡ true) × (db ≡ db')
  unfolding check_portal
  check_portal-ok portal u x db db' e = elim (Bool-cases (may_enter env portal u)) [
    | inl yes_ ↦ (yes_, ground (arith, e, yes_))
    | inr no_ ↦ absurd (ground (arith, e, no_))
  ]

  refuse_throttled-ok :
      (limit : RateLimitResult) (detail : Fields) (x : Unit {0}) (db db' : Db)
      → refuse_throttled limit detail db ≡ (ok x, db')
      → (limit.allowed ≡ true) × (db ≡ db')
  unfolding refuse_throttled
  refuse_throttled-ok limit detail x db db' e = elim (Bool-cases limit.allowed) [
    | inl yes_ ↦ (yes_, ground (arith, e, yes_))
    | inr no_ ↦ absurd (ground (arith, e, no_))
  ]

  -- Who was let in, and the session that was opened.
  pub record IsGranted (r : Request) (email password : Text) (user : User) (use_cookie : Bool)
      (ch : Chance) (db db' : Db) (rep : Reply TokenResponse) : Type 0 where
    pub named : find_email db.users email ≡ some user
    pub proved : env.passwords.verify password user.password_hash ≡ some true
    pub unthrottled :
        (login_limit env.sha256 env.limits ch.limit_outage db.limiter ch.now r.ip email).0.allowed
        ≡ true
    pub session : IsSession r user use_cookie ch db.tokens db'.tokens rep
    pub same_keys : db'.api_keys ≡ db.api_keys

  -- The end of both handlers, from the credentials on.
  session-IsGranted :
      (r : Request) (email password : Text) (use_cookie : Bool) (ch : Chance)
      (rep : Reply TokenResponse) (detail : Fields) (u : User) (db db₂ db₃ db' : Db)
      → (login_limit env.sha256 env.limits ch.limit_outage db.limiter ch.now r.ip email).0.allowed
        ≡ true
      → db₂.users ≡ db.users
      → db₂.tokens ≡ db.tokens
      → db₂.api_keys ≡ db.api_keys
      → credentials env ch email password detail db₂ ≡ (ok u, db₃)
      → (reset_login env ch r email >> issue_session env r u use_cookie ch) db₃ ≡ (ok rep, db')
      → IsGranted r email password u use_cookie ch db db' rep
  session-IsGranted r email password use_cookie ch rep detail u db db₂ db₃ db' open_ users tokens
        keys e rest =
      let (named, proved, tokens₃, keys₃) = credentials-ok ch email password detail u db₂ db₃ e in
      let db₄ = (reset_login env ch r email db₃).1 in
      let (opened, keys', users') = issue_session-ok r u use_cookie ch rep db₄ db' rest in
      record {
        named = ap (λ (us : List User). find_email us email) (sym users) ∙ named;
        proved = proved;
        unthrottled = open_;
        session =
            subst (λ (t : Table). IsSession r u use_cookie ch t db'.tokens rep) (tokens₃ ∙ tokens)
              opened;
        same_keys = keys' ∙ keys₃ ∙ keys;
      }

  pub login_answered :
      (r : Request) (email password : Text) (use_cookie : Bool) (ch : Chance)
      (rep : Reply TokenResponse) (db db' : Db)
      → login env r email password use_cookie ch db ≡ (ok rep, db')
      → (u : User) × IsGranted r email password u use_cookie ch db db' rep
  unfolding login
  login_answered r email password use_cookie ch rep db db' e =
      let limited =
        login_limit env.sha256 env.limits ch.limit_outage db.limiter ch.now r.ip email in
      let db₁ = record db { limiter = limited.1 } in
      let (x, db₂, e₂, r₂) =
        bind-ok (refuse_throttled limited.0 (login_throttled_detail env email limited.0)) _ rep db₁
          db' e in
      let (open_, same) =
        refuse_throttled-ok limited.0 (login_throttled_detail env email limited.0) x db₁ db₂ e₂ in
      let (u, db₃, e₃, r₃) =
        bind-ok (credentials env ch email password (login_failure_detail env email)) _ rep db₂ db'
          r₂ in
      (
        u,
        session-IsGranted r email password use_cookie ch rep (login_failure_detail env email) u db
            db₂ db₃ db' open_ (ap (λ (d : Db). d.users) (sym same))
            (ap (λ (d : Db). d.tokens) (sym same)) (ap (λ (d : Db). d.api_keys) (sym same)) e₃ r₃,
      )

  -- `login_scoped` answers as `login` does, and only to a user who is an admin, whose portal is `main`, or
  -- whose portal is the one asked for.
  pub login_scoped_answered :
      (r : Request) (portal email password : Text) (use_cookie : Bool) (ch : Chance)
      (rep : Reply TokenResponse) (db db' : Db)
      → login_scoped env r portal email password use_cookie ch db ≡ (ok rep, db')
      → (u : User) × IsGranted r email password u use_cookie ch db db' rep
        × (may_enter env portal u ≡ true)
  unfolding login_scoped
  login_scoped_answered r portal email password use_cookie ch rep db db' e =
      let limited =
        login_limit env.sha256 env.limits ch.limit_outage db.limiter ch.now r.ip email in
      let db₁ = record db { limiter = limited.1 } in
      let throttled = scoped_throttled_detail env email portal limited.0 in
      let failed = scoped_failure_detail env email portal in
      let (x, db₂, e₂, r₂) = bind-ok (refuse_throttled limited.0 throttled) _ rep db₁ db' e in
      let (open_, same) = refuse_throttled-ok limited.0 throttled x db₁ db₂ e₂ in
      let (u, db₃, e₃, r₃) = bind-ok (credentials env ch email password failed) _ rep db₂ db' r₂ in
      let (y, db₄, e₄, r₄) = bind-ok (check_portal env portal u) _ rep db₃ db' r₃ in
      let (enters, same₄) = check_portal-ok portal u y db₃ db₄ e₄ in
      (
        u,
        session-IsGranted r email password use_cookie ch rep failed u db db₂ db₃ db' open_
            (ap (λ (d : Db). d.users) (sym same)) (ap (λ (d : Db). d.tokens) (sym same))
            (ap (λ (d : Db). d.api_keys) (sym same)) e₃
            (subst
              (λ (d : Db).
                (reset_login env ch r email >> issue_session env r u use_cookie ch) d
                ≡ (ok rep, db'))
              (sym same₄) r₄),
        enters,
      )
