-- ===== src/AuthRouter/Login/Refused.antt =====
-- quansec/protocols/auth_router.py, `login` and `login_scoped`: every answer, and what a refusal leaves
-- as it was.
use quansec_pqc_platform.Prelude.{
  ℕ, refl, Bool, none, some, Text, if◌then◌else◌, Bool-cases, inl, inr,
}
use quansec_pqc_platform.RateLimit.{login_limit}
use quansec_pqc_platform.Http.{Db, Request}
use quansec_pqc_platform.AuthRouter.Session.{Env, Chance}
use quansec_pqc_platform.AuthRouter.Login.{
  login, may_enter, login_throttled_detail, login_failure_detail,
}
use quansec_pqc_platform.AuthRouter.Login.Ends.{
  SameCredentials, identified, Ends, insert_status, refuse_throttled-go, throttled-Ends,
  credentials-Ends, opened-Ends,
}

module _ (env : Env) where
  abbrev pub login_status : Request → Text → Text → Chance → Db → ℕ
  login_status r email password ch db =
      if (login_limit env.sha256 env.limits ch.limit_outage db.limiter ch.now r.ip email).0.allowed
      then (elim (identified env db.users email password) [
        | none ↦ 401
        | some u ↦ insert_status env r u ch db.tokens
      ])
      else 429

  -- Every call of `login` ends, with the status 429 if the limit is passed, else 401 if no user has that
  -- email and password, else 200 unless the database refuses the new token's row (500). Whether the email is
  -- unknown or the password wrong, the 401 is the same; whatever is no 200 leaves the sessions and the API
  -- keys as they were.
  pub login_exact :
      (r : Request) (email password : Text) (use_cookie : Bool) (ch : Chance) (db : Db)
      → Ends env
          (login_status r email password ch db)
          db
          (login env r email password use_cookie ch db)
  unfolding login
  login_exact r email password use_cookie ch db =
      let limited =
        login_limit env.sha256 env.limits ch.limit_outage db.limiter ch.now r.ip email in
      let db₁ = record db { limiter = limited.1 } in
      let detail = login_throttled_detail env email limited.0 in
      let same : SameCredentials db db₁ = record { same_tokens = refl; same_keys = refl } in
      elim (Bool-cases limited.0.allowed) [
        | inr over ↦ rw over (throttled-Ends env limited.0 detail db db₁ _ over same)
        | inl open_ ↦
            rw (open_, refuse_throttled-go env limited.0 detail db₁ open_)
              (credentials-Ends env r email password (login_failure_detail env email) use_cookie ch
                db db₁ _ (λ u. insert_status env r u ch db.tokens) same
                (λ u db₂ kept. opened-Ends env r email u use_cookie ch db db₂ kept))
      ]

  abbrev pub scoped_status : Request → Text → Text → Text → Chance → Db → ℕ
  scoped_status r portal email password ch db =
      if (login_limit env.sha256 env.limits ch.limit_outage db.limiter ch.now r.ip email).0.allowed
      then (elim (identified env db.users email password) [
        | none ↦ 401
        | some u ↦ if may_enter env portal u then insert_status env r u ch db.tokens else 401
      ])
      else 429
