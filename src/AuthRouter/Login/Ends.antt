-- ===== src/AuthRouter/Login/Ends.antt =====
-- quansec/protocols/auth_router.py, `login` and `login_scoped`: how each of their steps ends.
use quansec_pqc_platform.Prelude.{
  ℕ, ◌≡◌, refl, ap, subst, ◌∙◌, Bool, true, false, Option, none, some, List, Text, codes,
  if◌then◌else◌, arith, any, Bool-cases, Option-cases, inl, inr,
}
use quansec_pqc_platform.Json.{Fields}
use quansec_pqc_platform.Tokens.Rows.{User, Table, clashes, insert_row}
use quansec_pqc_platform.Tokens.{issue_refresh_token}
use quansec_pqc_platform.RateLimit.{RateLimitResult}
use quansec_pqc_platform.Http.{
  status_of, Db, Request, Response, ok, http_error, Handler, ◌>>=◌, ◌>>◌,
}
use quansec_pqc_platform.Http.Bind.{bind-go, bind-stop}
use quansec_pqc_platform.Auth.{authenticate_user, find_email, or_false}
use quansec_pqc_platform.AuthRouter.Session.{
  Env, Chance, TokenResponse, Reply, issue_session, generic_auth_error,
}
use quansec_pqc_platform.AuthRouter.Login.{credentials, refuse_throttled, reset_login}
use quansec_pqc_platform.AuthRouter.Login.Granted.{session_row}

-- The sessions and the API keys are what they were.
pub record SameCredentials (db db' : Db) : Type 0 where
  pub same_tokens : db'.tokens ≡ db.tokens
  pub same_keys : db'.api_keys ≡ db.api_keys

module _ (env : Env) where
  -- The user whom an email and a password identify.
  abbrev pub identified : List User → Text → Text → Option User
  identified users email password = elim (find_email users email) [
    | none ↦ none
    | some u ↦ if or_false (env.passwords.verify password u.password_hash) then some u else none
  ]

  module _ (ch : Chance) (email password : Text) (detail : Fields) (db : Db) where
    credentials-none :
        identified db.users email password ≡ none
        → let done = credentials env ch email password detail db in
          (done.0 ≡ http_error 401 generic_auth_error)
          × SameCredentials db done.1
          × (done.1.users ≡ db.users)
    unfolding credentials authenticate_user
    credentials-none e = elim (Option-cases (find_email db.users email)) [
      | inl no_user ↦ ground (arith, e, no_user)
      | inr (u, found) ↦
          elim (Bool-cases (or_false (env.passwords.verify password u.password_hash))) [
            | inl right ↦ absurd (ground (arith, e, found, right))
            | inr wrong ↦ ground (arith, found, wrong)
          ]
    ]

    credentials-some :
        (u : User)
        → identified db.users email password ≡ some u
        → let done = credentials env ch email password detail db in
          (done.0 ≡ ok u) × SameCredentials db done.1
    unfolding credentials authenticate_user
    credentials-some u e = elim (Option-cases (find_email db.users email)) [
      | inl no_user ↦ absurd (ground (arith, e, no_user))
      | inr (v, found) ↦
          elim (Bool-cases (or_false (env.passwords.verify password v.password_hash))) [
            | inl right ↦ ground (arith, e, found, right)
            | inr wrong ↦ absurd (ground (arith, e, found, wrong))
          ]
    ]

  -- The reply of a handler that ends with this status: a refusal is the generic one, and leaves the
  -- sessions and the keys as they were.
  pub record Ends (status : ℕ) (db : Db) (done : Response (Reply TokenResponse) × Db) : Type 0 where
    pub reached : status_of done.0 ≡ status
    pub uniform : status ≡ 401 → done.0 ≡ http_error 401 generic_auth_error
    pub untouched : (status ≡ 200 → ⊥) → SameCredentials db done.1

  abbrev pub insert_status : Request → User → Chance → Table → ℕ
  insert_status r u ch t = if any (clashes (session_row env r u ch t)) t.rows then 500 else 200

  issue_session-Ends :
      (r : Request) (u : User) (use_cookie : Bool) (ch : Chance) (db : Db)
      → Ends (insert_status r u ch db.tokens) db (issue_session env r u use_cookie ch db)
  unfolding issue_session issue_refresh_token insert_row
  issue_session-Ends r u use_cookie ch db =
      elim (Bool-cases (any (clashes (session_row env r u ch db.tokens)) db.tokens.rows)) [
        | inl taken ↦ rw taken (record {
          reached = ground (arith, taken);
          uniform = λ k. absurd (omega arith);
          untouched = λ k. ground (arith, taken);
        })
        | inr free ↦ rw free (record {
          reached = ground (arith, free);
          uniform = λ k. absurd (omega arith);
          untouched = λ k. absurd (k refl);
        })
      ]

  pub SameCredentials-Ends :
      (status : ℕ) (db db₁ : Db) (done : Response (Reply TokenResponse) × Db)
      → SameCredentials db db₁
      → Ends status db₁ done
      → Ends status db done
  SameCredentials-Ends status db db₁ done same e = record {
    reached = e.reached;
    uniform = e.uniform;
    untouched = λ k. record {
      same_tokens = (e.untouched k).same_tokens ∙ same.same_tokens;
      same_keys = (e.untouched k).same_keys ∙ same.same_keys;
    };
  }

  pub refusal-Ends :
      (db : Db) (done : Response (Reply TokenResponse) × Db)
      → done.0 ≡ http_error 401 generic_auth_error
      → SameCredentials db done.1
      → Ends 401 db done
  refusal-Ends db done e same = record {
    reached = ap status_of e;
    uniform = λ k. e;
    untouched = λ k. same;
  }

  -- The reset of the counter, and the session.
  pub opened-Ends :
      (r : Request) (email : Text) (u : User) (use_cookie : Bool) (ch : Chance) (db db₁ : Db)
      → SameCredentials db db₁
      → Ends
          (insert_status r u ch db.tokens)
          db
          ((reset_login env ch r email >> issue_session env r u use_cookie ch) db₁)
  opened-Ends r email u use_cookie ch db db₁ same =
      SameCredentials-Ends (insert_status r u ch db.tokens) db db₁ _ same (
        subst
          (λ (t : Table).
            Ends (insert_status r u ch t) db₁
              ((reset_login env ch r email >> issue_session env r u use_cookie ch) db₁))
          same.same_tokens
          (SameCredentials-Ends (insert_status r u ch db₁.tokens) db₁
            (reset_login env ch r email db₁).1 _ (record { same_tokens = refl; same_keys = refl })
            (issue_session-Ends r u use_cookie ch (reset_login env ch r email db₁).1)))

  refuse_throttled-stop :
      (limit : RateLimitResult) (detail : Fields) (db : Db)
      → limit.allowed ≡ false
      → ((refuse_throttled limit detail db).0
          ≡ http_error 429 (codes "Too many login attempts. Try again later."))
        × SameCredentials db (refuse_throttled limit detail db).1
  unfolding refuse_throttled
  refuse_throttled-stop limit detail db e = ground (arith, e)

  pub refuse_throttled-go :
      (limit : RateLimitResult) (detail : Fields) (db : Db)
      → limit.allowed ≡ true
      → refuse_throttled limit detail db ≡ (ok tt, db)
  unfolding refuse_throttled
  refuse_throttled-go limit detail db e = rw (e, refuse_throttled) refl

  pub throttled-Ends :
      (limit : RateLimitResult) (detail : Fields) (db db₁ : Db)
      (f : Unit {0} → Handler (Reply TokenResponse))
      → limit.allowed ≡ false
      → SameCredentials db db₁
      → Ends 429 db ((refuse_throttled limit detail >>= f) db₁)
  throttled-Ends limit detail db db₁ f e same =
      let (stopped, kept) = refuse_throttled-stop limit detail db₁ e in
      rw (bind-stop (refuse_throttled limit detail) f 429 _ db₁ stopped) (
        SameCredentials-Ends 429 db db₁ _ same
          (record { reached = refl; uniform = λ k. absurd (omega arith); untouched = λ k. kept }))

  -- From the credentials on.
  pub credentials-Ends :
      (r : Request) (email password : Text) (detail : Fields) (use_cookie : Bool) (ch : Chance)
      (db db₁ : Db) (g : User → Handler (Reply TokenResponse)) (status : User → ℕ)
      → SameCredentials db db₁
      → ((u : User) (db₂ : Db) → SameCredentials db db₂ → Ends (status u) db (g u db₂))
      → Ends
          (elim (identified db₁.users email password) [ none ↦ 401 | some u ↦ status u ])
          db
          ((credentials env ch email password detail >>= g) db₁)
  credentials-Ends r email password detail use_cookie ch db db₁ g status same rest =
      elim (Option-cases (identified db₁.users email password)) [
        | inl nobody ↦
            let (failed, kept, _) = credentials-none ch email password detail db₁ nobody in
            rw
              (
                nobody,
                bind-stop (credentials env ch email password detail) g 401 generic_auth_error db₁
                    failed,
              )
              (SameCredentials-Ends 401 db db₁ _ same (refusal-Ends db₁ _ refl kept))
        | inr (u, found) ↦
            let (passed, kept) = credentials-some ch email password detail db₁ u found in
            rw (found, bind-go (credentials env ch email password detail) g u db₁ passed)
              (rest u _ (record {
                same_tokens = kept.same_tokens ∙ same.same_tokens;
                same_keys = kept.same_keys ∙ same.same_keys;
              }))
      ]
