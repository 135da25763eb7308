-- ===== src/AuthRouter/Refresh/Logout.antt =====
-- quansec/protocols/auth_router.py, `logout`: the token it is given, in any later history.
use quansec_pqc_platform.Prelude.{
  ℕ, ◌≡◌, ◌≢◌, refl, sym, ap, subst, ◌∙◌, Bool, true, false, Option, none, some, List, [], ◌∷◌,
  Text, codes, arith, All, Option-cases, inl, inr,
}
use quansec_pqc_platform.Tokens.Rows.{Row, update_list, update_rows}
use quansec_pqc_platform.Tokens.{
  Rotation, unknown_token, reuse_detected, revoked, expired, rotated, rotate_refresh_token,
  revoke_token, live_hash, log_out_row,
}
use quansec_pqc_platform.Tokens.Steps.{IsWf}
use quansec_pqc_platform.Tokens.History.{
  Reach, Reach-IsDead, IsDead, DeadRow, Differs, is_rotated, logout-IsWf,
}
use quansec_pqc_platform.Tokens.Theft.{rotate_dead}
use quansec_pqc_platform.Http.{Db, Request, Response, http_error, status_of, continue}
use quansec_pqc_platform.Csrf.{is_cookie_authenticated}
use quansec_pqc_platform.AuthRouter.Session.{Env, Chance, TokenResponse, Reply, client_of}
use quansec_pqc_platform.AuthRouter.Refresh.{
  refresh, logout, on_rotation, revoke_session, raw_token, rotate,
}
use quansec_pqc_platform.AuthRouter.Refresh.Guards.{admitted, check_csrf-go}
use quansec_pqc_platform.AuthRouter.Refresh.Reuse.{Presents, refresh-rotates, rotate-some, counted}

module _ (env : Env) where
  on_rotation-refused :
      (r : Request) (from_cookie : Bool) (ch : Chance) (result : Rotation) (db : Db)
      → is_rotated result ≡ false
      → status_of (on_rotation env r from_cookie ch result db).0 ≢ 200
  unfolding on_rotation
  on_rotation-refused r from_cookie ch unknown_token db e k = absurd (omega (arith, k))
  on_rotation-refused r from_cookie ch (reuse_detected x n) db e k = absurd (omega (arith, k))
  on_rotation-refused r from_cookie ch (revoked x reason) db e k = absurd (omega (arith, k))
  on_rotation-refused r from_cookie ch (expired x) db e k = absurd (omega (arith, k))
  on_rotation-refused r from_cookie ch (rotated x p s) db e k = cc

  rotate-none :
      (r : Request) (raw : Text) (ch : Chance) (db : Db)
      → rotate_refresh_token env.sha256 env.cookies.refresh_ttl_days db.users db.tokens raw
          (client_of r)
          ch.draws
          ch.now
        ≡ none
      → rotate env r raw ch db ≡ (http_error 500 (codes "Internal Server Error"), db)
  rotate-none r raw ch db e = ground (arith, e)

  -- A token whose rows are all revoked is not accepted by `refresh`.
  refresh_dead :
      (r : Request) (body_token : Option Text) (ch : Chance) (db : Db) (c : ℕ) (raw : Text)
      → Presents env r body_token ch db (c ∷ raw)
      → IsDead (env.sha256 (c ∷ raw)) db.tokens
      → status_of (refresh env r body_token ch db).0 ≢ 200
  refresh_dead r body_token ch db c raw p dead k =
      let from_cookie = is_cookie_authenticated r body_token in
      let db₁ = counted env r ch db in
      let whole = refresh-rotates env r body_token ch db c raw p in
      elim (Option-cases (
        rotate_refresh_token env.sha256 env.cookies.refresh_ttl_days db.users db.tokens (c ∷ raw)
          (client_of r) ch.draws ch.now)) [
            | inl broken ↦ absurd (
                omega (
                  arith,
                  ap
                        (λ (q : Response Rotation × Db).
                          status_of (continue q.0 (on_rotation env r from_cookie ch) q.1).0)
                        (sym (rotate-none r (c ∷ raw) ch db₁ broken))
                      ∙ ap (λ (q : Response (Reply TokenResponse) × Db). status_of q.0) (sym whole)
                      ∙ k,
                ))
            | inr ((result, t), done) ↦
                on_rotation-refused r from_cookie ch result (record db₁ { tokens = t })
                  (rotate_dead env.sha256 env.cookies.refresh_ttl_days db.users db.tokens (c ∷ raw)
                    (client_of r) ch.draws ch.now result t dead done)
                  (ap
                      (λ (q : Response Rotation × Db).
                        status_of (continue q.0 (on_rotation env r from_cookie ch) q.1).0)
                      (sym (rotate-some env r (c ∷ raw) ch db₁ result t done))
                    ∙ ap (λ (q : Response (Reply TokenResponse) × Db). status_of q.0) (sym whole)
                    ∙ k)
          ]

  log_out-IsDead :
      (h reason : Text) (now : ℕ) (rs : List Row)
      → All
          (DeadRow env.sha256 env.cookies.refresh_ttl_days h)
          (update_list (live_hash env.sha256 h) (log_out_row env.sha256 reason now) rs)
  log_out-IsDead h reason now [] = tt
  log_out-IsDead h reason now (r ∷ rs) = ((λ k. ground (arith, k)), log_out-IsDead h reason now rs)

  -- What `logout` of a token did to the sessions, and its answer.
  logout_done :
      (r : Request) (body_token : Option Text) (now : ℕ) (db : Db) (c : ℕ) (raw : Text)
      → admitted r body_token ≡ true
      → raw_token r body_token ≡ some (c ∷ raw)
      → (status_of (logout env r body_token now db).0 ≡ 200)
        × ((logout env r body_token now db).1.tokens
            ≡ (revoke_token env.sha256 db.tokens (c ∷ raw) (codes "logout") now).1)
  unfolding logout revoke_session
  logout_done r body_token now db c raw genuine presented =
      rw (check_csrf-go env r body_token db genuine, presented)
        (elim (Option-cases (revoke_token env.sha256 db.tokens (c ∷ raw) (codes "logout") now).0) [
          | inl gone ↦ rw gone (refl, refl)
          | inr (row, found) ↦ rw found (refl, refl)
        ])

  -- `logout` past the CSRF check answers 200 and is final: in any later history of the sessions in which no
  -- draw has a token of the same hash, `refresh` does not accept the token, from whatever client.
  pub logout_final :
      (r : Request) (body_token : Option Text) (now : ℕ) (db : Db) (c : ℕ) (raw : Text)
      → IsWf db.tokens
      → admitted r body_token ≡ true
      → raw_token r body_token ≡ some (c ∷ raw)
      → (status_of (logout env r body_token now db).0 ≡ 200)
        × ((r₂ : Request) (body₂ : Option Text) (ch₂ : Chance) (db₂ : Db)
            → Reach env.sha256 env.cookies.refresh_ttl_days
                (Differs env.sha256 env.cookies.refresh_ttl_days (env.sha256 (c ∷ raw)))
                (logout env r body_token now db).1.tokens
                db₂.tokens
            → Presents env r₂ body₂ ch₂ db₂ (c ∷ raw)
            → status_of (refresh env r₂ body₂ ch₂ db₂).0 ≢ 200)
  unfolding revoke_token update_rows
  logout_final r body_token now db c raw w genuine presented =
      let (answered, tokens) = logout_done r body_token now db c raw genuine presented in
      let h = env.sha256 (c ∷ raw) in
      (
        answered,
        λ r₂ body₂ ch₂ db₂ later p. refresh_dead r₂ body₂ ch₂ db₂ c raw p (
            Reach-IsDead env.sha256 env.cookies.refresh_ttl_days h
              (subst IsWf (sym tokens) (
                logout-IsWf env.sha256 env.cookies.refresh_ttl_days
                  (Differs env.sha256 env.cookies.refresh_ttl_days h) db.tokens (c ∷ raw)
                  (codes "logout") now w))
              (subst (IsDead h) (sym tokens) (log_out-IsDead h (codes "logout") now db.tokens.rows))
              later),
      )
