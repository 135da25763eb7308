-- ===== src/AuthRouter/Tests.antt =====
-- A browser logs in, a script logs in and refreshes, a stolen token is replayed.
use quansec_pqc_platform.Prelude.{
  ◌≡◌, ◌≢◌, refl, true, false, Option, none, some, List, [], ◌∷◌, Text, codes, eq_text, count,
  lower, strip,
}
use quansec_pqc_platform.Scopes.{scopes_for}
use quansec_pqc_platform.Audit.{Event, refresh_reuse}
use quansec_pqc_platform.Tokens.Rows.{User, Table, empty, insert_row}
use quansec_pqc_platform.Tokens.{issued, live_in, issue_refresh_token, close_row, fetch}
use quansec_pqc_platform.Tokens.Steps.{IsWf}
use quansec_pqc_platform.Tokens.History.{
  Reach, here, next, login as login_step, one_live_token, Differs,
}
use quansec_pqc_platform.RateLimit.{login_limit, refresh_limit, check}
use quansec_pqc_platform.Http.{Db, Request, ok, http_error, status_of}
use quansec_pqc_platform.Http.Samples.{carol, world, plain, ask}
use quansec_pqc_platform.Auth.{authenticate_user}
use quansec_pqc_platform.Csrf.{is_cookie_authenticated}
use quansec_pqc_platform.AuthRouter.Session.{
  Chance, TokenResponse, Reply, token_reply, mint, issue_session, client_of,
}
use quansec_pqc_platform.AuthRouter.Login.{
  login, login_scoped, refuse_throttled, credentials, check_portal,
}
use quansec_pqc_platform.AuthRouter.Login.Granted.{session_row}
use quansec_pqc_platform.AuthRouter.Login.Ends.{Ends}
use quansec_pqc_platform.AuthRouter.Login.Refused.{login_exact, login_status, scoped_status}
use quansec_pqc_platform.AuthRouter.Refresh.{refresh, logout}
use quansec_pqc_platform.AuthRouter.Refresh.Guards.{Stopped, csrf_refused}
use quansec_pqc_platform.AuthRouter.Refresh.Reuse.{Presents, refresh_reuse_detected}
use quansec_pqc_platform.AuthRouter.Refresh.Sessions.{MayRefresh, IsRefreshed, login_then_refresh}
use quansec_pqc_platform.AuthRouter.Refresh.Logout.{logout_final}
use quansec_pqc_platform.AuthRouter.Samples.{env, at, chance}

abbrev carols_scopes : List Text
carols_scopes = scopes_for (some (codes "operator")) (some (codes "tls"))

abbrev browser : Reply TokenResponse
browser =
    token_reply env true carol.email carol.role carol.portal carols_scopes
      (mint env 3 carol.email carol.role carol.portal carols_scopes chance)
      (issued plain 7 (session_row env ask carol chance empty) chance.draws) chance

abbrev logged_in : Db
logged_in = (login env ask (codes "c@x") (codes "pw") true chance world).1

abbrev entered : Db
entered = (login_scoped env ask (codes " TLS") (codes "c@x") (codes "pw") true chance world).1

enters :
    login_scoped env ask (codes " TLS") (codes "c@x") (codes "pw") true chance world
    ≡ (ok browser, entered)
unfolding login_scoped check_portal strip refuse_throttled credentials authenticate_user
    issue_session login_limit check issue_refresh_token insert_row lower eq_text
enters = refl

login_exact_example :
    Ends env
      (login_status env ask (codes "c@x") (codes "no") chance world)
      world
      (login env ask (codes "c@x") (codes "no") false chance world)
login_exact_example = login_exact env ask (codes "c@x") (codes "no") false chance world

-- Carol's own credentials, at another protocol's page.
wrong_portal : scoped_status env ask (codes "ssh") (codes "c@x") (codes "pw") chance world ≡ 401
unfolding strip login_limit check lower eq_text
wrong_portal = refl

abbrev script : Reply TokenResponse
script =
    token_reply env false carol.email carol.role carol.portal carols_scopes
      (mint env 3 carol.email carol.role carol.portal carols_scopes chance)
      (issued plain 7 (session_row env ask carol chance empty) chance.draws) chance

abbrev scripted : Db
scripted = (login env ask (codes "c@x") (codes "pw") false chance world).1

runs : login env ask (codes "c@x") (codes "pw") false chance world ≡ (ok script, scripted)
unfolding login refuse_throttled credentials authenticate_user issue_session login_limit check
    issue_refresh_token insert_row lower eq_text
runs = refl

-- The sessions after that login, and Carol promoted since.
abbrev table : Table
table = record { rows = session_row env ask carol chance empty ∷ []; next_id = 2 }

abbrev admin : User
admin = record carol { role = codes "admin" }

abbrev later : Db
later = record world { users = admin ∷ []; tokens = table }

may_refresh :
    MayRefresh env ask chance carol empty scripted.tokens ask (at 200 (codes "B")) later admin
unfolding login refuse_throttled credentials authenticate_user issue_session login_limit
    refresh_limit check issue_refresh_token insert_row lower eq_text
may_refresh = record {
  same_tokens = refl;
  user_row = refl;
  unthrottled = refl;
  early = refl;
  fresh = refl;
}

login_then_refresh_example :
    (rep : Reply TokenResponse) × ((refresh env ask (some (codes "A")) (at 200 (codes "B")) later).0
      ≡ ok rep)
    × IsRefreshed env admin false (at 200 (codes "B")) rep
unfolding eq_text lower
login_then_refresh_example =
    login_then_refresh env ask (codes "c@x") (codes "pw") chance script world scripted runs b'A' []
      refl carol refl ask (at 200 (codes "B")) later admin may_refresh

-- The first token was rotated; its copy is presented.
abbrev replayed : Db
replayed = record world {
  tokens = record {
    rows = close_row 2 150 (session_row env ask carol chance empty) ∷ [];
    next_id = 3;
  };
}

presents : Presents env ask (some (codes "A")) (at 200 (codes "B")) replayed (codes "A")
unfolding refresh_limit check is_cookie_authenticated
presents = record { unthrottled = refl; genuine = refl; presented = refl }

refresh_reuse_detected_example :
    let done = refresh env ask (some (codes "A")) (at 200 (codes "B")) replayed in
    (done.0 ≡ http_error 401 (codes "Invalid or expired session. Please log in again."))
    × (count (live_in (codes "A")) done.1.tokens.rows ≡ 0)
    × ((f : Text)
        → eq_text (codes "A") f ≡ false
        → count (live_in f) done.1.tokens.rows ≡ count (live_in f) replayed.tokens.rows)
    × ((e : Event) × (done.1.log ≡ e ∷ [])
        × (e.action ≡ refresh_reuse)
        × (e.user_id ≡ some 3)
        × (e.severity ≡ codes "critical"))
unfolding fetch eq_text
refresh_reuse_detected_example =
    refresh_reuse_detected env ask (some (codes "A")) (at 200 (codes "B")) replayed b'A' []
      (close_row 2 150 (session_row env ask carol chance empty)) carol presents refl refl

-- A page of another origin has the browser send the cookies, and cannot read the CSRF token.
abbrev forged : Request
forged = record ask {
  refresh_cookie = some (codes "A");
  csrf_cookie = some (codes "t");
  csrf_header = none;
}

csrf_refused_example :
    Stopped later (refresh env forged none chance later)
    × Stopped later (logout env forged none 200 later)
unfolding is_cookie_authenticated
csrf_refused_example = csrf_refused env forged none chance 200 later refl refl

table-IsWf : IsWf table
unfolding issue_refresh_token insert_row eq_text
table-IsWf =
    one_live_token plain 7 (λ d. Unit)
      (next here (
        login_step 3 (client_of ask) chance.draws 100
          (issued plain 7 (session_row env ask carol chance empty) chance.draws) tt refl refl refl))

logout_final_example :
    (status_of (logout env ask (some (codes "A")) 200 later).0 ≡ 200)
    × ((r₂ : Request) (body₂ : Option Text) (ch₂ : Chance) (db₂ : Db)
        → Reach plain 7
            (Differs plain 7 (codes "A"))
            (logout env ask (some (codes "A")) 200 later).1.tokens
            db₂.tokens
        → Presents env r₂ body₂ ch₂ db₂ (codes "A")
        → status_of (refresh env r₂ body₂ ch₂ db₂).0 ≢ 200)
unfolding is_cookie_authenticated
logout_final_example =
    logout_final env ask (some (codes "A")) 200 later b'A' [] table-IsWf refl refl
