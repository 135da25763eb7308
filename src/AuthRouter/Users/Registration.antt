-- ===== src/AuthRouter/Users/Registration.antt =====
-- quansec/protocols/auth_router.py, `register`: who can be registered, and that they can log in.
use quansec_pqc_platform.Prelude.{
  ℕ, suc, ◌<◌, ◌≡◌, refl, sym, ap, ◌∙◌, Bool, true, false, some, List, [], ◌∷◌, Text, eq_text,
  eq_text_refl, lower, arith, any, All, Bool-cases, inl, inr,
}
use quansec_pqc_platform.Tokens.Rows.{User, clashes}
use quansec_pqc_platform.RateLimit.{login_limit}
use quansec_pqc_platform.Http.{Db, Request, ok, status_of}
use quansec_pqc_platform.Http.Bind.{bind-ok, returned}
use quansec_pqc_platform.Auth.{Passwords, Principal, find_email}
use quansec_pqc_platform.AuthRouter.Session.{Env, Chance}
use quansec_pqc_platform.AuthRouter.Login.{login}
use quansec_pqc_platform.AuthRouter.Login.Granted.{session_row}
use quansec_pqc_platform.AuthRouter.Login.Ends.{identified}
use quansec_pqc_platform.AuthRouter.Login.Refused.{login_exact}
use quansec_pqc_platform.AuthRouter.Users.{
  RegisterRequest, UserOut, register, check_payload, insert_user, new_user, is_role, is_user_portal,
  exists,
}

-- Ids are positive and below the sequence's next value, and no two emails are the same but for case.
abbrev pub Apart : Text → List User → Type 0
Apart email us = All (λ (v : User). eq_text (lower v.email) (lower email) ≡ false) us

abbrev pub UniqueEmails : List User → Type 0
UniqueEmails [] = Unit
UniqueEmails (u ∷ us) = Apart u.email us × UniqueEmails us

pub record AreSound (us : List User) (next : ℕ) : Type 0 where
  pub emails : UniqueEmails us
  pub ids : All (λ (u : User). (0 < u.id) × (u.id < next)) us
  pub starts : 0 < next

check_payload-ok :
    (payload : RegisterRequest) (x : Unit {0}) (db db' : Db)
    → check_payload payload db ≡ (ok x, db')
    → (is_role payload.role ≡ true)
      × (is_user_portal payload.portal ≡ true)
      × (exists (find_email db.users payload.email) ≡ false)
      × (db ≡ db')
unfolding check_payload
check_payload-ok payload x db db' e = elim (Bool-cases (is_role payload.role)) [
  | inr no_role ↦ absurd (ground (arith, e, no_role))
  | inl role ↦ elim (Bool-cases (is_user_portal payload.portal)) [
    | inr no_portal ↦ absurd (ground (arith, e, role, no_portal))
    | inl portal ↦ elim (Bool-cases (exists (find_email db.users payload.email))) [
      | inl taken ↦ absurd (ground (arith, e, role, portal, taken))
      | inr free ↦ (role, portal, free, ground (arith, e, role, portal, free))
    ]
  ]
]

insert_user-ok :
    (u : User) (x : Unit {0}) (db db' : Db)
    → insert_user u db ≡ (ok x, db')
    → (db'.users ≡ u ∷ db.users) × (db'.next_user ≡ suc db.next_user)
unfolding insert_user
insert_user-ok u x db db' e = elim (Bool-cases (any (λ v. eq_text v.email u.email) db.users)) [
  | inl taken ↦ absurd (ground (arith, e, taken))
  | inr free ↦ (ground (arith, e, free), ground (arith, e, free))
]

module _ (passwords : Passwords) (payload : RegisterRequest) (admin : Principal) (salt : Text)
    (now : ℕ) (o : UserOut) (db db' : Db) where
  -- A call that answers has passed every check, and has added one row.
  pub record IsRegistered : Type 0 where
    pub role : is_role payload.role ≡ true
    pub portal : is_user_portal payload.portal ≡ true
    pub free : exists (find_email db.users payload.email) ≡ false
    pub added : db'.users ≡ new_user passwords payload salt db.next_user now ∷ db.users
    pub next : db'.next_user ≡ suc db.next_user

  register-IsRegistered : register passwords payload admin salt now db ≡ (ok o, db') → IsRegistered
  unfolding register
  register-IsRegistered e =
      let (x, db₁, e₁, r₁) = bind-ok (check_payload payload) _ o db db' e in
      let (role, portal, free, same) = check_payload-ok payload x db db₁ e₁ in
      let u₁ = new_user passwords payload salt db₁.next_user now in
      let (y, db₂, e₂, r₂) = bind-ok (insert_user u₁) _ o db₁ db' r₁ in
      let (users, next) = insert_user-ok u₁ y db₁ db₂ e₂ in
      let last = (returned _ o _ db' r₂).1 in
      record {
        role = role;
        portal = portal;
        free = free;
        added =
            ap (λ (d : Db). d.users) (sym last)
            ∙ users
            ∙ ap (λ (d : Db). new_user passwords payload salt d.next_user now ∷ d.users) (sym same);
        next =
            ap (λ (d : Db). d.next_user) (sym last)
            ∙ next
            ∙ ap (λ (d : Db). suc d.next_user) (sym same);
      }

free-Apart :
    (email : Text) (next : ℕ) (us : List User)
    → All (λ (u : User). (0 < u.id) × (u.id < next)) us
    → exists (find_email us email) ≡ false
    → Apart email us
free-Apart email next [] a e = tt
free-Apart email next (u ∷ us) a e = elim (Bool-cases (eq_text (lower u.email) (lower email))) [
  | inl same ↦ absurd (ground (arith, e, same, a.0))
  | inr other ↦ (other, free-Apart email next us a.1 (ground (arith, e, other)))
]

ids-grow :
    (next : ℕ) (us : List User)
    → All (λ (u : User). (0 < u.id) × (u.id < next)) us
    → All (λ (u : User). (0 < u.id) × (u.id < suc next)) us
ids-grow next [] a = tt
ids-grow next (u ∷ us) a = ((a.0.0, omega (arith, a.0.1)), ids-grow next us a.1)

-- When `register` answers, the role is admin or operator, the portal one of the four, and exactly one row
-- was added, with the sequence's next id; the emails stay distinct but for case, the ids positive and
-- below the sequence's next value.
pub register-AreSound :
    (passwords : Passwords) (payload : RegisterRequest) (admin : Principal) (salt : Text) (now : ℕ)
    (o : UserOut) (db db' : Db)
    → register passwords payload admin salt now db ≡ (ok o, db')
    → AreSound db.users db.next_user
    → IsRegistered passwords payload admin salt now o db db' × AreSound db'.users db'.next_user
register-AreSound passwords payload admin salt now o db db' e s =
    let i = register-IsRegistered passwords payload admin salt now o db db' e in
    (
      i,
      rw (i.added, i.next)
          (record {
            emails = (free-Apart payload.email db.next_user db.users s.ids i.free, s.emails);
            ids = ((s.starts, omega arith), ids-grow db.next_user db.users s.ids);
            starts = omega arith;
          }),
    )

module _ (env : Env) where
  identified-first :
      (u : User) (us : List User) (email password : Text)
      → u.email ≡ email
      → env.passwords.verify password u.password_hash ≡ some true
      → identified env (u ∷ us) email password ≡ some u
  identified-first u us email password e right = ground (
    arith,
    right,
    ap (λ (t : Text). eq_text (lower t) (lower email)) e,
    eq_text_refl (lower email),
  )

  -- A user whom `register` made can log in at once with the registered email and password: if the password
  -- library verifies what it hashed, the login limit is not passed, and the new session's row clashes with
  -- none, `login` answers 200.
  pub register_then_login :
      (payload : RegisterRequest) (admin : Principal) (salt : Text) (now : ℕ) (o : UserOut)
      (db db' : Db)
      → register env.passwords payload admin salt now db ≡ (ok o, db')
      → env.passwords.verify payload.password (env.passwords.hash_password salt payload.password)
        ≡ some true
      → (r : Request) (use_cookie : Bool) (ch : Chance)
      → (login_limit env.sha256 env.limits ch.limit_outage db'.limiter ch.now r.ip
          payload.email).0.allowed
        ≡ true
      → any
          (clashes (
            session_row env r (new_user env.passwords payload salt db.next_user now) ch db'.tokens))
          db'.tokens.rows
        ≡ false
      → status_of (login env r payload.email payload.password use_cookie ch db').0 ≡ 200
  register_then_login payload admin salt now o db db' e right r use_cookie ch open_ free =
      let i = register-IsRegistered env.passwords payload admin salt now o db db' e in
      let u = new_user env.passwords payload salt db.next_user now in
      let known : identified env db'.users payload.email payload.password ≡ some u =
        ap (λ (us : List User). identified env us payload.email payload.password) i.added
        ∙ identified-first u db.users payload.email payload.password refl right in
      (login_exact env r payload.email payload.password use_cookie ch db').reached
      ∙ rw (open_, known, free) refl
