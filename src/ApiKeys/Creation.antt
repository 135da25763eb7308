-- ===== src/ApiKeys/Creation.antt =====
-- quansec/protocols/auth_api_keys.py, `create_api_key`: what a created key carries, and that it is
-- honoured.
use quansec_pqc_platform.Prelude.{
  ℕ, ◌+◌, ◌*◌, ◌≡◌, refl, sym, ap, ap₂, subst, ◌∙◌, true, false, Option, none, some, List, [], ◌∷◌,
  Text, eq_text, eq_text_refl, any, find, ◌==◌, if◌then◌else◌, arith, Bool-cases, inl, inr,
}
use quansec_pqc_platform.Scopes.{ScopeSet, system_admin, expand}
use quansec_pqc_platform.Scopes.Roles.{is_read}
use quansec_pqc_platform.Tokens.Rows.{User}
use quansec_pqc_platform.Http.{KeyRow, Db, Request, ok, refuse_if}
use quansec_pqc_platform.Http.Bind.{bind-ok}
use quansec_pqc_platform.Auth.{
  Principal, lacking, has_expired, principal_from_api_key, find_key, owner, or_no_scopes,
}
use quansec_pqc_platform.Auth.Principals.{IsNarrowed}
use quansec_pqc_platform.Auth.Guards.{usable, principal_from_api_key_exact}
use quansec_pqc_platform.ApiKeys.{
  Printing, ApiKeyCreate, Created, create_api_key, store_key, insert_key, new_key, created,
  granted_scopes, expiry, refuse_over_reach, is_empty, days_or_default, violates, admit,
}

-- What the caller asked for; an empty list asks for reading.
abbrev pub wanted : List Text → ScopeSet
wanted [] = is_read
wanted (t ∷ ts) = expand (t ∷ ts)

refuse_over_reach-ok :
    (f : Printing) (id : ℕ) (requested over : List Text) (own : ScopeSet) (u : Unit {0})
    (db db' : Db)
    → refuse_over_reach f id requested own over db ≡ (ok u, db')
    → (over ≡ []) × (db ≡ db')
unfolding refuse_over_reach
refuse_over_reach-ok f id requested [] own u db db' e = (refl, ground arith)
refuse_over_reach-ok f id requested (t ∷ ts) own u db db' e = absurd (ground arith)

-- The lifetime that a request asks for, and who may ask for it.
abbrev pub lifetime : ApiKeyCreate → ℕ → Option ℕ
lifetime payload now =
    if payload.never_expires
    then none
    else some (now + days_or_default payload.expires_in_days * 86400)

expiry-ok :
    (payload : ApiKeyCreate) (own : ScopeSet) (now : ℕ) (x : Option ℕ) (db db' : Db)
    → expiry payload own now db ≡ (ok x, db')
    → (x ≡ lifetime payload now)
      × (db ≡ db')
      × (payload.never_expires ≡ true → own system_admin ≡ true)
unfolding expiry
expiry-ok payload own now x db db' e = (ground arith, ground arith, λ never. ground arith)

-- A call that answers has passed every guard, and has added one row.
pub record IsCreated (f : Printing) (sha256 : Text → Text) (payload : ApiKeyCreate)
    (user : Principal) (raw : Text) (now : ℕ) (db db' : Db) (c : Created) : Type 0 where
  pub row : KeyRow
  pub row_lem :
      row
      ≡ new_key sha256 payload db.next_key user.id raw
          (granted_scopes payload.scopes (expand user.scopes))
          (lifetime payload now)
          now
  pub reply : c ≡ created row raw (granted_scopes payload.scopes (expand user.scopes))
  pub held : lacking payload.scopes (expand user.scopes) ≡ []
  pub some_scope : is_empty c.scopes ≡ false
  pub privileged : payload.never_expires ≡ true → expand user.scopes system_admin ≡ true
  pub fresh : any (λ q. eq_text q.key_hash row.key_hash) db.api_keys ≡ false
  pub stored : db'.api_keys ≡ row ∷ db.api_keys
  pub same_users : db'.users ≡ db.users

insert_key-ok :
    (k : KeyRow) (u : Unit {0}) (db db' : Db)
    → insert_key k db ≡ (ok u, db')
    → (violates db.api_keys k ≡ false) × (db'.api_keys ≡ k ∷ db.api_keys) × (db'.users ≡ db.users)
unfolding insert_key
insert_key-ok k u db db' e = elim (Bool-cases (violates db.api_keys k)) [
  | inl bad ↦ absurd (ground (arith, e, bad))
  | inr good ↦ (good, ground (arith, e, good), ground (arith, e, good))
]

store_key-ok :
    (f : Printing) (sha256 : Text → Text) (k : KeyRow) (raw : Text) (ts : List Text) (c : Created)
    (db db' : Db)
    → store_key f sha256 k raw ts db ≡ (ok c, db')
    → (c ≡ created k raw ts)
      × (violates db.api_keys k ≡ false)
      × (db'.api_keys ≡ k ∷ db.api_keys)
      × (db'.users ≡ db.users)
unfolding store_key
store_key-ok f sha256 k raw ts c db db' e =
    let (u, db₁, inserted, rest) = bind-ok (insert_key k) _ c db db' e in
    let (good, stored, users) = insert_key-ok k u db db₁ inserted in
    (ground arith, good, ground arith, ground arith)

admit-ok :
    (f : Printing) (payload : ApiKeyCreate) (id : ℕ) (own : ScopeSet) (over gs : List Text)
    (now : ℕ) (x : Option ℕ) (db db' : Db)
    → admit f payload id own over gs now db ≡ (ok x, db')
    → (over ≡ []) × (is_empty gs ≡ false) × (expiry payload own now db ≡ (ok x, db'))
unfolding admit refuse_if refuse_over_reach
admit-ok f payload id own [] gs now x db db' e = (refl, ground arith, ground arith)
admit-ok f payload id own (t ∷ ts) gs now x db db' e = absurd (ground arith)

pub create_api_key-IsCreated :
    (f : Printing) (sha256 : Text → Text) (payload : ApiKeyCreate) (user : Principal) (raw : Text)
    (now : ℕ) (c : Created) (db db' : Db)
    → create_api_key f sha256 payload user raw now db ≡ (ok c, db')
    → IsCreated f sha256 payload user raw now db db' c
unfolding create_api_key
create_api_key-IsCreated f sha256 payload user raw now c db db' e =
    let own = expand user.scopes in
    let over = lacking payload.scopes own in
    let gs = granted_scopes payload.scopes own in
    let (x, db₁, e₁, r₁) = bind-ok (admit f payload user.id own over gs now) _ c db db' e in
    let (held, some_scope, e₂) = admit-ok f payload user.id own over gs now x db db₁ e₁ in
    let (time, same, privileged) = expiry-ok payload own now x db db₁ e₂ in
    let k = new_key sha256 payload db₁.next_key user.id raw gs x now in
    let (reply, good, stored, users) = store_key-ok f sha256 k raw gs c db₁ db' r₁ in
    record {
      row = k;
      row_lem =
          ap₂ (λ (d : Db) (t : Option ℕ). new_key sha256 payload d.next_key user.id raw gs t now)
            (sym same) time;
      reply = reply;
      held = held;
      some_scope = ap (λ (d : Created). is_empty d.scopes) reply ∙ some_scope;
      privileged = privileged;
      fresh = ground (arith, good, same);
      stored = ground (arith, stored, same);
      same_users = ground (arith, users, same);
    }

find_key-first :
    (k : KeyRow) (keys : List KeyRow) (h : Text)
    → k.key_hash ≡ h
    → k.revoked_at ≡ none
    → find_key (k ∷ keys) h ≡ some k
find_key-first k keys h e live = ground (arith, eq_text_refl h)

-- A key row and its owner, found and not expired, give a principal.
abbrev FoundNarrows : Principal → Option (KeyRow × User) → Type 0
FoundNarrows p none = Unit
FoundNarrows p (some (k, u)) = IsNarrowed (or_no_scopes k.scopes) u p

usable_works :
    (sha256 : Text → Text) (r : Request) (token : Text) (now : ℕ) (db : Db) (k : KeyRow) (u : User)
    → usable (owner db.users (find_key db.api_keys (sha256 token))) now ≡ some (k, u)
    → (p : Principal) × ((principal_from_api_key sha256 r token now db).0 ≡ ok p)
      × IsNarrowed (or_no_scopes k.scopes) u p
usable_works sha256 r token now db k u e =
    elim (principal_from_api_key_exact sha256 r token now db) [
      | inl (refused, _, _) ↦ absurd (ground (arith, e, refused))
      | inr (k', u', p, found, answer, narrow) ↦
          (p, answer, subst (FoundNarrows p) (sym found ∙ e) narrow)
    ]

usable-owner :
    (users : List User) (k : KeyRow) (u : User) (now : ℕ)
    → find (λ v. v.id == k.user_id) users ≡ some u
    → has_expired k.expires_at now ≡ false
    → usable (owner users (some k)) now ≡ some (k, u)
usable-owner users k u now e early = ground (arith, e, early)

-- A created key is honoured at once and until it expires: the reply's key gives a principal of the
-- user who created it, narrowed from the key's scopes by that user's row.
pub created_key_works :
    (f : Printing) (sha256 : Text → Text) (payload : ApiKeyCreate) (user : Principal) (raw : Text)
    (now : ℕ) (c : Created) (db db' : Db)
    → create_api_key f sha256 payload user raw now db ≡ (ok c, db')
    → (u : User) → find (λ v. v.id == user.id) db.users ≡ some u
    → (r : Request) (later : ℕ) → has_expired c.expires_at later ≡ false
    → (p : Principal) × ((principal_from_api_key sha256 r c.api_key later db').0 ≡ ok p)
      × IsNarrowed c.scopes u p
created_key_works f sha256 payload user raw now c db db' e u row_of_user r later early =
    let i = create_api_key-IsCreated f sha256 payload user raw now c db db' e in
    let k = i.row in
    let gs = granted_scopes payload.scopes (expand user.scopes) in
    let hash : k.key_hash ≡ sha256 c.api_key =
      ap (λ (q : KeyRow). q.key_hash) i.row_lem
      ∙ ap (λ (d : Created). sha256 d.api_key) (sym i.reply) in
    let found : find_key db'.api_keys (sha256 c.api_key) ≡ some k = rw i.stored (
      find_key-first k db.api_keys (sha256 c.api_key) hash
        (ap (λ (q : KeyRow). q.revoked_at) i.row_lem)) in
    let theirs : find (λ v. v.id == k.user_id) db'.users ≡ some u =
      ap₂ (λ (users : List User) (n : ℕ). find (λ v. v.id == n) users) i.same_users
        (ap (λ (q : KeyRow). q.user_id) i.row_lem)
      ∙ row_of_user in
    let in_time : has_expired k.expires_at later ≡ false =
      ap (λ (d : Created). has_expired d.expires_at later) (sym i.reply) ∙ early in
    let scopes : or_no_scopes k.scopes ≡ c.scopes =
      ap (λ (q : KeyRow). or_no_scopes q.scopes) i.row_lem
      ∙ ap (λ (d : Created). d.scopes) (sym i.reply) in
    let (p, answer, narrow) = usable_works sha256 r c.api_key later db' k u (
      ap (λ (o : Option KeyRow). usable (owner db'.users o) later) found
      ∙ usable-owner db'.users k u later theirs in_time) in
    (p, answer, subst (λ (ts : List Text). IsNarrowed ts u p) scopes narrow)
