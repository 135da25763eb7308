-- ===== src/ApiKeys/Revocation.antt =====
-- quansec/protocols/auth_api_keys.py, `revoke_api_key`, over a table whose hashes are unique.
use quansec_pqc_platform.Prelude.{
  ℕ, ◌≡◌, refl, ap, subst, ◌∙◌, Bool, true, false, ◌&&◌, Option, none, some, List, [], ◌∷◌, Text,
  codes, eq_text, eq_text_iff, any, ◌==◌, if◌then◌else◌, arith, Bool-cases, ◌⊎◌, inl, inr,
}
use quansec_pqc_platform.Http.{KeyRow, Db, Request, ok, http_error}
use quansec_pqc_platform.Auth.{Principal, find_key, principal_from_api_key}
use quansec_pqc_platform.ApiKeys.{
  Printing, ApiKeyCreate, Created, create_api_key, revoke_api_key, revoke_keys, revocable,
}
use quansec_pqc_platform.ApiKeys.Creation.{create_api_key-IsCreated}

-- UNIQUE (key_hash)
abbrev pub UniqueHashes : List KeyRow → Type 0
UniqueHashes [] = Unit
UniqueHashes (k ∷ ks) = (any (λ q. eq_text q.key_hash k.key_hash) ks ≡ false) × UniqueHashes ks

abbrev pub owned_as : ℕ → ℕ → KeyRow → Bool
owned_as key_id user_id k = k.id == key_id && k.user_id == user_id

-- What is left of a key after the call.
abbrev pub unless_owned : ℕ → ℕ → Option KeyRow → Option KeyRow
unless_owned key_id user_id none = none
unless_owned key_id user_id (some k) = if owned_as key_id user_id k then none else some k

find_key-revoke_absent :
    (key_id user_id now : ℕ) (h : Text) (ks : List KeyRow)
    → any (λ q. eq_text q.key_hash h) ks ≡ false
    → find_key (revoke_keys key_id user_id now ks) h ≡ none
find_key-revoke_absent key_id user_id now h [] e = refl
find_key-revoke_absent key_id user_id now h (k ∷ ks) e =
    ground (arith, find_key-revoke_absent key_id user_id now h ks)

any_same_hash :
    (h g : Text) (ks : List KeyRow)
    → h ≡ g
    → any (λ q. eq_text q.key_hash h) ks ≡ false
    → any (λ q. eq_text q.key_hash g) ks ≡ false
any_same_hash h g ks e f = subst (λ (t : Text). any (λ q. eq_text q.key_hash t) ks ≡ false) e f

-- The look-up after a revocation, for every hash.
find_key-revoke :
    (key_id user_id now : ℕ) (h : Text) (ks : List KeyRow)
    → UniqueHashes ks
    → find_key (revoke_keys key_id user_id now ks) h ≡ unless_owned key_id user_id (find_key ks h)
find_key-revoke key_id user_id now h [] u = refl
find_key-revoke key_id user_id now h (k ∷ ks) u = elim (Bool-cases (eq_text k.key_hash h)) [
  | inl same ↦
      let gone =
        find_key-revoke_absent key_id user_id now h ks
          (any_same_hash k.key_hash h ks ((eq_text_iff k.key_hash h).0 same) u.0) in
      ground (arith, same, gone, find_key-revoke key_id user_id now h ks)
  | inr other ↦ ground (arith, other, find_key-revoke key_id user_id now h ks)
]

-- No key of this hash, so no principal.
no_key_refused :
    (sha256 : Text → Text) (r : Request) (token : Text) (now : ℕ) (db : Db)
    → find_key db.api_keys (sha256 token) ≡ none
    → (principal_from_api_key sha256 r token now db).0
      ≡ http_error 401 (codes "Invalid or revoked API key")
unfolding principal_from_api_key
no_key_refused sha256 r token now db e = rw (e, principal_from_api_key) refl

-- What a successful call means for the key `k`, found by the token before it.
abbrev pub Outcome : (Text → Text) → ℕ → ℕ → Text → KeyRow → Db → Type 0
Outcome sha256 key_id user_id token k db =
    (owned_as key_id user_id k ≡ true
      → (r : Request) (later : ℕ)
      → (principal_from_api_key sha256 r token later db).0
        ≡ http_error 401 (codes "Invalid or revoked API key"))
    × (owned_as key_id user_id k ≡ false → find_key db.api_keys (sha256 token) ≡ some k)

revoked-Outcome :
    (sha256 : Text → Text) (key_id user_id now : ℕ) (token : Text) (k : KeyRow) (db db' : Db)
    → UniqueHashes db.api_keys
    → db'.api_keys ≡ revoke_keys key_id user_id now db.api_keys
    → find_key db.api_keys (sha256 token) ≡ some k
    → Outcome sha256 key_id user_id token k db'
revoked-Outcome sha256 key_id user_id now token k db db' u e found =
    let after : find_key db'.api_keys (sha256 token) ≡ unless_owned key_id user_id (some k) =
      ap (λ (ks : List KeyRow). find_key ks (sha256 token)) e
      ∙ find_key-revoke key_id user_id now (sha256 token) db.api_keys u
      ∙ ap (unless_owned key_id user_id) found in
    (
      λ mine r later. no_key_refused sha256 r token later db' (ground (arith, after, mine)),
      λ others. ground (arith, after, others),
    )

-- `revoke_api_key`, over unique hashes. Without a live key of that id and owner: 404, and nothing
-- changes. Otherwise it answers, users and refresh tokens are untouched, the caller's key of that id
-- is refused with 401 from then on, and every other key is found as before.
pub revoke_api_key_exact :
    (sha256 : Text → Text) (key_id : ℕ) (user : Principal) (now : ℕ) (db : Db)
    → UniqueHashes db.api_keys
    → let done = revoke_api_key key_id user now db in
      ((any (revocable key_id user.id) db.api_keys ≡ false)
        × (done ≡ (http_error 404 (codes "Key not found or already revoked"), db)))
      ⊎ ((done.0 ≡ ok tt)
          × (done.1.users ≡ db.users)
          × (done.1.tokens ≡ db.tokens)
          × ((token : Text) (k : KeyRow)
              → find_key db.api_keys (sha256 token) ≡ some k
              → Outcome sha256 key_id user.id token k done.1))
unfolding revoke_api_key
revoke_api_key_exact sha256 key_id user now db u =
    elim (Bool-cases (any (revocable key_id user.id) db.api_keys)) [
      | inl some_key ↦ inr (
        rw (some_key, revoke_api_key) refl,
        rw (some_key, revoke_api_key) refl,
        rw (some_key, revoke_api_key) refl,
        λ token k found.
            revoked-Outcome sha256 key_id user.id now token k db
              (revoke_api_key key_id user now db).1 u (rw (some_key, revoke_api_key) refl) found,
      )
      | inr no_key ↦ inl (no_key, rw (no_key, revoke_api_key) refl)
    ]

-- Creating a key keeps the hashes unique.
pub create_api_key-UniqueHashes :
    (f : Printing) (sha256 : Text → Text) (payload : ApiKeyCreate) (user : Principal) (raw : Text)
    (now : ℕ) (c : Created) (db db' : Db)
    → create_api_key f sha256 payload user raw now db ≡ (ok c, db')
    → UniqueHashes db.api_keys
    → UniqueHashes db'.api_keys
create_api_key-UniqueHashes f sha256 payload user raw now c db db' e u =
    let i = create_api_key-IsCreated f sha256 payload user raw now c db db' e in
    rw i.stored (i.fresh, u)
