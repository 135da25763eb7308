-- ===== src/Tokens.antt =====
-- quansec/core/tokens.py, the refresh tokens, over the table of quansec/migrations/008_auth_tokens.sql.
-- A statement is one step on the table. `NOW()` and `datetime.now` are the argument `now`, in seconds;
-- the values of `secrets` and `uuid` and of the database's UUID default are the argument `Draws`;
-- SHA-256 is the parameter `sha256`. `none` is the exception of an INSERT that violates a unique
-- column.
pub mod Rows
pub mod Updates
pub mod Steps
pub mod Rotate
pub mod History
pub mod Theft
pub mod Detection
pub mod Revocation
mod Tests
use Rows.{Row, Table, User, matching, insert_row, update_rows, delete_rows}
use quansec_pqc_platform.Prelude.{
  ℕ, zero, suc, ◌+◌, ◌*◌, ◌-◌, Bool, true, false, ◌&&◌, Option, none, some, List, [], ◌∷◌, Text,
  codes, eq_text, strip, leb, ltb, ◌==◌, take, find, keep, count, length, is_none, if◌then◌else◌,
}

pub record Draws : Type 0 where
  pub raw : Text
  pub token_id : Text
  pub family : Text

-- What a session's request says of the client.
pub record Client : Type 0 where
  pub user_agent : Option Text
  pub ip_address : Option Text
  pub device_label : Option Text

-- _truncate
truncate_text : Text → ℕ → Option Text
truncate_text [] limit = none
truncate_text (c ∷ s) limit = some (take limit (c ∷ s))

unfoldable pub truncate : Option Text → ℕ → Option Text
unfolding truncate_text
truncate none limit = none
truncate (some value) limit = truncate_text (strip value) limit

abbrev pub day : ℕ
day = 86400

pub record Issued : Type 0 where
  pub raw_token : Text
  pub id : ℕ
  pub token_id : Text
  pub family_id : Text
  pub user_id : ℕ
  pub issued_at : ℕ
  pub expires_at : ℕ

-- family_id or str(uuid.uuid4()): an empty text is false too.
abbrev pub family_or : Option Text → Text → Text
family_or none fresh = fresh
family_or (some []) fresh = fresh
family_or (some (c ∷ f)) fresh = c ∷ f

module _ (sha256 : Text → Text) (ttl_days : ℕ) where
  abbrev pub new_row : Table → ℕ → Option Text → Option ℕ → Client → Draws → ℕ → Row
  new_row t user_id family_id parent_id c d now = record {
    id = t.next_id;
    token_id = d.token_id;
    family_id = family_or family_id d.family;
    user_id = user_id;
    token_hash = sha256 d.raw;
    parent_id = parent_id;
    replaced_by = none;
    issued_at = now;
    expires_at = now + ttl_days * day;
    last_used_at = none;
    revoked_at = none;
    revoked_reason = none;
    user_agent = truncate c.user_agent 400;
    ip_address = c.ip_address;
    device_label = truncate c.device_label 100;
  }

  abbrev pub issued : Row → Draws → Issued
  issued r d = record {
    raw_token = d.raw;
    id = r.id;
    token_id = r.token_id;
    family_id = r.family_id;
    user_id = r.user_id;
    issued_at = r.issued_at;
    expires_at = r.expires_at;
  }

  unfoldable pub issue_refresh_token :
      Table → ℕ → Option Text → Option ℕ → Client → Draws → ℕ → Option (Issued × Table)
  issue_refresh_token t user_id family_id parent_id c d now =
      let r = new_row t user_id family_id parent_id c d now in
      elim (insert_row t r) [ none ↦ none | some t' ↦ some (issued r d, t') ]

-- The fields that every known outcome carries.
pub record Context : Type 0 where
  pub token_id : Text
  pub family_id : Text
  pub user_id : ℕ
  pub email : Text
  pub role : Text
  pub portal : Option Text

-- `outcome` with what goes with it.
pub data Rotation : Type 0 where
  unknown_token : Rotation
  reuse_detected : Context → ℕ → Rotation
  revoked : Context → Option Text → Rotation
  expired : Context → Rotation
  rotated : Context → Text → Issued → Rotation

abbrev pub context : Row → User → Context
context r u = record {
  token_id = r.token_id;
  family_id = r.family_id;
  user_id = r.user_id;
  email = u.email;
  role = u.role;
  portal = u.portal;
}

abbrev pub revoke_row : Text → ℕ → Row → Row
revoke_row reason now r = record r { revoked_at = some now; revoked_reason = some reason }

abbrev pub live_in : Text → Row → Bool
live_in family r = eq_text r.family_id family && is_none r.revoked_at

-- Returns how many tokens were live.
unfoldable pub revoke_family : Table → Text → Text → ℕ → ℕ × Table
revoke_family t family reason now =
    (matching (live_in family) t, update_rows (live_in family) (revoke_row reason now) t)

abbrev pub live_of : ℕ → Row → Bool
live_of user_id r = r.user_id == user_id && is_none r.revoked_at

unfoldable pub revoke_all_for_user : Table → ℕ → Text → ℕ → ℕ × Table
revoke_all_for_user t user_id reason now =
    (matching (live_of user_id) t, update_rows (live_of user_id) (revoke_row reason now) t)

-- The JOIN of a token's row with its user's.
abbrev pub join_user : List User → Row → Option (Row × User)
join_user users r = elim (find (λ u. u.id == r.user_id) users) [
  | none ↦ none
  | some u ↦ some (r, u)
]

unfoldable pub fetch : List User → Table → Text → Option (Row × User)
fetch users t h = elim (find (λ r. eq_text r.token_hash h) t.rows) [
  | none ↦ none
  | some r ↦ join_user users r
]

-- What the row that was read decides, before any write.
pub data Decision : Type 0 where
  unknown : Decision
  reuse : Row → Context → Decision
  dead : Context → Option Text → Decision
  late : Context → Decision
  accept : Row → Context → Decision

unfoldable pub decide : Option (Row × User) → ℕ → Decision
decide none now = unknown
decide (some (r, u)) now =
    if is_none r.replaced_by
    then (if is_none r.revoked_at
        then (if leb r.expires_at now then late (context r u) else accept r (context r u))
        else dead (context r u) r.revoked_reason)
    else reuse r (context r u)

abbrev pub close_row : ℕ → ℕ → Row → Row
close_row successor now r = record r {
  replaced_by = some successor;
  revoked_at = some now;
  revoked_reason = some (codes "rotated");
  last_used_at = some now;
}

module _ (sha256 : Text → Text) (ttl_days : ℕ) where
  -- The writes that follow the decision: the successor first, then the old row.
  unfoldable pub carry_out : Table → Decision → Client → Draws → ℕ → Option (Rotation × Table)
  unfolding issue_refresh_token revoke_family
  carry_out t unknown c d now = some (unknown_token, t)
  carry_out t (reuse r x) c d now =
      let (n, t') = revoke_family t r.family_id (codes "reuse_detected") now in
      some (reuse_detected x n, t')
  carry_out t (dead x reason) c d now = some (revoked x reason, t)
  carry_out t (late x) c d now = some (expired x, t)
  carry_out t (accept r x) c d now =
      elim (issue_refresh_token sha256 ttl_days t r.user_id (some r.family_id) (some r.id) c d
        now) [
          | none ↦ none
          | some (s, t') ↦
              some (rotated x r.token_id s, update_rows (λ q. q.id == r.id) (close_row s.id now) t')
        ]

  unfoldable pub rotate_refresh_token :
      List User → Table → Text → Client → Draws → ℕ → Option (Rotation × Table)
  unfolding fetch decide carry_out
  rotate_refresh_token users t raw c d now =
      carry_out t (decide (fetch users t (sha256 raw)) now) c d now

module _ (sha256 : Text → Text) where
  abbrev pub live_hash : Text → Row → Bool
  live_hash h r = eq_text r.token_hash h && is_none r.revoked_at

  abbrev pub log_out_row : Text → ℕ → Row → Row
  log_out_row reason now r = record r {
    revoked_at = some now;
    revoked_reason = some reason;
    last_used_at = some now;
  }

  -- The row is returned as it was before the write.
  unfoldable pub revoke_token : Table → Text → Text → ℕ → Option Row × Table
  revoke_token t raw reason now =
      let p = live_hash (sha256 raw) in (find p t.rows, update_rows p (log_out_row reason now) t)

-- DELETE, with the references to a deleted row set to NULL.
unfoldable pub purge_expired : Table → ℕ → ℕ → ℕ × Table
purge_expired t older_than_days now =
    let p = λ (r : Row). ltb (r.expires_at + older_than_days * day) now in
    (matching p t, delete_rows p t)

-- The rows of `list_sessions`; their order is not modelled.
unfoldable pub live_sessions : Table → ℕ → ℕ → List Row
live_sessions t user_id now = keep (λ r. live_of user_id r && ltb now r.expires_at) t.rows
