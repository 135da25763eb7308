-- ===== src/Tokens/Revocation.antt =====
-- quansec/core/tokens.py: `revoke_all_for_user` and `list_sessions`.
use quansec_pqc_platform.Prelude.{
  ℕ, ◌≡◌, List, [], ◌∷◌, Text, keep, arith, ◌==◌, ◌&&◌, if◌then◌else◌, ltb,
}
use quansec_pqc_platform.Tokens.Rows.{Row, Table, update_list, update_rows}
use quansec_pqc_platform.Tokens.{revoke_all_for_user, live_sessions, live_of, revoke_row}

revoked_sessions :
    (user other now later : ℕ) (reason : Text) (rs : List Row)
    → keep
        (λ r. live_of other r && ltb later r.expires_at)
        (update_list (live_of user) (revoke_row reason now) rs)
      ≡ (if user == other then [] else keep (λ r. live_of other r && ltb later r.expires_at) rs)
revoked_sessions user other now later reason [] = ground arith
revoked_sessions user other now later reason (r ∷ rs) =
    ground (arith, revoked_sessions user other now later reason rs)

-- After revoke-all the user lists no session at any time, and the sessions of other users are those
-- they had.
pub revoke_all_sessions :
    (t : Table) (user other now later : ℕ) (reason : Text)
    → live_sessions (revoke_all_for_user t user reason now).1 other later
      ≡ (if user == other then [] else live_sessions t other later)
unfolding live_sessions revoke_all_for_user update_rows
revoke_all_sessions t user other now later reason =
    revoked_sessions user other now later reason t.rows
