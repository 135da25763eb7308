-- ===== src/Tokens/Detection.antt =====
-- quansec/core/tokens.py, `rotate_refresh_token` called again: after a rotation, and by two requests
-- that overlap.
use quansec_pqc_platform.Prelude.{
  ℕ, ◌≤◌, ◌≡◌, refl, true, false, some, List, Text, eq_text, eq_text_refl, any, find, arith, ◌==◌,
  codes, count,
}
use quansec_pqc_platform.Tokens.Rows.{
  User, Row, Table, update_list, update_rows, clashes, insert_row,
}
use quansec_pqc_platform.Tokens.{
  Draws, Client, Context, context, Rotation, reuse_detected, revoked, accept, rotate_refresh_token,
  revoke_family, live_in, close_row, carry_out, decide, fetch,
}
use quansec_pqc_platform.Tokens.Updates.{find-update, count-close, find-Below}
use quansec_pqc_platform.Tokens.Steps.{IsWf}
use quansec_pqc_platform.Tokens.Rotate.{
  Accepted, decide-accept, carry_out-Accepted, rotated_table, successor, successor-family,
}
use quansec_pqc_platform.Tokens.History.{is_rotated}
use quansec_pqc_platform.Tokens.Theft.{rotate-Rotated, successor_differs}

fetch_user :
    (users : List User) (t : Table) (h : Text) (r : Row) (u : User)
    → fetch users t h ≡ some (r, u)
    → find (λ v. v.id == r.user_id) users ≡ some u
unfolding fetch
fetch_user users t h r u e = ground arith

module _ (sha256 : Text → Text) (ttl_days : ℕ) where
  -- The family's live tokens after a rotation: the successor alone.
  rotated_live :
      (t : Table) (h : Text) (now : ℕ) (r : Row) (c : Client) (d : Draws)
      → IsWf t
      → Accepted t h now r
      → count
          (live_in r.family_id)
          (update_list (λ q. q.id == r.id) (close_row t.next_id now) t.rows)
        ≡ 0
  rotated_live t h now r c d w a = ground (
    arith,
    w.single r.family_id,
    eq_text_refl r.family_id,
    count-close _ t.next_id now t.next_id r.family_id t.rows {r = r} w.ordered a.found a.live,
  )

  module _ (users : List User) (t : Table) (raw : Text) (c : Client) (d : Draws) (now : ℕ) where
    fetch_closed :
        (r : Row) (u : User)
        → IsWf t
        → Accepted t (sha256 raw) now r
        → fetch users t (sha256 raw) ≡ some (r, u)
        → any (clashes (successor sha256 ttl_days t (sha256 raw) now r c d)) t.rows ≡ false
        → fetch users (rotated_table sha256 ttl_days t (sha256 raw) now r c d) (sha256 raw)
          ≡ some (close_row t.next_id now r, u)
    unfolding fetch
    fetch_closed r u w a e fresh = ground (
      arith,
      successor_differs sha256 ttl_days t (sha256 raw) now r c d a fresh,
      fetch_user users t (sha256 raw) r u e,
      find-update (λ q. eq_text q.token_hash (sha256 raw)) (close_row t.next_id now) t.next_id
          t.rows {r = r} (λ x. refl) w.ordered a.found,
    )

    replay_reused :
        (r : Row) (u : User) (c₂ : Client) (d₂ : Draws) (now₂ : ℕ)
        → IsWf t
        → Accepted t (sha256 raw) now r
        → fetch users t (sha256 raw) ≡ some (r, u)
        → any (clashes (successor sha256 ttl_days t (sha256 raw) now r c d)) t.rows ≡ false
        → let t₁ = rotated_table sha256 ttl_days t (sha256 raw) now r c d in
          rotate_refresh_token sha256 ttl_days users t₁ raw c₂ d₂ now₂
          ≡ some (
            reuse_detected (context r u) 1,
            (revoke_family t₁ r.family_id (codes "reuse_detected") now₂).1,
          )
    unfolding rotate_refresh_token decide carry_out revoke_family
    replay_reused r u c₂ d₂ now₂ w a e fresh =
        rw (fetch_closed r u w a e fresh, rotate_refresh_token)
          (ground (
            arith,
            successor-family sha256 ttl_days t (sha256 raw) now r c d w a,
            eq_text_refl r.family_id,
            rotated_live t (sha256 raw) now r c d w a,
          ))

    successor_revoked :
        (r : Row) (u : User) (c₃ : Client) (d₃ : Draws) (now₂ now₃ : ℕ)
        → IsWf t
        → Accepted t (sha256 raw) now r
        → fetch users t (sha256 raw) ≡ some (r, u)
        → let s = successor sha256 ttl_days t (sha256 raw) now r c d in
          let t₁ = rotated_table sha256 ttl_days t (sha256 raw) now r c d in
          let t₂ = (revoke_family t₁ r.family_id (codes "reuse_detected") now₂).1 in
          rotate_refresh_token sha256 ttl_days users t₂ d.raw c₃ d₃ now₃
          ≡ some (revoked (context s u) (some (codes "reuse_detected")), t₂)
    unfolding rotate_refresh_token fetch decide carry_out revoke_family update_rows
    successor_revoked r u c₃ d₃ now₂ now₃ w a e = ground (
      arith,
      successor-family sha256 ttl_days t (sha256 raw) now r c d w a,
      eq_text_refl r.family_id,
      eq_text_refl (sha256 d.raw),
      fetch_user users t (sha256 raw) r u e,
    )

    -- A copy of a token is presented right after its rotation, before any other operation on the sessions: the
    -- reply is reuse_detected and one token, the successor, is revoked with it; when the successor is
    -- presented next, it is refused as revoked by the detection.
    pub theft_detected :
        (result : Rotation) (t₁ : Table)
        → IsWf t
        → is_rotated result ≡ true
        → rotate_refresh_token sha256 ttl_days users t raw c d now ≡ some (result, t₁)
        → (c₂ c₃ : Client) (d₂ d₃ : Draws) (now₂ now₃ : ℕ)
        → (x y : Context) × (t₂ : Table) × (rotate_refresh_token sha256 ttl_days users t₁ raw c₂ d₂
              now₂
            ≡ some (reuse_detected x 1, t₂))
          × (rotate_refresh_token sha256 ttl_days users t₂ d.raw c₃ d₃ now₃
              ≡ some (revoked y (some (codes "reuse_detected")), t₂))
    theft_detected result t₁ w g e c₂ c₃ d₂ d₃ now₂ now₃ =
        let v = rotate-Rotated sha256 ttl_days users t raw c d now result t₁ w g e in
        (
          context v.row v.user,
          context (successor sha256 ttl_days t (sha256 raw) now v.row c d) v.user,
          (revoke_family (rotated_table sha256 ttl_days t (sha256 raw) now v.row c d)
              v.row.family_id (codes "reuse_detected") now₂).1,
          rw v.table (replay_reused v.row v.user c₂ d₂ now₂ w v.accepted v.fetched v.fresh),
          successor_revoked v.row v.user c₃ d₃ now₂ now₃ w v.accepted v.fetched,
        )

  -- The second of two overlapping writes, on the table that the first one left.
  second_write :
      (t : Table) (h : Text) (r : Row) (x : Context) (c₁ c₂ : Client) (d₁ d₂ : Draws)
      (now₁ now₂ : ℕ) (result₂ : Rotation) (t₂ : Table)
      → IsWf t
      → Accepted t h now₁ r
      → carry_out sha256 ttl_days
          (rotated_table sha256 ttl_days t h now₁ r c₁ d₁)
          (accept r x)
          c₂
          d₂
          now₂
        ≡ some (result₂, t₂)
      → (is_rotated result₂ ≡ true) × (2 ≤ count (live_in r.family_id) t₂.rows)
  unfolding carry_out insert_row update_rows
  second_write t h r x c₁ c₂ d₁ d₂ now₁ now₂ result₂ t₂ w a e = (
    ground arith,
    ground (
      arith,
      find-Below _ t.next_id t.rows {r = r} w.ordered a.found,
      successor-family sha256 ttl_days t h now₁ r c₁ d₁ w a,
      successor-family sha256 ttl_days t h now₁ r c₁ d₂ w a,
      eq_text_refl r.family_id,
    ),
  )

  -- Two requests with one token that both read its row before either writes, and whose writes then succeed:
  -- both are accepted, and the family is left with at least two live tokens.
  pub overlapping_refreshes :
      (users : List User) (t : Table) (raw : Text) (r : Row) (x : Context) (c₁ c₂ : Client)
      (d₁ d₂ : Draws) (now₁ now₂ : ℕ) (result₁ result₂ : Rotation) (t₁ t₂ : Table)
      → IsWf t
      → decide (fetch users t (sha256 raw)) now₁ ≡ accept r x
      → decide (fetch users t (sha256 raw)) now₂ ≡ accept r x
      → carry_out sha256 ttl_days t (accept r x) c₁ d₁ now₁ ≡ some (result₁, t₁)
      → carry_out sha256 ttl_days t₁ (accept r x) c₂ d₂ now₂ ≡ some (result₂, t₂)
      → (is_rotated result₁ ≡ true)
        × (is_rotated result₂ ≡ true)
        × (2 ≤ count (live_in r.family_id) t₂.rows)
  overlapping_refreshes users t raw r x c₁ c₂ d₁ d₂ now₁ now₂ result₁ result₂ t₁ t₂ w k₁ k₂ e₁ e₂ =
      let h = sha256 raw in
      let a = decide-accept users t h now₁ r x k₁ in
      let (t_eq, _, reply_eq) = carry_out-Accepted sha256 ttl_days t r x c₁ d₁ h now₁ w a e₁ in
      let second = second_write t h r x c₁ c₂ d₁ d₂ now₁ now₂ result₂ t₂ w a (rw (← t_eq) e₂) in
      (ground (arith, reply_eq), second.0, second.1)
