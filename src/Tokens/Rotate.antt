-- ===== src/Tokens/Rotate.antt =====
-- quansec/core/tokens.py, `issue_refresh_token` and `rotate_refresh_token`: inversion of a success, and
-- the invariant.
use quansec_pqc_platform.Prelude.{
  ℕ, suc, ◌<◌, ◌≡◌, refl, true, false, Option, none, some, List, [], ◌∷◌, Text, eq_text,
  eq_text_iff, truthy, any, count, find, arith, ◌==◌, is_none, codes, subst, sym,
}
use quansec_pqc_platform.Tokens.Rows.{
  User, Row, Table, insert_row, update_list, update_rows, clashes,
}
use quansec_pqc_platform.Tokens.{
  Draws, Client, Issued, Context, Rotation, rotated, Decision, unknown, reuse, dead, late, accept,
  issue_refresh_token, new_row, issued, family_or, live_in, close_row, fetch, decide, carry_out,
  rotate_refresh_token,
}
use quansec_pqc_platform.Tokens.Updates.{
  Unique-update, no_clash, Below-update, All-update, find-Below, All-find, count-close,
}
use quansec_pqc_platform.Tokens.Steps.{IsWf, IsConsumed, revoke_family-IsWf}

-- What an accepted token's row shows.
pub record Accepted (t : Table) (h : Text) (now : ℕ) (r : Row) : Type 0 where
  pub found : find (λ q. eq_text q.token_hash h) t.rows ≡ some r
  pub live : is_none r.revoked_at ≡ true
  pub unused : is_none r.replaced_by ≡ true
  pub early : now < r.expires_at

pub decide-accept :
    (users : List User) (t : Table) (h : Text) (now : ℕ) (r : Row) (x : Context)
    → decide (fetch users t h) now ≡ accept r x
    → Accepted t h now r
unfolding decide fetch
decide-accept users t h now r x e = record {
  found = ground arith;
  live = ground arith;
  unused = ground arith;
  early = ground arith;
}

module _ (sha256 : Text → Text) (ttl_days : ℕ) where
  -- The table after a successful INSERT of a new token.
  abbrev pub inserted : Table → ℕ → Option Text → Option ℕ → Client → Draws → ℕ → Table
  inserted t user family parent c d now = record {
    rows = new_row sha256 ttl_days t user family parent c d now ∷ t.rows;
    next_id = suc t.next_id;
  }

  pub issue_success :
      (t : Table) (user : ℕ) (family : Option Text) (parent : Option ℕ) (c : Client) (d : Draws)
      (now : ℕ) {i : Issued} {t' : Table}
      → issue_refresh_token sha256 ttl_days t user family parent c d now ≡ some (i, t')
      → (any (clashes (new_row sha256 ttl_days t user family parent c d now)) t.rows ≡ false)
        × (t' ≡ inserted t user family parent c d now)
        × (i ≡ issued sha256 ttl_days (new_row sha256 ttl_days t user family parent c d now) d)
  unfolding issue_refresh_token insert_row
  issue_success t user family parent c d now e = (ground arith, ground arith, ground arith)

  family_or_self : (f g : Text) → truthy f ≡ true → family_or (some f) g ≡ f
  family_or_self [] g h = absurd (ground arith)
  family_or_self (c ∷ f) g h = refl

  -- Both writes of a rotation, once the row was accepted.
  module _ (t : Table) (h : Text) (now : ℕ) (r : Row) (c : Client) (d : Draws) where
    abbrev pub successor : Row
    successor = new_row sha256 ttl_days t r.user_id (some r.family_id) (some r.id) c d now

    -- The table after both writes.
    abbrev pub rotated_table : Table
    rotated_table = record {
      rows = successor ∷ update_list (λ q. q.id == r.id) (close_row t.next_id now) t.rows;
      next_id = suc t.next_id;
    }

    pub update_rows-inserted :
        IsWf t
        → Accepted t h now r
        → update_rows
            (λ q. q.id == r.id)
            (close_row t.next_id now)
            (inserted t r.user_id (some r.family_id) (some r.id) c d now)
          ≡ rotated_table
    unfolding update_rows
    update_rows-inserted w a =
        let low = find-Below _ t.next_id t.rows {r = r} w.ordered a.found in ground (arith, low)

    Accepted-family : IsWf t → Accepted t h now r → truthy r.family_id ≡ true
    Accepted-family w a = All-find (λ q. truthy q.family_id ≡ true) _ t.rows {r = r} w.named a.found

    pub successor-family : IsWf t → Accepted t h now r → successor.family_id ≡ r.family_id
    successor-family w a = family_or_self r.family_id d.family (Accepted-family w a)

    pub rotated_table-IsWf :
        IsWf t → Accepted t h now r → any (clashes successor) t.rows ≡ false → IsWf rotated_table
    rotated_table-IsWf w a fresh = record {
      ordered = (
        omega arith,
        Below-update (λ q. q.id == r.id) (close_row t.next_id now) (λ q. refl) t.next_id t.rows
            w.ordered,
      );
      consumed = (
        (λ e. absurd (ground (arith, e))),
        All-update (λ q. q.id == r.id) (close_row t.next_id now) IsConsumed (λ q k e. refl) t.rows
            w.consumed,
      );
      named = (
        rw (successor-family w a) (Accepted-family w a),
        All-update (λ q. q.id == r.id) (close_row t.next_id now) (λ q. truthy q.family_id ≡ true)
            (λ q k. k) t.rows w.named,
      );
      unique = (
        All-update (λ q. q.id == r.id) (close_row t.next_id now)
            (λ q. eq_text q.token_hash (sha256 d.raw) ≡ false) (λ q k. k) t.rows
            (no_clash successor t.rows fresh),
        Unique-update (λ q. q.id == r.id) (close_row t.next_id now) (λ q. refl) t.rows w.unique,
      );
      single = λ family. ground (
        arith,
        w.single family,
        successor-family w a,
        count-close _ t.next_id now t.next_id family t.rows {r = r} w.ordered a.found a.live,
      );
    }

  -- An accepted row that is carried out: the table after both writes, and the reply.
  pub carry_out-Accepted :
      (t : Table) (r : Row) (x : Context) (c : Client) (d : Draws) (h : Text) (now : ℕ)
      {result : Rotation} {t' : Table}
      → IsWf t
      → Accepted t h now r
      → carry_out sha256 ttl_days t (accept r x) c d now ≡ some (result, t')
      → (t' ≡ rotated_table t h now r c d)
        × (any (clashes (successor t h now r c d)) t.rows ≡ false)
        × (result ≡ rotated x r.token_id (issued sha256 ttl_days (successor t h now r c d) d))
  unfolding carry_out insert_row
  carry_out-Accepted t r x c d h now w a e = (
    ground (arith, update_rows-inserted t h now r c d w a),
    ground arith,
    ground (arith, update_rows-inserted t h now r c d w a),
  )

  carry_out-IsWf :
      (t : Table) (k : Decision) (c : Client) (d : Draws) (h : Text) (now : ℕ) {result : Rotation}
      {t' : Table}
      → IsWf t
      → ((r : Row) (x : Context) → k ≡ accept r x → Accepted t h now r)
      → carry_out sha256 ttl_days t k c d now ≡ some (result, t')
      → IsWf t'
  unfolding carry_out
  carry_out-IsWf t unknown c d h now w a e = subst IsWf (ground arith) w
  carry_out-IsWf t (reuse r x) c d h now w a e =
      subst IsWf (ground arith) (revoke_family-IsWf t r.family_id (codes "reuse_detected") now w)
  carry_out-IsWf t (dead x reason) c d h now w a e = subst IsWf (ground arith) w
  carry_out-IsWf t (late x) c d h now w a e = subst IsWf (ground arith) w
  carry_out-IsWf t (accept r x) c d h now w a e =
      let b = a r x refl in
      let (same, fresh, _) = carry_out-Accepted t r x c d h now w b e in
      subst IsWf (sym same) (rotated_table-IsWf t h now r c d w b fresh)

  pub rotate-IsWf :
      (users : List User) (t : Table) (raw : Text) (c : Client) (d : Draws) (now : ℕ)
      {result : Rotation} {t' : Table}
      → IsWf t
      → rotate_refresh_token sha256 ttl_days users t raw c d now ≡ some (result, t')
      → IsWf t'
  unfolding rotate_refresh_token
  rotate-IsWf users t raw c d now w e =
      carry_out-IsWf t (decide (fetch users t (sha256 raw)) now) c d (sha256 raw) now w
        (λ r x k. decide-accept users t (sha256 raw) now r x k) e

  -- A first token of a new family.
  pub login-IsWf :
      (t : Table) (user : ℕ) (c : Client) (d : Draws) (now : ℕ) {i : Issued} {t' : Table}
      → IsWf t
      → truthy d.family ≡ true
      → any (λ r. eq_text r.family_id d.family) t.rows ≡ false
      → issue_refresh_token sha256 ttl_days t user none none c d now ≡ some (i, t')
      → IsWf t'
  login-IsWf t user c d now w named fresh e =
      subst IsWf (sym (issue_success t user none none c d now e).1) (record {
        ordered = (omega arith, w.ordered);
        consumed = ((λ k. absurd (ground (arith, k))), w.consumed);
        named = (named, w.named);
        unique = (
          no_clash (new_row sha256 ttl_days t user none none c d now) t.rows
              (issue_success t user none none c d now e).0,
          w.unique,
        );
        single = λ family.
            ground
              (arith, w.single family, eq_text_iff d.family family, no_live d.family t.rows fresh);
      })
    where
      no_live :
          (f : Text) (rs : List Row)
          → any (λ r. eq_text r.family_id f) rs ≡ false
          → count (live_in f) rs ≡ 0
      no_live f [] h = refl
      no_live f (r ∷ rs) h = ground (arith, no_live f rs)
