-- ===== src/Tokens/Theft.antt =====
-- quansec/core/tokens.py: reuse detection. A token is accepted once; presented again it kills its
-- family; two requests that overlap are not told apart.
use quansec_pqc_platform.Prelude.{
  ℕ, ◌≡◌, refl, true, false, Option, none, some, List, [], ◌∷◌, Text, eq_text, eq_text_iff, any,
  find, All, arith, ◌==◌, is_none, Bool-cases, inl, inr, codes, subst, sym, ◌∙◌, count, ap,
}
use quansec_pqc_platform.Tokens.Rows.{User, Row, Table, update_list, update_rows, clashes}
use quansec_pqc_platform.Tokens.{
  Draws, Client, Context, context, Rotation, reuse_detected, rotated, Decision, unknown, reuse,
  dead, late, accept, issued, rotate_refresh_token, revoke_family, live_in, revoke_row, close_row,
  carry_out, decide, fetch,
}
use quansec_pqc_platform.Tokens.Updates.{
  Unique, no_clash, All-update, All-find, find_passes, count-update_zero,
}
use quansec_pqc_platform.Tokens.Steps.{IsWf}
use quansec_pqc_platform.Tokens.Rotate.{
  Accepted, decide-accept, carry_out-Accepted, rotated_table, rotated_table-IsWf, successor,
}
use quansec_pqc_platform.Tokens.History.{Reach, Reach-IsDead, IsDead, DeadRow, Differs, is_rotated}

module _ (sha256 : Text → Text) (ttl_days : ℕ) where
  rotated_of :
      (t : Table) (k : Decision) (c : Client) (d : Draws) (now : ℕ) (result : Rotation) (t' : Table)
      → is_rotated result ≡ true
      → carry_out sha256 ttl_days t k c d now ≡ some (result, t')
      → (r : Row) × (x : Context) × (k ≡ accept r x)
  unfolding carry_out
  rotated_of t unknown c d now result t' g e = absurd (ground arith)
  rotated_of t (reuse r x) c d now result t' g e = absurd (ground arith)
  rotated_of t (dead x reason) c d now result t' g e = absurd (ground arith)
  rotated_of t (late x) c d now result t' g e = absurd (ground arith)
  rotated_of t (accept r x) c d now result t' g e = (r, x, refl)

  -- A token whose rows are all revoked is not accepted.
  pub rotate_dead :
      (users : List User) (t : Table) (raw : Text) (c : Client) (d : Draws) (now : ℕ)
      (result : Rotation) (t' : Table)
      → IsDead (sha256 raw) t
      → rotate_refresh_token sha256 ttl_days users t raw c d now ≡ some (result, t')
      → is_rotated result ≡ false
  unfolding rotate_refresh_token
  rotate_dead users t raw c d now result t' s e = elim (Bool-cases (is_rotated result)) [
    | inr h ↦ h
    | inl h ↦
        let (r, x, k) =
          rotated_of t (decide (fetch users t (sha256 raw)) now) c d now result t' h e in
        let a = decide-accept users t (sha256 raw) now r x k in
        absurd (
          ground (
            arith,
            a.live,
            All-find (DeadRow sha256 ttl_days (sha256 raw)) _ t.rows {r = r} s a.found
                (find_passes _ t.rows {r = r} a.found),
          ))
  ]

  -- What a successful rotation did: the accepted row, and the table after both writes.
  pub record Rotated (users : List User) (t : Table) (raw : Text) (c : Client) (d : Draws) (now : ℕ)
      (result : Rotation) (t' : Table) : Type 0 where
    pub row : Row
    pub user : User
    pub accepted : Accepted t (sha256 raw) now row
    pub fetched : fetch users t (sha256 raw) ≡ some (row, user)
    pub table : t' ≡ rotated_table sha256 ttl_days t (sha256 raw) now row c d
    pub fresh : any (clashes (successor sha256 ttl_days t (sha256 raw) now row c d)) t.rows ≡ false
    pub reply :
        result
        ≡ rotated
            (context row user)
            row.token_id
            (issued sha256 ttl_days (successor sha256 ttl_days t (sha256 raw) now row c d) d)

  decide_accept-fetch :
      (o : Option (Row × User)) (now : ℕ) (r : Row) (x : Context)
      → decide o now ≡ accept r x
      → (u : User) × (o ≡ some (r, u)) × (x ≡ context r u)
  unfolding decide
  decide_accept-fetch none now r x e = absurd (ground arith)
  decide_accept-fetch (some (q, u)) now r x e = (u, ground arith, ground arith)

  pub rotate-Rotated :
      (users : List User) (t : Table) (raw : Text) (c : Client) (d : Draws) (now : ℕ)
      (result : Rotation) (t' : Table)
      → IsWf t
      → is_rotated result ≡ true
      → rotate_refresh_token sha256 ttl_days users t raw c d now ≡ some (result, t')
      → Rotated users t raw c d now result t'
  unfolding rotate_refresh_token
  rotate-Rotated users t raw c d now result t' w g e =
      let k = decide (fetch users t (sha256 raw)) now in
      let (r, x, k_eq) = rotated_of t k c d now result t' g e in
      let (u, o_eq, x_eq) = decide_accept-fetch (fetch users t (sha256 raw)) now r x k_eq in
      let a = decide-accept users t (sha256 raw) now r x k_eq in
      let e' : carry_out sha256 ttl_days t (accept r x) c d now ≡ some (result, t') = cc in
      let (t_eq, fresh, reply_eq) =
        carry_out-Accepted sha256 ttl_days t r x c d (sha256 raw) now w a e' in
      record {
        row = r;
        user = u;
        accepted = a;
        fetched = o_eq;
        table = t_eq;
        fresh = fresh;
        reply = cc;
      }

  -- The accepted row is the only one of its hash, so after it is closed the hash is dead.
  close-IsDead :
      (h : Text) (n : ℕ) (f : Row → Row) (rs : List Row) {r : Row}
      → ((x : Row) → is_none (f x).revoked_at ≡ false)
      → Unique rs
      → find (λ q. eq_text q.token_hash h) rs ≡ some r
      → All (DeadRow sha256 ttl_days h) (update_list (λ q. q.id == r.id) f rs)
  close-IsDead h n f [] dies u e = absurd (ground arith)
  close-IsDead h n f (x ∷ rs) {r} dies u e = elim (Bool-cases (eq_text x.token_hash h)) [
    | inl m ↦
        let same : x ≡ r = ground arith in
        subst
          (λ (y : Row).
            All (DeadRow sha256 ttl_days h) (update_list (λ q. q.id == y.id) f (x ∷ rs)))
          same
          (
            (λ k. ground (arith, dies x)),
            All-update (λ q. q.id == x.id) f (DeadRow sha256 ttl_days h) (λ q k l. dies q) rs
                (others x.token_hash rs ((eq_text_iff x.token_hash h).0 m) u.0),
          )
    | inr m ↦ ((λ k. ground (arith, dies x)), close-IsDead h n f rs {r = r} dies u.1 (ground arith))
  ]
    where
      others :
          (g : Text) (qs : List Row)
          → g ≡ h
          → All (λ q. eq_text q.token_hash g ≡ false) qs
          → All (DeadRow sha256 ttl_days h) qs
      others g [] e a = tt
      others g (q ∷ qs) e a =
          ((λ k. absurd (ground (arith, k, ap (eq_text q.token_hash) e, a.0))), others g qs e a.1)

  pub successor_differs :
      (t : Table) (h : Text) (now : ℕ) (r : Row) (c : Client) (d : Draws)
      → Accepted t h now r
      → any (clashes (successor sha256 ttl_days t h now r c d)) t.rows ≡ false
      → eq_text (sha256 d.raw) h ≡ false
  successor_differs t h now r c d a fresh =
      let apart =
        All-find (λ q. eq_text q.token_hash (sha256 d.raw) ≡ false) _ t.rows {r = r}
          (no_clash (successor sha256 ttl_days t h now r c d) t.rows fresh) a.found in
      let mine = (eq_text_iff r.token_hash h).0 (find_passes _ t.rows {r = r} a.found) in
      elim (Bool-cases (eq_text (sha256 d.raw) h)) [
        | inr e ↦ e
        | inl e ↦
            let both : r.token_hash ≡ sha256 d.raw =
              mine ∙ sym ((eq_text_iff (sha256 d.raw) h).0 e) in
            absurd (ground (arith, apart, (eq_text_iff r.token_hash (sha256 d.raw)).1 both))
      ]

  Rotated-IsWf :
      {users : List User} {t : Table} {raw : Text} {c : Client} {d : Draws} {now : ℕ}
      {result : Rotation} {t' : Table}
      → IsWf t
      → Rotated users t raw c d now result t'
      → IsWf t'
  Rotated-IsWf {t = t} {raw = raw} {c = c} {d = d} {now = now} w v =
      subst IsWf (sym v.table)
        (rotated_table-IsWf sha256 ttl_days t (sha256 raw) now v.row c d w v.accepted v.fresh)

  Rotated-IsDead :
      {users : List User} {t : Table} {raw : Text} {c : Client} {d : Draws} {now : ℕ}
      {result : Rotation} {t' : Table}
      → IsWf t
      → Rotated users t raw c d now result t'
      → IsDead (sha256 raw) t'
  Rotated-IsDead {t = t} {raw = raw} {c = c} {d = d} {now = now} w v =
      subst (IsDead (sha256 raw)) (sym v.table) (
        (λ k.
            absurd (
              ground
                (arith, k, successor_differs t (sha256 raw) now v.row c d v.accepted v.fresh))),
        close-IsDead (sha256 raw) t.next_id (close_row t.next_id now) t.rows {r = v.row} (λ x. refl)
            w.unique v.accepted.found,
      )

  -- A token that was rotated is never rotated again, in any later history of logins, refreshes, logouts,
  -- revocations and purges, if no later draw has a token of the same hash.
  pub single_use :
      (users : List User) (t : Table) (raw : Text) (c : Client) (d : Draws) (now : ℕ)
      (result : Rotation) (t' : Table)
      → IsWf t
      → is_rotated result ≡ true
      → rotate_refresh_token sha256 ttl_days users t raw c d now ≡ some (result, t')
      → (users₂ : List User) (u : Table) (c₂ : Client) (d₂ : Draws) (now₂ : ℕ) (result₂ : Rotation)
        (u' : Table)
      → Reach sha256 ttl_days (Differs sha256 ttl_days (sha256 raw)) t' u
      → rotate_refresh_token sha256 ttl_days users₂ u raw c₂ d₂ now₂ ≡ some (result₂, u')
      → is_rotated result₂ ≡ false
  single_use users t raw c d now result t' w g e users₂ u c₂ d₂ now₂ result₂ u' later e₂ =
      let v = rotate-Rotated users t raw c d now result t' w g e in
      rotate_dead users₂ u raw c₂ d₂ now₂ result₂ u'
        (Reach-IsDead sha256 ttl_days (sha256 raw) (Rotated-IsWf w v) (Rotated-IsDead w v) later) e₂

  -- Presenting a token whose row was replaced: the reply is reuse_detected with the number of tokens that
  -- were live in its family; afterwards that family has no live token, and every other family has as
  -- many as before.
  pub reuse_revokes_family :
      (users : List User) (t : Table) (raw : Text) (c : Client) (d : Draws) (now : ℕ) (r : Row)
      (u : User)
      → fetch users t (sha256 raw) ≡ some (r, u)
      → is_none r.replaced_by ≡ false
      → (t' : Table) × (rotate_refresh_token sha256 ttl_days users t raw c d now
          ≡ some (reuse_detected (context r u) (count (live_in r.family_id) t.rows), t'))
        × (count (live_in r.family_id) t'.rows ≡ 0)
        × ((f : Text)
            → eq_text r.family_id f ≡ false
            → count (live_in f) t'.rows ≡ count (live_in f) t.rows)
  unfolding rotate_refresh_token decide carry_out revoke_family update_rows
  reuse_revokes_family users t raw c d now r u e h = (
    (revoke_family t r.family_id (codes "reuse_detected") now).1,
    rw (e, rotate_refresh_token) (ground arith),
    count-update_zero (live_in r.family_id) (revoke_row (codes "reuse_detected") now)
        (live_in r.family_id) (λ q k. k) (λ q. ground arith) t.rows,
    λ f apart. others f apart t.rows,
  )
    where
      others :
          (f : Text)
          → eq_text r.family_id f ≡ false
          → (rs : List Row)
          → count
              (live_in f)
              (update_list (live_in r.family_id) (revoke_row (codes "reuse_detected") now) rs)
            ≡ count (live_in f) rs
      others f apart [] = refl
      others f apart (q ∷ rs) = ground (
        arith,
        others f apart rs,
        eq_text_iff q.family_id r.family_id,
        eq_text_iff q.family_id f,
        eq_text_iff r.family_id f,
      )
