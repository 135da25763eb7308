-- ===== src/Tokens/History.antt =====
-- quansec/core/tokens.py: histories of the refresh-token table, as sequences of calls.
use quansec_pqc_platform.Prelude.{
  ℕ, ◌≡◌, refl, Bool, true, false, none, some, List, Text, eq_text, truthy, any, All, arith, ◌==◌,
  is_none, codes, subst, sym,
}
use quansec_pqc_platform.Tokens.Rows.{User, Row, Table, empty, update_rows, delete_rows}
use quansec_pqc_platform.Tokens.{
  Draws, Client, Issued, Context, Rotation, rotated, Decision, unknown, reuse, dead, late, accept,
  issue_refresh_token, rotate_refresh_token, revoke_token, revoke_family, revoke_all_for_user,
  purge_expired, live_in, live_of, live_hash, revoke_row, log_out_row, close_row, carry_out, decide,
  fetch,
}
use quansec_pqc_platform.Tokens.Updates.{All-update, All-kept}
use quansec_pqc_platform.Tokens.Steps.{
  IsWf, empty-IsWf, revoke-IsWf, revoke_family-IsWf, revoke_all-IsWf, purge-IsWf,
}
use quansec_pqc_platform.Tokens.Rotate.{
  Accepted, decide-accept, issue_success, carry_out-Accepted, rotate-IsWf, login-IsWf,
}

-- One call of the module by any handler. `Q` is what is known of the values that the call draws.
module _ (sha256 : Text → Text) (ttl_days : ℕ) (Q : Draws → Type 0) where
  pub data Step (t : Table) (t' : Table) : Type 0 where
    login :
        (user : ℕ) (c : Client) (d : Draws) (now : ℕ) (i : Issued)
        → Q d
        → truthy d.family ≡ true
        → any (λ r. eq_text r.family_id d.family) t.rows ≡ false
        → issue_refresh_token sha256 ttl_days t user none none c d now ≡ some (i, t')
        → Step t t'
    refresh :
        (users : List User) (raw : Text) (c : Client) (d : Draws) (now : ℕ) (result : Rotation)
        → Q d
        → rotate_refresh_token sha256 ttl_days users t raw c d now ≡ some (result, t')
        → Step t t'
    logout :
        (raw reason : Text) (now : ℕ) → t' ≡ (revoke_token sha256 t raw reason now).1 → Step t t'
    family : (f reason : Text) (now : ℕ) → t' ≡ (revoke_family t f reason now).1 → Step t t'
    user_sessions :
        (user : ℕ) (reason : Text) (now : ℕ)
        → t' ≡ (revoke_all_for_user t user reason now).1
        → Step t t'
    purge : (days now : ℕ) → t' ≡ (purge_expired t days now).1 → Step t t'

  pub data Reach (s : Table) : Table → Type 0 where
    here : Reach s s
    next : {t u : Table} → Reach s t → Step t u → Reach s u

  pub logout-IsWf :
      (t : Table) (raw reason : Text) (now : ℕ)
      → IsWf t
      → IsWf (revoke_token sha256 t raw reason now).1
  unfolding revoke_token
  logout-IsWf t raw reason now w =
      revoke-IsWf (live_hash sha256 (sha256 raw)) (log_out_row sha256 reason now) (λ r. refl)
        (λ r. refl) (λ r. refl) (λ r. refl) w

  pub Step-IsWf : {t t' : Table} → IsWf t → Step t t' → IsWf t'
  Step-IsWf {t} w (login user c d now i q named fresh e) =
      login-IsWf sha256 ttl_days t user c d now w named fresh e
  Step-IsWf {t} w (refresh users raw c d now result q e) =
      rotate-IsWf sha256 ttl_days users t raw c d now w e
  Step-IsWf {t} w (logout raw reason now e) = subst IsWf (sym e) (logout-IsWf t raw reason now w)
  Step-IsWf {t} w (family f reason now e) = subst IsWf (sym e) (revoke_family-IsWf t f reason now w)
  Step-IsWf {t} w (user_sessions user reason now e) =
      subst IsWf (sym e) (revoke_all-IsWf t user now reason w)
  Step-IsWf {t} w (purge days now e) = subst IsWf (sym e) (purge-IsWf t days now w)

  pub Reach-IsWf : {s t : Table} → IsWf s → Reach s t → IsWf t
  Reach-IsWf w here = w
  Reach-IsWf w (next r st) = Step-IsWf (Reach-IsWf w r) st

  -- In every history that starts from the empty table, where each login draws a family id that no row
  -- has, a family has at most one live token, every replaced token is revoked, and ids are distinct
  -- and below the sequence's next value.
  pub one_live_token : {t : Table} → Reach empty t → IsWf t
  one_live_token r = Reach-IsWf empty-IsWf r

-- Every row of a hash is revoked.
abbrev pub IsDead : Text → Table → Type 0
IsDead h t = All (λ r. eq_text r.token_hash h ≡ true → is_none r.revoked_at ≡ false) t.rows

module _ (sha256 : Text → Text) (ttl_days : ℕ) (h : Text) where
  -- Draws whose token has another hash.
  abbrev pub Differs : Draws → Type 0
  Differs d = eq_text (sha256 d.raw) h ≡ false

  abbrev pub DeadRow : Row → Type 0
  DeadRow r = eq_text r.token_hash h ≡ true → is_none r.revoked_at ≡ false

  update_rows-IsDead :
      (p : Row → Bool) (f : Row → Row)
      → ((r : Row) → is_none (f r).revoked_at ≡ false)
      → (t : Table) → IsDead h t
      → IsDead h (update_rows p f t)
  unfolding update_rows
  update_rows-IsDead p f dies t a = All-update p f DeadRow (λ r k e. dies r) t.rows a

  carry_out-IsDead :
      (t : Table) (k : Decision) (c : Client) (d : Draws) (g : Text) (now : ℕ) {result : Rotation}
      (t' : Table)
      → IsWf t
      → Differs d
      → ((r : Row) (x : Context) → k ≡ accept r x → Accepted t g now r)
      → IsDead h t
      → carry_out sha256 ttl_days t k c d now ≡ some (result, t')
      → IsDead h t'
  unfolding carry_out revoke_family
  carry_out-IsDead t unknown c d g now t' w q a s e =
      let same : t ≡ t' = ground arith in subst (IsDead h) same s
  carry_out-IsDead t (reuse r x) c d g now t' w q a s e =
      let same : (revoke_family t r.family_id (codes "reuse_detected") now).1 ≡ t' = ground arith in
      subst (IsDead h) same (
        update_rows-IsDead (live_in r.family_id) (revoke_row (codes "reuse_detected") now)
          (λ r. refl) t s)
  carry_out-IsDead t (dead x reason) c d g now t' w q a s e =
      let same : t ≡ t' = ground arith in subst (IsDead h) same s
  carry_out-IsDead t (late x) c d g now t' w q a s e =
      let same : t ≡ t' = ground arith in subst (IsDead h) same s
  carry_out-IsDead t (accept r x) c d g now t' w q a s e =
      subst (IsDead h) (sym (carry_out-Accepted sha256 ttl_days t r x c d g now w (a r x refl) e).0)
        (
          (λ k. absurd (ground (arith, q, k))),
          All-update (λ p. p.id == r.id) (close_row t.next_id now) DeadRow (λ p k m. refl) t.rows s,
        )

  pub Step-IsDead :
      {t t' : Table} → IsWf t → IsDead h t → Step sha256 ttl_days Differs t t' → IsDead h t'
  unfolding rotate_refresh_token revoke_token revoke_family revoke_all_for_user purge_expired
      delete_rows
  Step-IsDead {t} w s (login user c d now i q named fresh e) =
      subst (IsDead h) (sym (issue_success sha256 ttl_days t user none none c d now e).1)
        ((λ k. absurd (ground (arith, q, k))), s)
  Step-IsDead {t} {t'} w s (refresh users raw c d now result q e) =
      carry_out-IsDead t (decide (fetch users t (sha256 raw)) now) c d (sha256 raw) now t' w q
        (λ r x k. decide-accept users t (sha256 raw) now r x k) s e
  Step-IsDead {t} w s (logout raw reason now e) = subst (IsDead h) (sym e) (
      update_rows-IsDead (live_hash sha256 (sha256 raw)) (log_out_row sha256 reason now) (λ r. refl)
        t s)
  Step-IsDead {t} w s (family f reason now e) =
      subst (IsDead h) (sym e)
        (update_rows-IsDead (live_in f) (revoke_row reason now) (λ r. refl) t s)
  Step-IsDead {t} w s (user_sessions user reason now e) =
      subst (IsDead h) (sym e)
        (update_rows-IsDead (live_of user) (revoke_row reason now) (λ r. refl) t s)
  Step-IsDead {t} w s (purge days now e) =
      subst (IsDead h) (sym e) (All-kept _ _ DeadRow (λ r k. k) t.rows s)

  pub Reach-IsDead :
      {s t : Table} → IsWf s → IsDead h s → Reach sha256 ttl_days Differs s t → IsDead h t
  Reach-IsDead w s here = s
  Reach-IsDead w s (next r st) =
      Step-IsDead (Reach-IsWf sha256 ttl_days Differs w r) (Reach-IsDead w s r) st

abbrev pub is_rotated : Rotation → Bool
is_rotated (rotated x previous i) = true
is_rotated _ = false
