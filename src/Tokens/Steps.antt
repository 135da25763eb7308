-- ===== src/Tokens/Steps.antt =====
-- quansec/core/tokens.py: every history of the refresh-token table, and what each statement keeps true
-- of it.
use quansec_pqc_platform.Prelude.{
  ℕ, ◌≤◌, ◌≡◌, refl, Bool, true, false, Text, truthy, count, All, arith, is_none,
}
use quansec_pqc_platform.Tokens.Rows.{Row, Table, empty, update_rows, delete_rows}
use quansec_pqc_platform.Tokens.{
  live_in, live_of, revoke_row, revoke_family, revoke_all_for_user, purge_expired,
}
use quansec_pqc_platform.Tokens.Updates.{
  Below, Unique, Unique-update, Unique-kept, Below-update, All-update, count-update-le, Below-kept,
  All-kept, count-kept-le,
}

-- A row that was replaced is revoked too.
abbrev pub IsConsumed : Row → Type 0
IsConsumed r = is_none r.replaced_by ≡ false → is_none r.revoked_at ≡ false

pub record IsWf (t : Table) : Type 0 where
  pub ordered : Below t.next_id t.rows
  pub consumed : All IsConsumed t.rows
  pub named : All (λ r. truthy r.family_id ≡ true) t.rows
  pub unique : Unique t.rows
  pub single : (family : Text) → count (live_in family) t.rows ≤ 1

pub empty-IsWf : IsWf empty
empty-IsWf = record {
  ordered = tt;
  consumed = tt;
  named = tt;
  unique = tt;
  single = λ family. omega arith;
}

-- An update that revokes rows, and touches neither their ids nor their links.
module _ (p : Row → Bool) (f : Row → Row) where
  pub revoke-IsWf :
      ((r : Row) → (f r).id ≡ r.id)
      → ((r : Row) → (f r).family_id ≡ r.family_id)
      → ((r : Row) → (f r).token_hash ≡ r.token_hash)
      → ((r : Row) → is_none (f r).revoked_at ≡ false)
      → {t : Table} → IsWf t
      → IsWf (update_rows p f t)
  unfolding update_rows
  revoke-IsWf same_id same_family same_hash dies {t} w = record {
    ordered = Below-update p f same_id t.next_id t.rows w.ordered;
    consumed = All-update p f IsConsumed (λ r h. λ e. dies r) t.rows w.consumed;
    named =
        All-update p f (λ r. truthy r.family_id ≡ true) (λ r h. rw (same_family r) h) t.rows
          w.named;
    unique = Unique-update p f same_hash t.rows w.unique;
    single = λ family. omega (
      arith,
      w.single family,
      count-update-le p f (live_in family) (λ r h. absurd (ground (arith, dies r))) t.rows,
    );
  }

pub revoke_family-IsWf :
    (t : Table) (f reason : Text) (now : ℕ) → IsWf t → IsWf (revoke_family t f reason now).1
unfolding revoke_family
revoke_family-IsWf t f reason now w =
    revoke-IsWf (live_in f) (revoke_row reason now) (λ r. refl) (λ r. refl) (λ r. refl) (λ r. refl)
      w

pub revoke_all-IsWf :
    (t : Table) (user now : ℕ) (reason : Text)
    → IsWf t
    → IsWf (revoke_all_for_user t user reason now).1
unfolding revoke_all_for_user
revoke_all-IsWf t user now reason w =
    revoke-IsWf (live_of user) (revoke_row reason now) (λ r. refl) (λ r. refl) (λ r. refl)
      (λ r. refl) w

pub purge-IsWf : (t : Table) (days now : ℕ) → IsWf t → IsWf (purge_expired t days now).1
unfolding purge_expired delete_rows
purge-IsWf t days now w = record {
  ordered = Below-kept _ _ t.next_id t.rows w.ordered;
  consumed = All-kept _ _ IsConsumed (λ r h. ground (arith, h)) t.rows w.consumed;
  named = All-kept _ _ (λ r. truthy r.family_id ≡ true) (λ r h. h) t.rows w.named;
  unique = Unique-kept _ _ t.rows w.unique;
  single = λ family. omega (arith, w.single family, count-kept-le _ _ family t.rows);
}
