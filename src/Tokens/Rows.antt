-- ===== src/Tokens/Rows.antt =====
-- The tables `users` and `refresh_tokens`, and the statements on the latter that the program runs.
use quansec_pqc_platform.Prelude.{
  ℕ, suc, Bool, ◌||◌, Option, none, some, List, [], ◌∷◌, map, Text, eq_text, any, keep, count, ◌==◌,
  not, if◌then◌else◌,
}

pub record User : Type 0 where
  pub id : ℕ
  pub email : Text
  pub role : Text
  pub portal : Option Text
  pub password_hash : Text
  pub created_at : ℕ

pub record Row : Type 0 where
  pub id : ℕ
  pub token_id : Text
  pub family_id : Text
  pub user_id : ℕ
  pub token_hash : Text
  pub parent_id : Option ℕ
  pub replaced_by : Option ℕ
  pub issued_at : ℕ
  pub expires_at : ℕ
  pub last_used_at : Option ℕ
  pub revoked_at : Option ℕ
  pub revoked_reason : Option Text
  pub user_agent : Option Text
  pub ip_address : Option Text
  pub device_label : Option Text

-- The newest row stands first; ids come from a sequence.
pub record Table : Type 0 where
  pub rows : List Row
  pub next_id : ℕ

abbrev pub empty : Table
empty = record { rows = []; next_id = 1 }

-- UNIQUE (token_hash) and UNIQUE (token_id)
abbrev pub clashes : Row → Row → Bool
clashes r q = eq_text q.token_hash r.token_hash || eq_text q.token_id r.token_id

unfoldable pub insert_row : Table → Row → Option Table
insert_row t r =
    if any (clashes r) t.rows
    then none
    else some (record { rows = r ∷ t.rows; next_id = suc t.next_id })

abbrev pub update_list : (Row → Bool) → (Row → Row) → List Row → List Row
update_list p f [] = []
update_list p f (r ∷ rs) = (if p r then f r else r) ∷ update_list p f rs

unfoldable pub update_rows : (Row → Bool) → (Row → Row) → Table → Table
update_rows p f t = record t { rows = update_list p f t.rows }

-- The row count of a statement.
abbrev pub matching : (Row → Bool) → Table → ℕ
matching p t = count p t.rows

abbrev unlink_id : List Row → Option ℕ → Option ℕ
unlink_id gone none = none
unlink_id gone (some i) = if any (λ r. r.id == i) gone then none else some i

-- ON DELETE SET NULL of `parent_id` and `replaced_by`
abbrev pub unlink : List Row → Row → Row
unlink gone r = record r {
  parent_id = unlink_id gone r.parent_id;
  replaced_by = unlink_id gone r.replaced_by;
}

unfoldable pub delete_rows : (Row → Bool) → Table → Table
delete_rows p t = record t { rows = map (unlink (keep p t.rows)) (keep (λ r. not (p r)) t.rows) }
