-- ===== src/Tokens/Tests.antt =====
-- Concrete refresh-token histories: one user logs in, refreshes, and the old token is replayed.
use quansec_pqc_platform.Prelude.{
  ℕ, ◌≤◌, ◌≡◌, refl, true, false, none, some, [], ◌∷◌, Text, eq_text, ◌==◌, codes, count,
}
use quansec_pqc_platform.Tokens.Rows.{User, Row, Table, empty, insert_row, update_rows}
use quansec_pqc_platform.Tokens.{
  Draws, Client, Context, context, Rotation, reuse_detected, revoked, rotated, issued, accept,
  decide, fetch, carry_out, live_in, issue_refresh_token, rotate_refresh_token, revoke_all_for_user,
  new_row, close_row,
}
use quansec_pqc_platform.Tokens.Steps.{IsWf}
use quansec_pqc_platform.Tokens.Rotate.{inserted, rotated_table, successor}
use quansec_pqc_platform.Tokens.History.{Reach, here, next, login, one_live_token, is_rotated}
use quansec_pqc_platform.Tokens.Theft.{single_use}
use quansec_pqc_platform.Tokens.Detection.{theft_detected, overlapping_refreshes}

-- A hash that is injective, in the place of SHA-256.
abbrev plain : Text → Text
plain t = t

abbrev alice : User
alice = record {
  id = 1;
  email = codes "a@x";
  role = codes "operator";
  portal = some (codes "tls");
  password_hash = codes "h";
  created_at = 0;
}

abbrev phone : Client
phone = record { user_agent = some (codes "ua"); ip_address = none; device_label = none }

abbrev draw : ℕ → Draws
draw n = record { raw = n ∷ []; token_id = n ∷ 1 ∷ []; family = n ∷ 2 ∷ [] }

abbrev AnyDraw : Draws → Type 0
AnyDraw d = Unit {0}

abbrev after_login : Table
after_login = inserted plain 7 empty 1 none none phone (draw 11) 100

abbrev first_row : Row
first_row = new_row plain 7 empty 1 none none phone (draw 11) 100

login_lem :
    issue_refresh_token plain 7 empty 1 none none phone (draw 11) 100
    ≡ some (issued plain 7 first_row (draw 11), after_login)
unfolding issue_refresh_token insert_row
login_lem = refl

logged_in : Reach plain 7 AnyDraw empty after_login
logged_in =
    next here
      (login 1 phone (draw 11) 100 (issued plain 7 first_row (draw 11)) tt refl refl login_lem)

one_live_token_example : IsWf after_login
one_live_token_example = one_live_token plain 7 AnyDraw logged_in

abbrev second_row : Row
second_row = successor plain 7 after_login (11 ∷ []) 200 first_row phone (draw 21)

abbrev after_refresh : Table
after_refresh = rotated_table plain 7 after_login (11 ∷ []) 200 first_row phone (draw 21)

abbrev refreshed : Rotation
refreshed =
    rotated (context first_row alice) first_row.token_id (issued plain 7 second_row (draw 21))

refresh_lem :
    rotate_refresh_token plain 7 (alice ∷ []) after_login (11 ∷ []) phone (draw 21) 200
    ≡ some (refreshed, after_refresh)
unfolding rotate_refresh_token insert_row update_rows eq_text
refresh_lem = refl

-- The old token again, in the table that the refresh left.
abbrev replayed : Table
replayed = (revoke_all_for_user after_refresh 1 (codes "reuse_detected") 300).1

replay_lem :
    rotate_refresh_token plain 7 (alice ∷ []) after_refresh (11 ∷ []) phone (draw 31) 300
    ≡ some (reuse_detected (context first_row alice) 1, replayed)
unfolding rotate_refresh_token revoke_all_for_user insert_row update_rows eq_text
replay_lem = refl

single_use_example : is_rotated (reuse_detected (context first_row alice) 1) ≡ false
single_use_example =
    single_use plain 7 (alice ∷ []) after_login (11 ∷ []) phone (draw 21) 200 refreshed
      after_refresh one_live_token_example refl refresh_lem (alice ∷ []) after_refresh phone
      (draw 31) 300 (reuse_detected (context first_row alice) 1) replayed here replay_lem

replaced_row : fetch (alice ∷ []) after_refresh (11 ∷ []) ≡ some (close_row 2 200 first_row, alice)
unfolding fetch eq_text
replaced_row = refl

theft_detected_example :
    (x y : Context) × (t₂ : Table) × (rotate_refresh_token plain 7
        (alice ∷ [])
        after_refresh
        (11 ∷ [])
        phone
        (draw 31)
        300
      ≡ some (reuse_detected x 1, t₂))
    × (rotate_refresh_token plain 7 (alice ∷ []) t₂ (21 ∷ []) phone (draw 41) 400
        ≡ some (revoked y (some (codes "reuse_detected")), t₂))
theft_detected_example =
    theft_detected plain 7 (alice ∷ []) after_login (11 ∷ []) phone (draw 21) 200 refreshed
      after_refresh one_live_token_example refl refresh_lem phone phone (draw 31) (draw 41) 300 400

accepted_lem :
    (now : ℕ)
    → now ≡ 200
    → decide (fetch (alice ∷ []) after_login (11 ∷ [])) now
      ≡ accept first_row (context first_row alice)
unfolding decide fetch eq_text
accepted_lem now e = rw e refl

first_write :
    carry_out plain 7 after_login (accept first_row (context first_row alice)) phone (draw 21) 200
    ≡ some (refreshed, after_refresh)
unfolding carry_out insert_row update_rows eq_text
first_write = refl

abbrev third_row : Row
third_row = new_row plain 7 after_refresh 1 (some first_row.family_id) (some 1) phone (draw 31) 200

abbrev after_both : Table
after_both =
    update_rows (λ q. q.id == 1) (close_row 3 200)
      (inserted plain 7 after_refresh 1 (some first_row.family_id) (some 1) phone (draw 31) 200)

abbrev refreshed_too : Rotation
refreshed_too =
    rotated (context first_row alice) first_row.token_id (issued plain 7 third_row (draw 31))

write_again :
    carry_out plain 7 after_refresh (accept first_row (context first_row alice)) phone (draw 31) 200
    ≡ some (refreshed_too, after_both)
unfolding carry_out insert_row update_rows eq_text
write_again = refl

overlapping_refreshes_example :
    (is_rotated refreshed ≡ true)
    × (is_rotated refreshed_too ≡ true)
    × (2 ≤ count (live_in first_row.family_id) after_both.rows)
overlapping_refreshes_example =
    overlapping_refreshes plain 7 (alice ∷ []) after_login (11 ∷ []) first_row
      (context first_row alice) phone phone (draw 21) (draw 31) 200 200 refreshed refreshed_too
      after_refresh after_both one_live_token_example (accepted_lem 200 refl)
      (accepted_lem 200 refl) first_write write_again
