-- ===== src/Tls/Tailing/Inserts.antt =====
-- quansec/protocols/tls/collector.py, `insert_sessions`: the conflict clause on (log_source, log_offset).
use mathlib.Core.List.{append_assoc, append-nil}
use quansec_pqc_platform.Prelude.{
  ℕ, zero, suc, ◌+◌, ◌≤◌, ◌<◌, ◌≡◌, refl, sym, ap, ◌∙◌, ◌⊎◌, true, false, List, [], ◌∷◌, ◌++◌, map,
  Text, eq_text_refl, eq_text_sound, length, take, any, All, arith, Bool-cases, Bool, inl, inr,
  if◌then◌else◌,
}
use quansec_pqc_platform.Tls.Collector.{ParsedSession}
use quansec_pqc_platform.Tls.Tailing.{
  SessionRow, same_place, log_row, insert_session, insert_sessions, inserted_count,
}

pub length-insert_session :
    (s : ParsedSession) (rows : List SessionRow)
    → length (insert_session s rows) ≡ length rows + (if any (same_place s) rows then 0 else 1)
unfolding insert_session
length-insert_session s rows = by_test (any (same_place s) rows)
  where
    by_snoc : (rs : List SessionRow) → length (rs ++ log_row s ∷ []) ≡ length rs + 1
    by_snoc [] = omega arith
    by_snoc (r ∷ rs) = ground (arith, by_snoc rs)

    by_test :
        (b : Bool)
        → length (if b then rows else rows ++ log_row s ∷ []) ≡ length rows + (if b then 0 else 1)
    by_test true = omega arith
    by_test false = by_snoc rows

-- What it returns is by how many rows the table has grown.
pub length-insert_sessions :
    (sessions : List ParsedSession) (rows : List SessionRow)
    → length (insert_sessions sessions rows) ≡ length rows + inserted_count sessions rows
unfolding insert_sessions inserted_count
length-insert_sessions [] rows = omega arith
length-insert_sessions (s ∷ sessions) rows =
    omega
      (arith, length-insert_sessions sessions (insert_session s rows), length-insert_session s rows)

abbrev pub larger : ℕ → ℕ → ℕ
larger zero j = j
larger (suc k) zero = suc k
larger (suc k) (suc j) = suc (larger k j)

pub take-long {ℓ} : {A : Type ℓ} (n : ℕ) (xs : List A) → length xs ≤ n → take n xs ≡ xs
take-long zero [] h = refl
take-long zero (x ∷ xs) h = absurd (omega arith)
take-long (suc n) [] h = refl
take-long (suc n) (x ∷ xs) h = ap (λ l. x ∷ l) (take-long n xs (omega arith))

take-nil {ℓ} : {A : Type ℓ} (n : ℕ) → take {A = A} n [] ≡ []
take-nil zero = refl
take-nil (suc n) = refl

larger_zero : (k : ℕ) → larger k 0 ≡ k
larger_zero zero = refl
larger_zero (suc k) = refl

pub larger_le : (k n : ℕ) → k ≤ n → larger k n ≡ n
larger_le zero n h = refl
larger_le (suc k) zero h = absurd (omega arith)
larger_le (suc k) (suc n) h = ap suc (larger_le k n (omega arith))

module _ (source : Text) where
  -- The rows that come from the log have an offset under `bound`.
  unfoldable pub Below : ℕ → List SessionRow → Type 0
  Below bound =
      All (λ (r : SessionRow). r.session.log_source ≡ source → r.session.log_offset < bound)

  -- Sessions of the log, with offsets that grow from `bound` on.
  unfoldable pub Ascends : ℕ → List ParsedSession → Type 0
  Ascends bound [] = Unit
  Ascends bound (s ∷ sessions) =
      (s.log_source ≡ source) × (bound ≤ s.log_offset) × Ascends (suc s.log_offset) sessions

  absent :
      (bound : ℕ) (s : ParsedSession) (rows : List SessionRow)
      → s.log_source ≡ source
      → bound ≤ s.log_offset
      → Below bound rows
      → any (same_place s) rows ≡ false
  unfolding Below same_place
  absent bound s [] e h b = refl
  absent bound s (r ∷ rows) e h (below, b) =
      ground (arith, absent bound s rows e h b, differs (Bool-cases (same_place s r)))
    where
      differs : (same_place s r ≡ true) ⊎ (same_place s r ≡ false) → same_place s r ≡ false
      differs (inr other) = other
      differs (inl same) =
          absurd (grind (arith, eq_text_sound r.session.log_source s.log_source, below))

  present :
      (s : ParsedSession) (rows rest : List SessionRow)
      → any (same_place s) (rows ++ log_row s ∷ rest) ≡ true
  unfolding same_place log_row
  present s [] rest = ground (arith, eq_text_refl s.log_source)
  present s (r ∷ rows) rest = ground (arith, present s rows rest)

  insert_absent :
      (bound : ℕ) (s : ParsedSession) (rows : List SessionRow)
      → s.log_source ≡ source
      → bound ≤ s.log_offset
      → Below bound rows
      → insert_session s rows ≡ rows ++ log_row s ∷ []
  unfolding insert_session
  insert_absent bound s rows e h b = rw (absent bound s rows e h b) refl

  insert_present :
      (s : ParsedSession) (rows rest : List SessionRow)
      → insert_session s (rows ++ log_row s ∷ rest) ≡ rows ++ log_row s ∷ rest
  unfolding insert_session
  insert_present s rows rest = rw (present s rows rest) refl

  pub Below-snoc :
      (bound : ℕ) (s : ParsedSession) (rows : List SessionRow)
      → bound ≤ s.log_offset
      → Below bound rows
      → Below (suc s.log_offset) (rows ++ log_row s ∷ [])
  unfolding Below log_row
  Below-snoc bound s [] h b = (λ e. omega arith, tt)
  Below-snoc bound s (r ∷ rows) h (below, b) =
      (λ e. omega (arith, below e), Below-snoc bound s rows h b)

  -- With a prefix of the sessions in the table, inserting a prefix leaves the longer of the two.
  pub insert_prefix :
      (bound k j : ℕ) (sessions : List ParsedSession) (rows : List SessionRow)
      → Ascends bound sessions
      → Below bound rows
      → insert_sessions (take j sessions) (rows ++ map log_row (take k sessions))
        ≡ rows ++ map log_row (take (larger k j) sessions)
  unfolding insert_sessions Ascends
  insert_prefix bound k zero sessions rows up below = rw (larger_zero k) refl
  insert_prefix bound k (suc j) [] rows up below =
      rw (take-nil {A = ParsedSession} k, take-nil {A = ParsedSession} (larger k (suc j))) refl
  insert_prefix bound zero (suc j) (s ∷ sessions) rows (e, from, up) below =
      ap (insert_sessions (s ∷ take j sessions)) (append-nil rows)
      ∙ ap (insert_sessions (take j sessions))
          (insert_absent bound s rows e from below ∙ sym (append-nil (rows ++ log_row s ∷ [])))
      ∙ insert_prefix (suc s.log_offset) zero j sessions (rows ++ log_row s ∷ []) up
          (Below-snoc bound s rows from below)
      ∙ append_assoc rows (log_row s ∷ []) (map log_row (take j sessions))
  insert_prefix bound (suc k) (suc j) (s ∷ sessions) rows (e, from, up) below =
      ap (insert_sessions (take j sessions)) (
        insert_present s rows (map log_row (take k sessions))
        ∙ sym (append_assoc rows (log_row s ∷ []) (map log_row (take k sessions))))
      ∙ insert_prefix (suc s.log_offset) k j sessions (rows ++ log_row s ∷ []) up
          (Below-snoc bound s rows from below)
      ∙ append_assoc rows (log_row s ∷ []) (map log_row (take (larger k j) sessions))
