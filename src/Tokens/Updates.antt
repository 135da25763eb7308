-- ===== src/Tokens/Updates.antt =====
-- What an UPDATE, an INSERT and a DELETE do to counts and to properties of all rows.
use quansec_pqc_platform.Prelude.{
  ℕ, ◌+◌, ◌≤◌, ◌<◌, ◌≡◌, refl, subst, Bool, true, false, some, List, [], ◌∷◌, map, Text, eq_text,
  any, keep, count, find, All, arith, ◌==◌, is_none, if◌then◌else◌, Bool-cases, inl, inr, ◌⊎◌, sym,
}
use quansec_pqc_platform.Tokens.Rows.{Row, update_list, unlink, clashes}
use quansec_pqc_platform.Tokens.{live_in, close_row}

-- Ids fall along the list and stay under the bound.
abbrev pub Below : ℕ → List Row → Type 0
Below n [] = Unit {0}
Below n (r ∷ rs) = (r.id < n) × Below r.id rs

pub Below-mono : (m n : ℕ) (rs : List Row) → m ≤ n → Below m rs → Below n rs
Below-mono m n [] h b = tt
Below-mono m n (r ∷ rs) h b = (omega arith, b.1)

module _ (p : Row → Bool) (f : Row → Row) where
  pub Below-update :
      ((r : Row) → (f r).id ≡ r.id)
      → (n : ℕ) (rs : List Row) → Below n rs
      → Below n (update_list p f rs)
  Below-update k n [] b = tt
  Below-update k n (r ∷ rs) b = elim (Bool-cases (p r)) [
    | inl e ↦ rw (e, k r) (b.0, Below-update k r.id rs b.1)
    | inr e ↦ rw e (b.0, Below-update k r.id rs b.1)
  ]

  pub All-update {ℓ} :
      (P : Row → Type ℓ)
      → ((r : Row) → P r → P (f r))
      → (rs : List Row) → All P rs
      → All P (update_list p f rs)
  All-update P k [] a = tt
  All-update P k (r ∷ rs) a = elim (Bool-cases (p r)) [
    | inl e ↦ rw e (k r a.0, All-update P k rs a.1)
    | inr e ↦ rw e (a.0, All-update P k rs a.1)
  ]

  -- A test that no update makes true holds of no more rows afterwards.
  pub count-update-le :
      (q : Row → Bool)
      → ((r : Row) → q (f r) ≡ true → q r ≡ true)
      → (rs : List Row) → count q (update_list p f rs) ≤ count q rs
  count-update-le q k [] = omega arith
  count-update-le q k (r ∷ rs) = ground (arith, k r, count-update-le q k rs)

  -- An update of every row that passes a test, to rows that fail it, leaves none.
  pub count-update_zero :
      (q : Row → Bool)
      → ((r : Row) → q r ≡ true → p r ≡ true)
      → ((r : Row) → q (f r) ≡ false)
      → (rs : List Row) → count q (update_list p f rs) ≡ 0
  count-update_zero q all_q none_q [] = refl
  count-update_zero q all_q none_q (r ∷ rs) =
      ground (arith, all_q r, none_q r, count-update_zero q all_q none_q rs)

module _ (i : ℕ) (f : Row → Row) where
  -- An update by an id that lies above all rows changes nothing.
  pub update_above :
      (n : ℕ) (rs : List Row) → Below n rs → n ≤ i → update_list (λ q. q.id == i) f rs ≡ rs
  update_above n [] b h = refl
  update_above n (r ∷ rs) b h = ground (arith, update_above r.id rs b.1)

pub find-Below :
    (p : Row → Bool) (n : ℕ) (rs : List Row) {r : Row} → Below n rs → find p rs ≡ some r → r.id < n
find-Below p n [] b e = ground arith
find-Below p n (x ∷ rs) {r} b e = elim (Bool-cases (p x)) [
  | inl h ↦ ground arith
  | inr h ↦ let k = find-Below p x.id rs {r = r} b.1 (ground arith) in omega arith
]

pub All-find {ℓ} :
    (P : Row → Type ℓ) (p : Row → Bool) (rs : List Row) {r : Row}
    → All P rs
    → find p rs ≡ some r
    → P r
All-find P p [] a e = absurd (ground arith)
All-find P p (x ∷ rs) {r} a e = elim (Bool-cases (p x)) [
  | inl h ↦ subst P (ground arith) a.0
  | inr h ↦ All-find P p rs {r = r} a.1 (ground arith)
]

abbrev pub one_if : Bool → ℕ
one_if true = 1
one_if false = 0

-- UNIQUE (token_hash): no two rows share a hash.
abbrev pub Unique : List Row → Type 0
Unique [] = Unit {0}
Unique (r ∷ rs) = All (λ q. eq_text q.token_hash r.token_hash ≡ false) rs × Unique rs

pub Unique-update :
    (p : Row → Bool) (f : Row → Row)
    → ((r : Row) → (f r).token_hash ≡ r.token_hash)
    → (rs : List Row) → Unique rs
    → Unique (update_list p f rs)
Unique-update p f k [] u = tt
Unique-update p f k (r ∷ rs) u = (
  subst (λ (h : Text). All (λ q. eq_text q.token_hash h ≡ false) (update_list p f rs))
      (same_hash r (Bool-cases (p r)))
      (All-update p f (λ q. eq_text q.token_hash r.token_hash ≡ false) (λ q e. rw (k q) e) rs u.0),
  Unique-update p f k rs u.1,
)
  where
    same_hash :
        (r : Row)
        → (p r ≡ true) ⊎ (p r ≡ false)
        → r.token_hash ≡ (if p r then f r else r).token_hash
    same_hash r (inl e) = rw e (sym (k r))
    same_hash r (inr e) = rw e

pub no_clash :
    (r : Row) (rs : List Row)
    → any (clashes r) rs ≡ false
    → All (λ q. eq_text q.token_hash r.token_hash ≡ false) rs
no_clash r [] h = tt
no_clash r (q ∷ rs) h = (ground arith, no_clash r rs (ground arith))

-- Closing the live row that a search finds takes one live row from its family.
pub count-close :
    (p : Row → Bool) (successor now n : ℕ) (family : Text) (rs : List Row) {r : Row}
    → Below n rs
    → find p rs ≡ some r
    → is_none r.revoked_at ≡ true
    → count (live_in family) (update_list (λ q. q.id == r.id) (close_row successor now) rs)
        + one_if (eq_text r.family_id family)
      ≡ count (live_in family) rs
count-close p successor now n family [] b e v = absurd (ground arith)
count-close p successor now n family (x ∷ rs) {r} b e v = elim (Bool-cases (p x)) [
  | inl h ↦ ground (arith, update_above r.id (close_row successor now) x.id rs b.1)
  | inr h ↦
      let e' : find p rs ≡ some r = ground arith in
      ground (
        arith,
        find-Below p x.id rs {r = r} b.1 e',
        count-close p successor now x.id family rs {r = r} b.1 e' v,
      )
]

-- A DELETE keeps the order of ids, what holds of all rows, and counts no more rows.
module _ (gone : List Row) (stays : Row → Bool) where
  abbrev kept : List Row → List Row
  kept rs = map (unlink gone) (keep stays rs)

  pub Below-kept : (n : ℕ) (rs : List Row) → Below n rs → Below n (kept rs)
  Below-kept n [] b = tt
  Below-kept n (r ∷ rs) b = elim (Bool-cases (stays r)) [
    | inl e ↦ rw e (b.0, Below-kept r.id rs b.1)
    | inr e ↦ rw e (Below-kept n rs (Below-mono r.id n rs (omega arith) b.1))
  ]

  pub All-kept {ℓ} :
      (P : Row → Type ℓ)
      → ((r : Row) → P r → P (unlink gone r))
      → (rs : List Row) → All P rs
      → All P (kept rs)
  All-kept P k [] a = tt
  All-kept P k (r ∷ rs) a = elim (Bool-cases (stays r)) [
    | inl e ↦ rw e (k r a.0, All-kept P k rs a.1)
    | inr e ↦ rw e (All-kept P k rs a.1)
  ]

  pub Unique-kept : (rs : List Row) → Unique rs → Unique (kept rs)
  Unique-kept [] u = tt
  Unique-kept (r ∷ rs) u = elim (Bool-cases (stays r)) [
    | inl e ↦ rw e (
      All-kept (λ q. eq_text q.token_hash r.token_hash ≡ false) (λ q k. k) rs u.0,
      Unique-kept rs u.1,
    )
    | inr e ↦ rw e (Unique-kept rs u.1)
  ]

  pub count-kept-le :
      (f : Text) (rs : List Row) → count (live_in f) (kept rs) ≤ count (live_in f) rs
  count-kept-le f [] = omega arith
  count-kept-le f (r ∷ rs) = ground (arith, count-kept-le f rs)

-- A search that finds a row finds one that passes the test.
pub find_passes : (p : Row → Bool) (rs : List Row) {r : Row} → find p rs ≡ some r → p r ≡ true
find_passes p [] e = absurd (ground arith)
find_passes p (x ∷ rs) {r} e = elim (Bool-cases (p x)) [
  | inl h ↦ subst (λ (y : Row). p y ≡ true) (ground arith) h
  | inr h ↦ find_passes p rs {r = r} (ground arith)
]

-- A row that is found before an update of its id is found after it, updated, if the update leaves the
-- searched columns.
pub find-update :
    (q : Row → Bool) (f : Row → Row) (n : ℕ) (rs : List Row) {r : Row}
    → ((x : Row) → q (f x) ≡ q x)
    → Below n rs
    → find q rs ≡ some r
    → find q (update_list (λ x. x.id == r.id) f rs) ≡ some (f r)
find-update q f n [] k b e = absurd (ground arith)
find-update q f n (x ∷ rs) {r} k b e = elim (Bool-cases (q x)) [
  | inl h ↦ ground (arith, k x)
  | inr h ↦
      let e' : find q rs ≡ some r = ground arith in
      ground (arith, find-Below q x.id rs {r = r} b.1 e', find-update q f x.id rs {r = r} k b.1 e')
]
