-- ===== src/Tls/Tailing/Visits.antt =====
-- quansec/protocols/tls/collector.py: collection cycles on a log that grows, some of them cut off.
use quansec_pqc_platform.Prelude.{
  ℕ, zero, suc, ◌==◌, ◌≡◌, refl, ap, ◌∙◌, true, false, Option, none, some, List, [], ◌∷◌, ◌++◌,
  Text, eq_text, eq_text_refl, length, take, All, Bool-cases, inl, inr,
}
use quansec_pqc_platform.Tls.Collector.{Python}
use quansec_pqc_platform.Tls.Tailing.{
  LogFile, readable, LogDb, encode, read_from, read_offset, write_offset, ingest, collect,
  collect_once, cut_off,
}
use quansec_pqc_platform.Tls.Tailing.Lines.{log_text, HasNoFeed}

-- The lines that were written since the last cycle, the part of a line behind them, and the number of
-- statements after which the cycle is cut off.
pub record Visit : Type 0 where
  pub written : List Text
  pub partial : Text
  pub cut : Option ℕ

pub read_offset-write_offset :
    (source : Text) (n : ℕ) (offsets : List (Text × ℕ))
    → read_offset source (write_offset source n offsets) ≡ n
unfolding read_offset write_offset
read_offset-write_offset source n [] = rw (eq_text_refl source) refl
read_offset-write_offset source n ((s, m) ∷ rest) = elim (Bool-cases (eq_text s source)) [
  | inl same ↦ rw (same, same) refl
  | inr other ↦ rw (other, other) (read_offset-write_offset source n rest)
]

pub take-length {ℓ} : {A : Type ℓ} (xs ys : List A) → take (length xs) (xs ++ ys) ≡ xs
take-length [] ys = refl
take-length (x ∷ xs) ys = ap (λ l. x ∷ l) (take-length xs ys)

pub rest_of {ℓ} : {A : Type ℓ} (n : ℕ) (xs : List A) → (ys : List A) × (xs ≡ take n xs ++ ys)
rest_of zero xs = (xs, refl)
rest_of (suc n) [] = ([], refl)
rest_of (suc n) (x ∷ xs) = let (ys, e) = rest_of n xs in (ys, ap (λ l. x ∷ l) e)

module _ (P : ℕ → Type 0) where
  -- Characters that the codec keeps, no line feed among them.
  abbrev pub IsPlain : Text → Type 0
  IsPlain = All (λ c. P c × ((c == 10) ≡ false))

  abbrev pub IsPlainVisit : Visit → Type 0
  IsPlainVisit v = All IsPlain v.written × IsPlain v.partial

  pub no_feed : (t : Text) → IsPlain t → HasNoFeed t
  no_feed [] h = tt
  no_feed (c ∷ t) ((p, e), h) = (e, no_feed t h)

  pub no_feeds : (lines : List Text) → All IsPlain lines → All HasNoFeed lines
  no_feeds [] h = tt
  no_feeds (line ∷ lines) (h, hs) = (no_feed line h, no_feeds lines hs)

  pub All-append : (us vs : List Text) → All IsPlain us → All IsPlain vs → All IsPlain (us ++ vs)
  All-append [] vs h k = k
  All-append (u ∷ us) vs (h, hs) k = (h, All-append us vs hs k)

  plain_tail : (t rest : Text) → IsPlain t → All P rest → All P (t ++ rest)
  plain_tail [] rest h r = r
  plain_tail (c ∷ t) rest ((p, e), h) r = (p, plain_tail t rest h r)

  keeps : (t : Text) → IsPlain t → All P t
  keeps [] h = tt
  keeps (c ∷ t) ((p, e), h) = (p, keeps t h)

  pub plain_log :
      (lines : List Text) (tail : Text)
      → P 10
      → All IsPlain lines
      → IsPlain tail
      → All P (log_text lines tail)
  unfolding log_text
  plain_log [] tail p h t = keeps tail t
  plain_log (line ∷ lines) tail p (h, hs) t =
      plain_tail line (10 ∷ log_text lines tail) h (p, plain_log lines tail p hs t)

module _ {Object : Type 0} (py : Python Object) (source : Text) where
  -- The cycle of a visit, on the log `file`.
  unfoldable pub cycle : Option ℕ → LogFile → LogDb → LogDb
  cycle none file db = let (n, after) = collect_once py source true file db in after
  cycle (some n) file db = cut_off py source n file db

  unfoldable pub after_ingest : ℕ → List (ℕ × Text) → ℕ → LogDb → LogDb
  after_ingest offset lines new_offset db =
      let (n, after) = ingest py source offset lines new_offset db in after

  pub cycle-ingest :
      (bytes : List ℕ) (db : LogDb) (offset : ℕ) (lines : List (ℕ × Text)) (new_offset : ℕ)
      → read_offset source db.offsets ≡ offset
      → read_from py (readable bytes) offset ≡ (lines, new_offset)
      → cycle none (readable bytes) db ≡ after_ingest offset lines new_offset db
  unfolding cycle after_ingest collect_once collect
  cycle-ingest bytes db offset lines new_offset e r =
      ap (λ o. collected o (read_from py (readable bytes) o)) e ∙ ap (collected offset) r
    where
      collected : ℕ → List (ℕ × Text) × ℕ → LogDb
      collected o (found, next) = let (n, after) = ingest py source o found next db in after

  unfoldable pub visit_all : List Text → List Visit → LogDb → LogDb
  unfolding cycle
  visit_all lines [] db = db
  visit_all lines (v ∷ visits) db =
      visit_all (lines ++ v.written) visits
        (cycle v.cut (readable (encode (log_text (lines ++ v.written) v.partial))) db)

unfoldable pub all_lines : List Text → List Visit → List Text
all_lines lines [] = lines
all_lines lines (v ∷ visits) = all_lines (lines ++ v.written) visits
