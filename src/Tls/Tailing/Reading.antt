-- ===== src/Tls/Tailing/Reading.antt =====
-- quansec/protocols/tls/collector.py, `NginxLogReader.read_from`: what it gives on a log that grew.
use quansec_pqc_platform.Prelude.{
  ℕ, ◌+◌, ◌==◌, ltb, ◌≡◌, refl, ap, ◌∙◌, true, false, List, [], ◌∷◌, ◌++◌, Text, length, All, arith,
  Bool-cases, ==_iff, inl, inr,
}
use quansec_pqc_platform.Tls.Collector.{Python}
use quansec_pqc_platform.Tls.Tailing.{
  readable, encode, number_lines, end_position, read_lines, read_some, read_from, size,
  start_offset,
}
use quansec_pqc_platform.Tls.Tailing.Lines.{
  log_text, HasNoFeed, length-++, encode-++, from_offset-length, complete_lines-log_text,
}

no_bytes_left :
    (lines : List Text) (tail : Text) → length (encode (log_text lines tail)) ≡ 0 → lines ≡ []
unfolding log_text encode
no_bytes_left [] tail h = refl
no_bytes_left (line ∷ lines) tail h = absurd (omega (arith, more))
  where
    more :
        length (encode (line ++ 10 ∷ log_text lines tail))
        ≡ length (encode line) + length (encode (10 ∷ log_text lines tail))
    more =
        ap length (encode-++ line (10 ∷ log_text lines tail))
        ∙ length-++ (encode line) (encode (10 ∷ log_text lines tail))

nothing_new :
    (position : ℕ) (lines : List Text)
    → lines ≡ []
    → ◌≡◌ {A = List (ℕ × Text) × ℕ}
        ([], position)
        (number_lines position lines, end_position position lines)
unfolding number_lines end_position
nothing_new position lines e = rw e refl

-- The codec decodes what it encoded, for a text of characters that satisfy `P`.
module _ {Object : Type 0} (py : Python Object) (P : ℕ → Type 0)
    (decode-encode : (t : Text) → All P t → py.decode (encode t) ≡ t) where
  read_lines-behind :
      (xs : List ℕ) (lines : List Text) (tail : Text)
      → All HasNoFeed lines
      → HasNoFeed tail
      → All P (log_text lines tail)
      → read_lines py (readable (xs ++ encode (log_text lines tail))) (length xs)
        ≡ (number_lines (length xs) lines, end_position (length xs) lines)
  unfolding read_lines
  read_lines-behind xs lines tail feeds feed plain =
      rw
        (
          from_offset-length xs (encode (log_text lines tail)),
          decode-encode (log_text lines tail) plain,
          complete_lines-log_text lines tail feeds feed,
        )
        refl

  read_some-behind :
      (xs : List ℕ) (lines : List Text) (tail : Text)
      → All HasNoFeed lines
      → HasNoFeed tail
      → All P (log_text lines tail)
      → read_some py (readable (xs ++ encode (log_text lines tail))) (length xs)
        ≡ (number_lines (length xs) lines, end_position (length xs) lines)
  unfolding read_some size
  read_some-behind xs lines tail feeds feed plain =
      elim (Bool-cases (length (xs ++ encode (log_text lines tail)) == length xs)) [
        | inl full ↦ rw full (nothing_new (length xs) lines (none_left full))
        | inr more ↦ rw more (read_lines-behind xs lines tail feeds feed plain)
      ]
    where
      none_left : (length (xs ++ encode (log_text lines tail)) == length xs) ≡ true → lines ≡ []
      none_left full = no_bytes_left lines tail (
          ground (
            arith,
            length-++ xs (encode (log_text lines tail)),
            (==_iff (length (xs ++ encode (log_text lines tail))) (length xs)).0 full,
          ))

  -- A read at the end of the bytes `xs` of a log gives the complete lines behind them, with their
  -- positions, and the position of the first byte that it left.
  pub read_behind :
      (xs : List ℕ) (lines : List Text) (tail : Text)
      → All HasNoFeed lines
      → HasNoFeed tail
      → All P (log_text lines tail)
      → read_from py (readable (xs ++ encode (log_text lines tail))) (length xs)
        ≡ (number_lines (length xs) lines, end_position (length xs) lines)
  unfolding read_from start_offset size
  read_behind xs lines tail feeds feed plain =
      rw not_shorter (read_some-behind xs lines tail feeds feed plain)
    where
      not_shorter : ltb (length (xs ++ encode (log_text lines tail))) (length xs) ≡ false
      not_shorter = ground (arith, length-++ xs (encode (log_text lines tail)))
