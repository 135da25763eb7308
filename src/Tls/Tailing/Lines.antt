-- ===== src/Tls/Tailing/Lines.antt =====
-- quansec/protocols/tls/collector.py: the bytes of a log made of lines, and what the tailer's split, seek and
-- position give on them.
use mathlib.Core.List.{append_assoc}
use quansec_pqc_platform.Prelude.{
  ℕ, ◌+◌, ◌==◌, ◌≡◌, refl, ap, sym, false, List, [], ◌∷◌, ◌++◌, Text, length, All, arith,
}
use quansec_pqc_platform.Tls.Tailing.{
  encode, utf8, from_offset, complete_lines, number_lines, end_position,
}

-- A log: complete lines, each ended by a line feed, and what follows the last of them.
unfoldable pub log_text : List Text → Text → Text
log_text [] tail = tail
log_text (line ∷ lines) tail = line ++ 10 ∷ log_text lines tail

pub length-++ {ℓ} : {A : Type ℓ} (xs ys : List A) → length (xs ++ ys) ≡ length xs + length ys
length-++ [] ys = omega arith
length-++ (x ∷ xs) ys = ground (arith, length-++ xs ys)

pub encode-++ : (s t : Text) → encode (s ++ t) ≡ encode s ++ encode t
unfolding encode
encode-++ [] t = refl
encode-++ (c ∷ s) t = rw (encode-++ s t) (sym (append_assoc (utf8 c) (encode s) (encode t)))

pub from_offset-length : (xs ys : List ℕ) → from_offset (length xs) (xs ++ ys) ≡ ys
unfolding from_offset
from_offset-length [] ys = refl
from_offset-length (x ∷ xs) ys = from_offset-length xs ys

pub log_text-++ :
    (us vs : List Text) (tail : Text)
    → log_text (us ++ vs) tail ≡ log_text us [] ++ log_text vs tail
unfolding log_text
log_text-++ [] vs tail = refl
log_text-++ (u ∷ us) vs tail =
    rw (log_text-++ us vs tail) (sym (append_assoc u (10 ∷ log_text us []) (log_text vs tail)))

abbrev pub HasNoFeed : Text → Type 0
HasNoFeed = All (λ c. (c == 10) ≡ false)

split_tail : (tail : Text) → HasNoFeed tail → complete_lines tail ≡ ([], tail)
unfolding complete_lines
split_tail [] h = refl
split_tail (c ∷ tail) (no_feed, h) = rw (split_tail tail h, no_feed) refl

split_line :
    (line rest : Text) (lines : List Text) (tail : Text)
    → HasNoFeed line
    → complete_lines rest ≡ (lines, tail)
    → complete_lines (line ++ 10 ∷ rest) ≡ (line ∷ lines, tail)
unfolding complete_lines
split_line [] rest lines tail h e = rw e refl
split_line (c ∷ line) rest lines tail (no_feed, h) e =
    rw (split_line line rest lines tail h e, no_feed) refl

pub complete_lines-log_text :
    (lines : List Text) (tail : Text)
    → All HasNoFeed lines
    → HasNoFeed tail
    → complete_lines (log_text lines tail) ≡ (lines, tail)
unfolding log_text
complete_lines-log_text [] tail h t = split_tail tail t
complete_lines-log_text (line ∷ lines) tail (h, hs) t =
    split_line line (log_text lines tail) lines tail h (complete_lines-log_text lines tail hs t)

length-encode_line :
    (line rest : Text)
    → length (encode (line ++ 10 ∷ rest)) ≡ length (encode line) + 1 + length (encode rest)
unfolding encode utf8
length-encode_line line rest =
    rw (encode-++ line (10 ∷ rest), length-++ (encode line) (10 ∷ encode rest)) (omega arith)

pub end_position-log_text :
    (position : ℕ) (lines : List Text)
    → end_position position lines ≡ position + length (encode (log_text lines []))
unfolding end_position log_text
end_position-log_text position [] = ground (arith, encode)
end_position-log_text position (line ∷ lines) = ground (
  arith,
  end_position-log_text (position + (length (encode line) + 1)) lines,
  length-encode_line line (log_text lines []),
)

pub end_position-++ :
    (position : ℕ) (us vs : List Text)
    → end_position position (us ++ vs) ≡ end_position (end_position position us) vs
unfolding end_position
end_position-++ position [] vs = refl
end_position-++ position (u ∷ us) vs = end_position-++ (position + (length (encode u) + 1)) us vs

pub number_lines-++ :
    (position : ℕ) (us vs : List Text)
    → number_lines position (us ++ vs)
      ≡ number_lines position us ++ number_lines (end_position position us) vs
unfolding number_lines end_position
number_lines-++ position [] vs = refl
number_lines-++ position (u ∷ us) vs =
    ap (λ l. (position, u) ∷ l) (number_lines-++ (position + (length (encode u) + 1)) us vs)
