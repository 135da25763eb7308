-- ===== src/Tls/Transcript.antt =====
-- quansec/protocols/tls/probe.py: what the patterns find in the transcript of the openssl client. Letters,
-- digits and white space are the ASCII ones.
use quansec_pqc_platform.Prelude.{
  ℕ, ◌+◌, ◌*◌, ◌-◌, Bool, true, ◌&&◌, not, Option, none, some, List, [], ◌∷◌, Text, codes, is_space,
  lower_code, strip, ◌==◌, leb, if◌then◌else◌, is_none,
}

-- The pieces of the patterns. A literal is in lower case, for a match that ignores case.
pub data Piece : Type 0 where
  literal : Text → Piece
  some_space : Piece
  any_space : Piece

unfoldable pub after_literal : Text → Text → Option Text
unfolding lower_code
after_literal [] t = some t
after_literal (c ∷ p) [] = none
after_literal (c ∷ p) (d ∷ t) = if lower_code d == c then after_literal p t else none

unfoldable pub skip_space : Text → Text
unfolding is_space
skip_space [] = []
skip_space (c ∷ t) = if is_space c then skip_space t else c ∷ t

unfoldable pub after_space : Text → Option Text
unfolding skip_space
after_space [] = none
after_space (c ∷ t) = if is_space c then some (skip_space t) else none

abbrev and_then : Option Text → (Text → Option Text) → Option Text
and_then none f = none
and_then (some t) f = f t

unfoldable pub after_pieces : List Piece → Text → Option Text
unfolding after_literal after_space
after_pieces [] t = some t
after_pieces (literal p ∷ ps) t = and_then (after_literal p t) (after_pieces ps)
after_pieces (some_space ∷ ps) t = and_then (after_space t) (after_pieces ps)
after_pieces (any_space ∷ ps) t = after_pieces ps (skip_space t)

unfoldable pub word_of : Text → Text
unfolding is_space
word_of [] = []
word_of (c ∷ t) = if is_space c then [] else c ∷ word_of t

unfoldable pub line_of : Text → Text
line_of [] = []
line_of (c ∷ t) = if c == 10 then [] else c ∷ line_of t

abbrev pub not_empty : Text → Option Text
not_empty [] = none
not_empty (c ∷ t) = some (c ∷ t)

-- The first place at which the pattern is found.
unfoldable pub search_text : (Text → Option Text) → Text → Option Text
search_text f [] = f []
search_text f (c ∷ t) = if is_none (f (c ∷ t)) then search_text f t else f (c ∷ t)

unfoldable pub word_after : List Piece → Text → Option Text
unfolding after_pieces word_of search_text
word_after ps = search_text (λ t. and_then (after_pieces ps t) (λ rest. not_empty (word_of rest)))

abbrev pub group_pattern : List Piece
group_pattern =
    literal (codes "negotiated")
    ∷ some_space
    ∷ literal (codes "tls1.3")
    ∷ some_space
    ∷ literal (codes "group:")
    ∷ any_space
    ∷ []

abbrev first_of : Option Text → Option Text → Option Text
first_of none o = o
first_of (some t) o = some t

-- Verification(?: error)?:\s*(.+)
unfoldable pub verification_of : Text → Option Text
unfolding after_pieces line_of search_text strip
verification_of = search_text (λ t.
    and_then
      (first_of (after_pieces (literal (codes "verification error:") ∷ any_space ∷ []) t)
        (after_pieces (literal (codes "verification:") ∷ any_space ∷ []) t))
      (λ rest. not_empty (strip (line_of rest))))

abbrev is_digit : ℕ → Bool
is_digit c = leb 48 c && leb c 57

unfoldable pub three_digits : Text → Option ℕ
three_digits [] = none
three_digits (a ∷ []) = none
three_digits (a ∷ (b ∷ [])) = none
three_digits (a ∷ (b ∷ (c ∷ t))) =
    if is_digit a && is_digit b && is_digit c
    then some (100 * (a - 48) + 10 * (b - 48) + (c - 48))
    else none

abbrev status_after : Option Text → Option ℕ
status_after none = none
status_after (some t) = three_digits t

unfoldable pub without_prefix : Text → Text → Option Text
without_prefix [] t = some t
without_prefix (c ∷ p) [] = none
without_prefix (c ∷ p) (d ∷ t) = if d == c then without_prefix p t else none

-- What follows \d\.\d
unfoldable pub after_version : Text → Option Text
after_version [] = none
after_version (a ∷ []) = none
after_version (a ∷ (dot ∷ [])) = none
after_version (a ∷ (dot ∷ (b ∷ t))) = if is_digit a && dot == 46 && is_digit b then some t else none

-- HTTP/\d\.\d\s+(\d{3}) at the beginning of the text.
unfoldable pub status_line : Text → Option ℕ
unfolding after_space three_digits after_version without_prefix
status_line t =
    status_after (and_then (and_then (without_prefix (codes "HTTP/") t) after_version) after_space)

unfoldable pub status_from : Bool → Text → Option ℕ
unfolding status_line
status_from at_line [] = none
status_from at_line (c ∷ t) =
    let rest = status_from (c == 10) t in
    if at_line && not (is_none (status_line (c ∷ t))) then status_line (c ∷ t) else rest

-- _http_status
unfoldable pub http_status : Text → Option ℕ
unfolding status_from
http_status text = status_from true text
