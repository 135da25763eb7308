-- ===== src/Tls/Tailing/Tests.antt =====
-- A log of ASCII lines that grows while cycles are cut off.
use quansec_pqc_platform.Prelude.{
  eq_text, ℕ, ◌≡◌, refl, Bool, true, ltb, ◌==◌, ◌&&◌, not, none, some, List, [], ◌∷◌, ◌++◌, map,
  Text, codes, truthy, All, all, arith,
}
use quansec_pqc_platform.Json.{pos}
use quansec_pqc_platform.Tls.Collector.{Python, session_of}
use quansec_pqc_platform.Tls.Tailing.{
  collect_once, readable, LogDb, log_row, encode, utf8, read_offset, read_from, read_some,
  read_lines, start_offset, size, complete_lines, number_lines, end_position, from_offset,
}
use quansec_pqc_platform.Tls.Tailing.Lines.{log_text}
use quansec_pqc_platform.Tls.Tailing.Inserts.{Below}
use quansec_pqc_platform.Tls.Tailing.Sessions.{sessions_of}
use quansec_pqc_platform.Tls.Tailing.Visits.{Visit, IsPlain, cycle, visit_all, all_lines}
use quansec_pqc_platform.Tls.Tailing.ExactlyOnce.{exactly_once}

abbrev ascii_only : Python Text
ascii_only = record {
  loads = λ t. some (some (λ k. some t));
  to_text = λ t. t;
  fromisoformat = λ t. some 7;
  is_true = truthy;
  int_of = λ t. some (pos 200);
  float_of = some;
  decode = λ bytes. bytes;
}

IsAscii : ℕ → Type 0
IsAscii c = ltb c 128 ≡ true

encode_ascii : (t : Text) → All IsAscii t → encode t ≡ t
unfolding encode utf8 IsAscii
encode_ascii [] h = refl
encode_ascii (c ∷ t) (small, h) = rw (small, encode_ascii t h) refl

abbrev is_plain : ℕ → Bool
is_plain c = ltb c 128 && not (c == 10)

plain : (t : Text) → all is_plain t ≡ true → IsPlain IsAscii t
unfolding IsAscii
plain [] h = tt
plain (c ∷ t) h = (ground arith, plain t (ground arith))

abbrev visits : List Visit
visits =
    record { written = codes "X25519MLKEM768" ∷ []; partial = codes "x25"; cut = some 0 }
    ∷ record { written = codes "x25519" ∷ codes "" ∷ []; partial = codes ""; cut = some 1 }
    ∷ []

abbrev no_rows : LogDb
no_rows = record { rows = []; offsets = [] }

exactly_once_example :
    (cycle ascii_only
      (codes "log")
      none
      (readable (encode (log_text (all_lines [] visits) (codes "abc"))))
      (visit_all ascii_only (codes "log") [] visits no_rows)).rows
    ≡ [] ++ map log_row (sessions_of ascii_only (codes "log") 0 (all_lines [] visits))
unfolding read_offset Below IsAscii
exactly_once_example =
    exactly_once ascii_only (codes "log") IsAscii encode_ascii refl visits (codes "abc") no_rows
      (
        ((plain (codes "X25519MLKEM768") refl, tt), plain (codes "x25") refl),
        (((plain (codes "x25519") refl, (tt, tt)), tt), tt),
      )
      (plain (codes "abc") refl) refl tt

-- A line that is still being written is left to the next cycle.
partial_line :
    read_from ascii_only (readable (codes "ab" ++ 10 ∷ codes "cd")) 0 ≡ ((0, codes "ab") ∷ [], 3)
unfolding read_from read_some read_lines start_offset size complete_lines number_lines end_position
    from_offset encode utf8
partial_line = refl

-- A file shorter than the offset is read from its beginning.
rotated : read_from ascii_only (readable (codes "ab" ++ 10 ∷ [])) 9 ≡ ((0, codes "ab") ∷ [], 3)
unfolding read_from read_some read_lines start_offset size complete_lines number_lines end_position
    from_offset encode utf8
rotated = refl

-- The log of one line that was recorded, replaced by a shorter one.
abbrev one_recorded : LogDb
one_recorded =
    cycle ascii_only (codes "log") none (readable (codes "X25519MLKEM768" ++ 10 ∷ [])) no_rows

-- The line of the new log is read, and not recorded: an old row has its position.
rotated_line_lost :
    cycle ascii_only (codes "log") none (readable (codes "x25519" ++ 10 ∷ [])) one_recorded
    ≡ record one_recorded { offsets = (codes "log", 7) ∷ [] }
unfolding cycle collect_once eq_text session_of
rotated_line_lost = refl
