-- ===== src/Tls/Tailing.antt =====
-- quansec/protocols/tls/collector.py: the tailer NginxLogReader, the table of offsets, the insertion of
-- sessions and a collection cycle. A cycle may be cut off between two INSERT statements, each of which is
-- a transaction of its own.
pub mod Lines
pub mod Reading
pub mod Inserts
pub mod Sessions
pub mod Visits
pub mod CaughtUp
pub mod ExactlyOnce
mod Tests
use quansec_pqc_platform.Prelude.{
  ℕ, zero, suc, ◌+◌, ◌/◌, ◌%◌, Bool, true, false, ◌&&◌, Option, none, some, List, [], ◌∷◌, ◌++◌,
  Text, codes, eq_text, length, take, any, ltb, ◌==◌, is_none, not, if◌then◌else◌,
}
use quansec_pqc_platform.Json.{ℤ, pos}
use quansec_pqc_platform.Tls.Collector.{ParsedSession, Python, parse_log_line}

-- The access log as a cycle finds it; `unreadable` has a size and cannot be opened.
pub data LogFile : Type 0 where
  no_file : LogFile
  unreadable : ℕ → LogFile
  readable : List ℕ → LogFile

-- A row of tls_sessions: the columns that are copies stand in `session`.
pub record SessionRow : Type 0 where
  pub session : ParsedSession
  pub mtls_enabled : Bool
  pub started_at : ℕ
  pub last_seen : ℕ
  pub request_count : ℤ
  pub evidence_source : Text

-- tls_sessions in the order of insertion, and tls_collector_state.
pub record LogDb : Type 0 where
  pub rows : List SessionRow
  pub offsets : List (Text × ℕ)

-- The UTF-8 bytes of a code point.
unfoldable pub utf8 : ℕ → List ℕ
utf8 c =
    if ltb c 128
    then c ∷ []
    else if ltb c 2_048
    then (192 + c / 64) ∷ (128 + c % 64) ∷ []
    else if ltb c 65_536
    then (224 + c / 4_096) ∷ (128 + c / 64 % 64) ∷ (128 + c % 64) ∷ []
    else (240 + c / 262_144) ∷ (128 + c / 4_096 % 64) ∷ (128 + c / 64 % 64) ∷ (128 + c % 64) ∷ []

-- text.encode("utf-8")
unfoldable pub encode : Text → List ℕ
unfolding utf8
encode [] = []
encode (c ∷ t) = utf8 c ++ encode t

-- What a read gives after `seek(n)`.
unfoldable pub from_offset : ℕ → List ℕ → List ℕ
from_offset zero bytes = bytes
from_offset (suc n) [] = []
from_offset (suc n) (b ∷ bytes) = from_offset n bytes

abbrev pub onto_first : ℕ → List Text → Text → List Text × Text
onto_first c [] trailing = ([], c ∷ trailing)
onto_first c (l ∷ ls) trailing = ((c ∷ l) ∷ ls, trailing)

abbrev pub put : ℕ → List Text × Text → List Text × Text
put c (complete, trailing) =
    if c == 10 then ([] ∷ complete, trailing) else onto_first c complete trailing

-- *complete, trailing = data.split("\n")
unfoldable pub complete_lines : Text → List Text × Text
complete_lines [] = ([], [])
complete_lines (c ∷ t) = put c (complete_lines t)

-- The lines with their positions.
unfoldable pub number_lines : ℕ → List Text → List (ℕ × Text)
unfolding encode
number_lines position [] = []
number_lines position (line ∷ rest) =
    (position, line) ∷ number_lines (position + (length (encode line) + 1)) rest

-- The position after the lines.
unfoldable pub end_position : ℕ → List Text → ℕ
unfolding encode
end_position position [] = position
end_position position (line ∷ rest) = end_position (position + (length (encode line) + 1)) rest

unfoldable pub size : LogFile → ℕ
size no_file = 0
size (unreadable n) = n
size (readable bytes) = length bytes

-- A stored offset behind the end of the file means a rotation.
unfoldable pub start_offset : LogFile → ℕ → ℕ
unfolding size
start_offset file offset = if ltb (size file) offset then 0 else offset

module _ {Object : Type 0} (py : Python Object) where
  open py use {decode}

  unfoldable pub read_lines : LogFile → ℕ → List (ℕ × Text) × ℕ
  unfolding complete_lines number_lines end_position from_offset
  read_lines no_file offset = ([], offset)
  read_lines (unreadable n) offset = ([], offset)
  read_lines (readable bytes) offset =
      let (complete, trailing) = complete_lines (decode (from_offset offset bytes)) in
      (number_lines offset complete, end_position offset complete)

  unfoldable pub read_some : LogFile → ℕ → List (ℕ × Text) × ℕ
  unfolding read_lines size
  read_some file offset = if size file == offset then ([], offset) else read_lines file offset

  -- NginxLogReader.read_from
  unfoldable pub read_from : LogFile → ℕ → List (ℕ × Text) × ℕ
  unfolding read_some start_offset
  read_from no_file offset = ([], offset)
  read_from (unreadable n) offset = read_some (unreadable n) (start_offset (unreadable n) offset)
  read_from (readable bytes) offset =
      read_some (readable bytes) (start_offset (readable bytes) offset)

-- _read_offset
unfoldable pub read_offset : Text → List (Text × ℕ) → ℕ
read_offset source [] = 0
read_offset source ((s, n) ∷ rest) = if eq_text s source then n else read_offset source rest

-- _write_offset
unfoldable pub write_offset : Text → ℕ → List (Text × ℕ) → List (Text × ℕ)
write_offset source offset [] = (source, offset) ∷ []
write_offset source offset ((s, n) ∷ rest) =
    if eq_text s source then (s, offset) ∷ rest else (s, n) ∷ write_offset source offset rest

-- The unique key of tls_sessions.
unfoldable pub same_place : ParsedSession → SessionRow → Bool
same_place s r = eq_text r.session.log_source s.log_source && r.session.log_offset == s.log_offset

-- connection_requests or 1
abbrev pub requests_or_one : Option ℤ → ℤ
requests_or_one none = pos 1
requests_or_one (some (ℤ.pos zero)) = pos 1
requests_or_one (some (ℤ.pos (suc n))) = pos (suc n)
requests_or_one (some (ℤ.negsuc n)) = ℤ.negsuc n

unfoldable pub log_row : ParsedSession → SessionRow
log_row s = record {
  session = s;
  mtls_enabled = not (is_none s.client_certificate_verified);
  started_at = s.occurred_at;
  last_seen = s.occurred_at;
  request_count = requests_or_one s.connection_requests;
  evidence_source = codes "nginx_access_log";
}

-- INSERT ... ON CONFLICT (log_source, log_offset) DO NOTHING
unfoldable pub insert_session : ParsedSession → List SessionRow → List SessionRow
unfolding same_place log_row
insert_session s rows = if any (same_place s) rows then rows else rows ++ log_row s ∷ []

unfoldable pub insert_sessions : List ParsedSession → List SessionRow → List SessionRow
unfolding insert_session
insert_sessions [] rows = rows
insert_sessions (s ∷ sessions) rows = insert_sessions sessions (insert_session s rows)

-- How many of the statements inserted a row.
unfoldable pub inserted_count : List ParsedSession → List SessionRow → ℕ
unfolding insert_session same_place
inserted_count [] rows = 0
inserted_count (s ∷ sessions) rows =
    (if any (same_place s) rows then 0 else 1) + inserted_count sessions (insert_session s rows)

module _ {Object : Type 0} (py : Python Object) (source : Text) where
  abbrev pub consider : Option ParsedSession → List ParsedSession → List ParsedSession
  consider none rest = rest
  consider (some s) rest = s ∷ rest

  unfoldable pub parse_lines : List (ℕ × Text) → List ParsedSession
  unfolding parse_log_line
  parse_lines [] = []
  parse_lines ((position, line) ∷ rest) =
      consider (parse_log_line py source position line) (parse_lines rest)

  unfoldable pub ingest : ℕ → List (ℕ × Text) → ℕ → LogDb → ℕ × LogDb
  unfolding parse_lines insert_sessions inserted_count write_offset
  ingest offset [] new_offset db = (
    0,
    if new_offset == offset
        then db
        else record db { offsets = write_offset source new_offset db.offsets },
  )
  ingest offset (line ∷ lines) new_offset db =
      let parsed = parse_lines (line ∷ lines) in
      (
        inserted_count parsed db.rows,
        record {
          rows = insert_sessions parsed db.rows;
          offsets = write_offset source new_offset db.offsets;
        },
      )

  unfoldable pub collect : LogFile → LogDb → ℕ × LogDb
  unfolding ingest read_from read_offset
  collect no_file db = (0, db)
  collect (unreadable n) db =
      let offset = read_offset source db.offsets in
      let (lines, new_offset) = read_from py (unreadable n) offset in
      ingest offset lines new_offset db
  collect (readable bytes) db =
      let offset = read_offset source db.offsets in
      let (lines, new_offset) = read_from py (readable bytes) offset in
      ingest offset lines new_offset db

  unfoldable pub collect_once : Bool → LogFile → LogDb → ℕ × LogDb
  unfolding collect
  collect_once false file db = (0, db)
  collect_once true file db = collect file db

  -- A cycle that ends after `n` INSERT statements.
  unfoldable pub cut_off : ℕ → LogFile → LogDb → LogDb
  unfolding read_from read_offset parse_lines insert_sessions
  cut_off n file db =
      let (lines, new_offset) = read_from py file (read_offset source db.offsets) in
      let parsed = parse_lines lines in record db { rows = insert_sessions (take n parsed) db.rows }
