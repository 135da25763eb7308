-- ===== src/Tls/Tailing/CaughtUp.antt =====
-- quansec/protocols/tls/collector.py: where a collection cycle leaves the offset and the rows of a log.
use mathlib.Core.List.{append_assoc, append-nil, map-append}
use quansec_pqc_platform.Prelude.{
  ℕ, ◌+◌, ◌≡◌, refl, sym, ap, ◌∙◌, subst, none, some, List, [], ◌∷◌, ◌++◌, map, Text, length, take,
  All, arith, ==_iff,
}
use quansec_pqc_platform.Tls.Collector.{ParsedSession, Python}
use quansec_pqc_platform.Tls.Tailing.{
  readable, LogDb, SessionRow, log_row, encode, number_lines, end_position, read_from, read_offset,
  parse_lines, insert_sessions, ingest, cut_off,
}
use quansec_pqc_platform.Tls.Tailing.Lines.{
  log_text, encode-++, log_text-++, end_position-log_text, end_position-++,
}
use quansec_pqc_platform.Tls.Tailing.Reading.{read_behind}
use quansec_pqc_platform.Tls.Tailing.Inserts.{Below, larger, larger_le, take-long, insert_prefix}
use quansec_pqc_platform.Tls.Tailing.Sessions.{
  sessions_of, Ascends-sessions_of, sessions_of-++, Below-sessions_of,
}
use quansec_pqc_platform.Tls.Tailing.Visits.{
  IsPlain, no_feed, no_feeds, plain_log, cycle, cycle-ingest, after_ingest, rest_of, take-length,
  read_offset-write_offset,
}

module _ {Object : Type 0} (py : Python Object) (source : Text) (base : List SessionRow) where
  -- The rows of the lines `us`, behind those that stood in the table before.
  unfoldable pub rows_of : List Text → List SessionRow
  rows_of us = base ++ map log_row (sessions_of py source 0 us)

  -- The offset stands behind the lines `us`; of the lines `vs` that follow, some sessions are in already.
  pub record CaughtUp (us vs : List Text) (db : LogDb) : Type 0 where
    pub offset : read_offset source db.offsets ≡ end_position 0 us
    pub early : List ParsedSession
    pub late : List ParsedSession
    pub split : sessions_of py source (end_position 0 us) vs ≡ early ++ late
    pub holds : db.rows ≡ rows_of us ++ map log_row early

  pub grow : (us vs ws : List Text) (db : LogDb) → CaughtUp us vs db → CaughtUp us (vs ++ ws) db
  grow us vs ws db c = record {
    offset = c.offset;
    early = c.early;
    late = c.late ++ sessions_of py source (end_position (end_position 0 us) vs) ws;
    split =
        sessions_of-++ py source (end_position 0 us) vs ws
        ∙ ap (λ ss. ss ++ sessions_of py source (end_position (end_position 0 us) vs) ws) c.split
        ∙ append_assoc c.early c.late
            (sessions_of py source (end_position (end_position 0 us) vs) ws);
    holds = c.holds;
  }

  empty_prefix : (early late : List ParsedSession) → early ++ late ≡ [] → early ≡ []
  empty_prefix [] late e = refl
  empty_prefix (s ∷ early) late e = absurd (omega (arith, ap length e))

  pub settled : (us : List Text) (db : LogDb) → CaughtUp us [] db → db.rows ≡ rows_of us
  unfolding sessions_of number_lines parse_lines
  settled us db c =
      c.holds
      ∙ ap (λ ss. rows_of us ++ map log_row ss) (empty_prefix c.early c.late (sym c.split))
      ∙ append-nil (rows_of us)

  module _ (below : Below source 0 base) where
    -- Inserting the first `n` sessions of the lines `vs`.
    inserts :
        (us vs : List Text) (db : LogDb) (n : ℕ) (c : CaughtUp us vs db)
        → insert_sessions (take n (sessions_of py source (end_position 0 us) vs)) db.rows
          ≡ rows_of us
            ++ map log_row
                (take (larger (length c.early) n) (sessions_of py source (end_position 0 us) vs))
    unfolding rows_of
    inserts us vs db n c =
        ap (insert_sessions (take n (sessions_of py source (end_position 0 us) vs))) (
          c.holds
          ∙ ap (λ ss. rows_of us ++ map log_row ss)
              (sym (take-length c.early c.late) ∙ ap (take (length c.early)) (sym c.split)))
        ∙ insert_prefix source (end_position 0 us) (length c.early) n
            (sessions_of py source (end_position 0 us) vs) (rows_of us)
            (Ascends-sessions_of py source (end_position 0 us) vs)
            (Below-sessions_of py source 0 us base below)

    inserts_all :
        (us vs : List Text) (db : LogDb)
        → CaughtUp us vs db
        → insert_sessions (sessions_of py source (end_position 0 us) vs) db.rows
          ≡ rows_of (us ++ vs)
    unfolding rows_of
    inserts_all us vs db c =
        ap (λ ss. insert_sessions ss db.rows) (sym whole)
        ∙ inserts us vs db many c
        ∙ ap (λ n. rows_of us ++ map log_row (take n zs))
            (larger_le (length c.early) many (omega arith))
        ∙ ap (λ ss. rows_of us ++ map log_row ss) whole
        ∙ append_assoc base (map log_row (sessions_of py source 0 us)) (map log_row zs)
        ∙ ap (λ rs. base ++ rs)
            (sym (map-append log_row (sessions_of py source 0 us) zs)
              ∙ ap (map log_row) (sym (sessions_of-++ py source 0 us vs)))
      where
        zs : List ParsedSession
        zs = sessions_of py source (end_position 0 us) vs

        many : ℕ
        many = length c.early + length zs

        whole : take many zs ≡ zs
        whole = take-long many zs (omega arith)

    pub finished :
        (us : List Text) (db : LogDb)
        → read_offset source db.offsets ≡ end_position 0 us
        → db.rows ≡ rows_of us
        → CaughtUp us [] db
    unfolding sessions_of number_lines parse_lines
    finished us db at rows = record {
      offset = at;
      early = [];
      late = [];
      split = refl;
      holds = rows ∙ sym (append-nil (rows_of us));
    }

    ingested :
        (us ws : List Text) (db : LogDb)
        → CaughtUp us ws db
        → CaughtUp (us ++ ws) [] (
            after_ingest py source
              (end_position 0 us)
              (number_lines (end_position 0 us) ws)
              (end_position (end_position 0 us) ws)
              db)
    unfolding after_ingest ingest number_lines end_position sessions_of
    ingested us [] db c =
        rw ((==_iff (end_position 0 us) (end_position 0 us)).1 refl) (
          finished (us ++ []) db (c.offset ∙ sym (end_position-++ 0 us []))
            (inserts_all us [] db c))
    ingested us (w ∷ ws) db c =
        finished (us ++ w ∷ ws)
          (after_ingest py source (end_position 0 us) (number_lines (end_position 0 us) (w ∷ ws))
            (end_position (end_position 0 us) (w ∷ ws)) db)
          (read_offset-write_offset source (end_position (end_position 0 us) (w ∷ ws)) db.offsets
            ∙ sym (end_position-++ 0 us (w ∷ ws)))
          (inserts_all us (w ∷ ws) db c)

    module _ (P : ℕ → Type 0) (decode-encode : (t : Text) → All P t → py.decode (encode t) ≡ t)
        (feed : P 10) where
      read_at :
          (us vs : List Text) (tail : Text)
          → All (IsPlain P) vs
          → IsPlain P tail
          → read_from py (readable (encode (log_text (us ++ vs) tail))) (end_position 0 us)
            ≡ (number_lines (end_position 0 us) vs, end_position (end_position 0 us) vs)
      read_at us vs tail plain plain_t =
          subst
            (λ o.
              read_from py (readable (encode (log_text (us ++ vs) tail))) o
              ≡ (number_lines o vs, end_position o vs))
            (sym at_end)
            (rw (log_text-++ us vs tail, encode-++ (log_text us []) (log_text vs tail))
              (read_behind py P decode-encode (encode (log_text us [])) vs tail
                (no_feeds P vs plain) (no_feed P tail plain_t)
                (plain_log P vs tail feed plain plain_t)))
        where
          at_end : end_position 0 us ≡ length (encode (log_text us []))
          at_end = omega (arith, end_position-log_text 0 us)

      pub collected :
          (us vs : List Text) (tail : Text) (db : LogDb)
          → All (IsPlain P) vs
          → IsPlain P tail
          → CaughtUp us vs db
          → CaughtUp
              (us ++ vs)
              []
              (cycle py source none (readable (encode (log_text (us ++ vs) tail))) db)
      collected us vs tail db plain plain_t c =
          subst (CaughtUp (us ++ vs) [])
            (sym (
              cycle-ingest py source (encode (log_text (us ++ vs) tail)) db (end_position 0 us)
                (number_lines (end_position 0 us) vs) (end_position (end_position 0 us) vs) c.offset
                (read_at us vs tail plain plain_t)))
            (ingested us vs db c)

      pub cut :
          (us vs : List Text) (tail : Text) (db : LogDb) (n : ℕ)
          → All (IsPlain P) vs
          → IsPlain P tail
          → CaughtUp us vs db
          → CaughtUp us vs
              (cycle py source (some n) (readable (encode (log_text (us ++ vs) tail))) db)
      unfolding cycle cut_off sessions_of
      cut us vs tail db n plain plain_t c =
          let zs = sessions_of py source (end_position 0 us) vs in
          let (rest, e) = rest_of (larger (length c.early) n) zs in
          rw (c.offset, read_at us vs tail plain plain_t)
            record {
              offset = c.offset;
              early = take (larger (length c.early) n) zs;
              late = rest;
              split = e;
              holds = inserts us vs db n c;
            }
