-- ===== src/Tls/Tailing/ExactlyOnce.antt =====
-- quansec/protocols/tls/collector.py: what tls_sessions holds after cycles on a log that grew.
use mathlib.Core.List.{append_assoc, append-nil}
use quansec_pqc_platform.Prelude.{
  ℕ, ◌≡◌, refl, sym, ap, ◌∙◌, subst, none, some, List, [], ◌∷◌, ◌++◌, map, Text, All, Option,
}
use quansec_pqc_platform.Tls.Collector.{Python}
use quansec_pqc_platform.Tls.Tailing.{
  readable, LogDb, SessionRow, log_row, encode, read_offset, end_position, number_lines,
  parse_lines,
}
use quansec_pqc_platform.Tls.Tailing.Lines.{log_text}
use quansec_pqc_platform.Tls.Tailing.Inserts.{Below}
use quansec_pqc_platform.Tls.Tailing.Sessions.{sessions_of}
use quansec_pqc_platform.Tls.Tailing.Visits.{
  Visit, IsPlain, IsPlainVisit, All-append, cycle, visit_all, all_lines,
}
use quansec_pqc_platform.Tls.Tailing.CaughtUp.{
  CaughtUp, rows_of, grow, finished, settled, collected, cut,
}

module _ {Object : Type 0} (py : Python Object) (source : Text) (P : ℕ → Type 0)
    (decode-encode : (t : Text) → All P t → py.decode (encode t) ≡ t) (feed : P 10) where
  module _ (base : List SessionRow) (below : Below source 0 base) where
    -- The lines of the log fall into those behind the offset and those before it.
    Reached : List Text → LogDb → Type 0
    Reached lines db =
        (us : List Text) × (vs : List Text) × (us ++ vs ≡ lines)
        × All (IsPlain P) vs
        × CaughtUp py source base us vs db

    on_cycle :
        (cutting : Option ℕ) (us vs : List Text) (tail : Text) (db : LogDb)
        → All (IsPlain P) vs
        → IsPlain P tail
        → CaughtUp py source base us vs db
        → Reached
            (us ++ vs)
            (cycle py source cutting (readable (encode (log_text (us ++ vs) tail))) db)
    unfolding Reached
    on_cycle none us vs tail db plain plain_t c = (
      us ++ vs,
      [],
      append-nil (us ++ vs),
      tt,
      collected py source base below P decode-encode feed us vs tail db plain plain_t c,
    )
    on_cycle (some n) us vs tail db plain plain_t c = (
      us,
      vs,
      refl,
      plain,
      cut py source base below P decode-encode feed us vs tail db n plain plain_t c,
    )

    on_visit :
        (v : Visit) (lines : List Text) (db : LogDb)
        → IsPlainVisit P v
        → Reached lines db
        → Reached
            (lines ++ v.written)
            (cycle py source v.cut (readable (encode (log_text (lines ++ v.written) v.partial))) db)
    unfolding Reached
    on_visit v lines db (plain, plain_t) (us, vs, e, plain_vs, c) =
        subst
          (λ ls. Reached ls (cycle py source v.cut (readable (encode (log_text ls v.partial))) db))
          (sym (append_assoc us vs v.written) ∙ ap (λ ls. ls ++ v.written) e)
          (on_cycle v.cut us (vs ++ v.written) v.partial db
            (All-append P vs v.written plain_vs plain) plain_t
            (grow py source base us vs v.written db c))

    on_visits :
        (visits : List Visit) (lines : List Text) (db : LogDb)
        → All (IsPlainVisit P) visits
        → Reached lines db
        → Reached (all_lines lines visits) (visit_all py source lines visits db)
    unfolding all_lines visit_all
    on_visits [] lines db plain r = r
    on_visits (v ∷ visits) lines db (plain, plains) r =
        on_visits visits (lines ++ v.written)
          (cycle py source v.cut (readable (encode (log_text (lines ++ v.written) v.partial))) db)
          plains (on_visit v lines db plain r)

    complete :
        (lines : List Text) (tail : Text) (db : LogDb)
        → IsPlain P tail
        → Reached lines db
        → (cycle py source none (readable (encode (log_text lines tail))) db).rows
          ≡ rows_of py source base lines
    unfolding Reached
    complete lines tail db plain_t (us, vs, e, plain, c) =
        subst
          (λ ls.
            (cycle py source none (readable (encode (log_text ls tail))) db).rows
            ≡ rows_of py source base ls)
          e
          (settled py source base (us ++ vs) _
            (collected py source base below P decode-encode feed us vs tail db plain plain_t c))

  -- However the log grew between the collection cycles, whatever partial line a cycle found at its end
  -- and after whichever INSERT a cycle was cut off: once a cycle runs to its end, tls_sessions holds,
  -- behind the rows it had before, exactly one row for each usable complete line of the log, in the
  -- order of the log. This is for a log that is not rotated, of characters that the codec reads back,
  -- and for a table with no rows and no offset of the log at first.
  pub exactly_once :
      (visits : List Visit) (partial : Text) (db : LogDb)
      → All (IsPlainVisit P) visits
      → IsPlain P partial
      → read_offset source db.offsets ≡ 0
      → Below source 0 db.rows
      → (cycle py source none
          (readable (encode (log_text (all_lines [] visits) partial)))
          (visit_all py source [] visits db)).rows
        ≡ db.rows ++ map log_row (sessions_of py source 0 (all_lines [] visits))
  unfolding rows_of sessions_of end_position number_lines parse_lines Reached
  exactly_once visits partial db plain plain_t at below =
      complete db.rows below (all_lines [] visits) partial (visit_all py source [] visits db)
        plain_t (on_visits db.rows below visits [] db plain ([], [], refl, tt, start))
    where
      start : CaughtUp py source db.rows [] [] db
      start = finished py source db.rows below [] db at (sym (append-nil db.rows))
