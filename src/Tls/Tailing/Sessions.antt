-- ===== src/Tls/Tailing/Sessions.antt =====
-- quansec/protocols/tls/collector.py: the sessions of consecutive lines carry the positions of their lines.
use mathlib.Core.List.{append_assoc, append-nil}
use quansec_pqc_platform.Prelude.{
  ℕ, suc, ◌+◌, ◌≤◌, ◌<◌, ◌≡◌, refl, ap, ◌∙◌, subst, Bool, true, false, Option, none, some, List, [],
  ◌∷◌, ◌++◌, map, Text, length, arith, truthy, strip, if◌then◌else◌, codes,
}
use quansec_pqc_platform.Tls.Collector.{
  ParsedSession, Python, parse_log_line, loaded, stamped, session_of, occurred,
}
use quansec_pqc_platform.Tls.Tailing.{
  SessionRow, log_row, encode, number_lines, end_position, parse_lines, consider,
}
use quansec_pqc_platform.Tls.Tailing.Inserts.{Below, Ascends, Below-snoc}

module _ {Object : Type 0} (py : Python Object) (source : Text) where
  -- The sessions of lines that begin at `position`.
  unfoldable pub sessions_of : ℕ → List Text → List ParsedSession
  sessions_of position lines = parse_lines py source (number_lines position lines)

  unfoldable Placed : ℕ → Option ParsedSession → Type 0
  Placed position none = Unit
  Placed position (some s) = (s.log_source ≡ source) × (s.log_offset ≡ position)

  Placed-stamped :
      (stripped : Text) (position : ℕ) (get : Text → Option Object) (at : Option ℕ)
      → Placed position (stamped py stripped source position get at)
  unfolding stamped Placed session_of
  Placed-stamped stripped position get none = tt
  Placed-stamped stripped position get (some at) = (refl, refl)

  Placed-loaded :
      (stripped : Text) (position : ℕ) (o : Option (Option (Text → Option Object)))
      → Placed position (loaded py stripped source position o)
  unfolding loaded Placed
  Placed-loaded stripped position none = tt
  Placed-loaded stripped position (some none) = tt
  Placed-loaded stripped position (some (some get)) =
      Placed-stamped stripped position get (occurred py (get (codes "timestamp")))

  placed : (position : ℕ) (line : Text) → Placed position (parse_log_line py source position line)
  unfolding parse_log_line Placed
  placed position line = by_test (truthy (strip line))
    where
      by_test :
          (b : Bool)
          → Placed position
              (if b then loaded py (strip line) source position (py.loads (strip line)) else none)
      by_test true = Placed-loaded (strip line) position (py.loads (strip line))
      by_test false = tt

  Ascends-le :
      (a b : ℕ) (sessions : List ParsedSession)
      → a ≤ b
      → Ascends source b sessions
      → Ascends source a sessions
  unfolding Ascends
  Ascends-le a b [] h up = tt
  Ascends-le a b (s ∷ sessions) h (e, from, up) = (e, omega arith, up)

  Ascends-consider :
      (position next : ℕ) (o : Option ParsedSession) (rest : List ParsedSession)
      → Placed position o
      → position < next
      → Ascends source next rest
      → Ascends source position (consider py source o rest)
  unfolding Ascends Placed
  Ascends-consider position next none rest p h up = Ascends-le position next rest (omega arith) up
  Ascends-consider position next (some s) rest (e, at) h up =
      (e, omega arith, Ascends-le (suc s.log_offset) next rest (omega arith) up)

  pub Ascends-sessions_of :
      (position : ℕ) (lines : List Text) → Ascends source position (sessions_of position lines)
  unfolding sessions_of parse_lines number_lines Ascends
  Ascends-sessions_of position [] = tt
  Ascends-sessions_of position (line ∷ lines) =
      let next = position + (length (encode line) + 1) in
      Ascends-consider position next (parse_log_line py source position line)
        (sessions_of next lines) (placed position line) (omega arith)
        (Ascends-sessions_of next lines)

  pub sessions_of-++ :
      (position : ℕ) (us vs : List Text)
      → sessions_of position (us ++ vs)
        ≡ sessions_of position us ++ sessions_of (end_position position us) vs
  unfolding sessions_of parse_lines number_lines end_position
  sessions_of-++ position [] vs = refl
  sessions_of-++ position (u ∷ us) vs =
      let next = position + (length (encode u) + 1) in
      ap (consider py source (parse_log_line py source position u)) (sessions_of-++ next us vs)
      ∙ consider-++ (parse_log_line py source position u) (sessions_of next us)
          (sessions_of (end_position next us) vs)
    where
      consider-++ :
          (o : Option ParsedSession) (ss ts : List ParsedSession)
          → consider py source o (ss ++ ts) ≡ consider py source o ss ++ ts
      consider-++ none ss ts = refl
      consider-++ (some s) ss ts = refl

  Below-le : (a b : ℕ) (rows : List SessionRow) → a ≤ b → Below source a rows → Below source b rows
  unfolding Below
  Below-le a b [] h below = tt
  Below-le a b (r ∷ rows) h (less, below) = (λ e. omega (arith, less e), Below-le a b rows h below)

  Below-consider :
      (position next : ℕ) (o : Option ParsedSession) (rows : List SessionRow)
      → Placed position o
      → position < next
      → Below source position rows
      → Below source next (rows ++ map log_row (consider py source o []))
  unfolding Placed
  Below-consider position next none rows p h below =
      rw (append-nil rows) (Below-le position next rows (omega arith) below)
  Below-consider position next (some s) rows (e, at) h below =
      Below-le (suc s.log_offset) next (rows ++ log_row s ∷ []) (omega arith)
        (Below-snoc source position s rows (omega arith) below)

  pub Below-sessions_of :
      (position : ℕ) (lines : List Text) (rows : List SessionRow)
      → Below source position rows
      → Below source
          (end_position position lines)
          (rows ++ map log_row (sessions_of position lines))
  unfolding sessions_of parse_lines number_lines end_position
  Below-sessions_of position [] rows below = rw (append-nil rows) below
  Below-sessions_of position (line ∷ lines) rows below =
      let next = position + (length (encode line) + 1) in
      let o = parse_log_line py source position line in
      subst (Below source (end_position next lines)) (regroup o (sessions_of next lines)) (
        Below-sessions_of next lines (rows ++ map log_row (consider py source o []))
          (Below-consider position next o rows (placed position line) (omega arith) below))
    where
      regroup :
          (o : Option ParsedSession) (ss : List ParsedSession)
          → (rows ++ map log_row (consider py source o [])) ++ map log_row ss
            ≡ rows ++ map log_row (consider py source o ss)
      regroup none ss = rw (append-nil rows) refl
      regroup (some s) ss = append_assoc rows (log_row s ∷ []) (map log_row ss)
