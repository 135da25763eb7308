-- ===== src/HostAgent/Lines.antt =====
-- quansec/host_policy_agent.py, `apply_ssh`: the lines of the file that is written, as splitlines reads them.
use quansec_pqc_platform.Prelude.{
  ℕ, ◌≡◌, refl, sym, ap, ◌∙◌, subst, inl, inr, Bool, true, false, ◌&&◌, not, List, [], ◌∷◌, ◌++◌,
  Text, truthy, join, arith, Bool-cases, ◌==◌,
}
use quansec_pqc_platform.HostAgent.{is_line_break, starts_line_feed, onto, split_lines}

-- Nothing stands behind the last line break.
unfoldable pub ends_line : Text → Bool
ends_line [] = true
ends_line (c ∷ []) = is_line_break c
ends_line (c ∷ (d ∷ s)) = ends_line (d ∷ s)

pub append-empty : (s : Text) → s ++ [] ≡ s
append-empty [] = refl
append-empty (c ∷ s) = ap (λ t. c ∷ t) (append-empty s)

pub join-line : (l : Text) (ls : List Text) → join [] (l ∷ ls) ≡ l ++ join [] ls
unfolding join
join-line l [] = sym (append-empty l)
join-line l (k ∷ ls) = refl

join-onto : (c : ℕ) (ls : List Text) → join [] (onto c ls) ≡ c ∷ join [] ls
unfolding join
join-onto c [] = refl
join-onto c (l ∷ ls) = join-line (c ∷ l) ls ∙ ap (λ t. c ∷ t) (sym (join-line l ls))

-- The line break at the beginning of `c ∷ s` ends its line.
abbrev breaks : ℕ → Text → Bool
breaks c s = is_line_break c && not (c == 13 && starts_line_feed s)

pub split-break :
    (c : ℕ) (s : Text) → breaks c s ≡ true → split_lines (c ∷ s) ≡ (c ∷ []) ∷ split_lines s
unfolding split_lines
split-break c s e = rw e refl

pub split-onto :
    (c : ℕ) (s : Text) → breaks c s ≡ false → split_lines (c ∷ s) ≡ onto c (split_lines s)
unfolding split_lines
split-onto c s e = rw e refl

pub join-split_lines : (s : Text) → join [] (split_lines s) ≡ s
unfolding split_lines join
join-split_lines [] = refl
join-split_lines (c ∷ s) = elim (Bool-cases (breaks c s)) [
  | inl e ↦
      ap (join []) (split-break c s e)
      ∙ join-line (c ∷ []) (split_lines s)
      ∙ ap (λ t. c ∷ t) (join-split_lines s)
  | inr e ↦
      ap (join []) (split-onto c s e)
      ∙ join-onto c (split_lines s)
      ∙ ap (λ t. c ∷ t) (join-split_lines s)
]

-- The line stays a line of its own, before what may follow it in place of `after`.
unfoldable pub LineAt : Bool → Text → Text → Type 0
LineAt closed l after =
    (n : Text)
    → (starts_line_feed n ≡ true → starts_line_feed after ≡ true)
    → (closed ≡ false → truthy after ≡ false → n ≡ [])
    → split_lines (l ++ n) ≡ l ∷ split_lines n

unfoldable pub AreLines : Bool → List Text → Type 0
AreLines closed [] = Unit
AreLines closed (l ∷ ls) = (truthy l ≡ true) × LineAt closed l (join [] ls) × AreLines closed ls

breaks_before :
    (c : ℕ) (s n : Text)
    → breaks c s ≡ true
    → (starts_line_feed n ≡ true → starts_line_feed s ≡ true)
    → breaks c n ≡ true
breaks_before c s n e f = elim (Bool-cases (starts_line_feed n)) [
  | inl lf ↦ ground (arith, lf, f lf, e)
  | inr other ↦ ground (arith, other, e)
]

LineAt-break : (closed : Bool) (c : ℕ) (s : Text) → breaks c s ≡ true → LineAt closed (c ∷ []) s
unfolding LineAt
LineAt-break closed c s e n f g = split-break c n (breaks_before c s n e f)

LineAt-onto :
    (closed : Bool) (c : ℕ) (w after : Text)
    → truthy w ≡ true
    → breaks c (w ++ after) ≡ false
    → LineAt closed w after
    → LineAt closed (c ∷ w) after
unfolding LineAt
LineAt-onto closed c [] after some_ e line n f g = absurd (ground (arith, some_))
LineAt-onto closed c (d ∷ w) after some_ e line n f g =
    split-onto c (d ∷ (w ++ n)) e ∙ ap (onto c) (line n f g)

AreLines-onto :
    (closed : Bool) (c : ℕ) (ls : List Text)
    → truthy (join [] ls) ≡ true
    → breaks c (join [] ls) ≡ false
    → AreLines closed ls
    → AreLines closed (onto c ls)
unfolding AreLines join
AreLines-onto closed c [] some_ e lines = absurd (ground (arith, some_))
AreLines-onto closed c (w ∷ ws) some_ e (filled, line, lines) = (
  refl,
  LineAt-onto closed c w (join [] ws) filled (ap (breaks c) (sym (join-line w ws)) ∙ e) line,
  lines,
)

last_line : (c : ℕ) → AreLines (is_line_break c) (split_lines (c ∷ []))
unfolding AreLines LineAt join split_lines
last_line c = elim (Bool-cases (breaks c [])) [
  | inl e ↦
      subst (AreLines (is_line_break c)) (sym (split-break c [] e))
        (refl, LineAt-break (is_line_break c) c [] e, tt)
  | inr e ↦
      subst (AreLines (is_line_break c)) (sym (split-onto c [] e))
        (refl, λ n f g. rw (g (ground (arith, e)) refl) (split-onto c [] e), tt)
]

split_empty : split_lines [] ≡ []
unfolding split_lines
split_empty = refl

pub split_lines-AreLines : (s : Text) → AreLines (ends_line s) (split_lines s)
unfolding AreLines ends_line
split_lines-AreLines [] = subst (AreLines true) (sym split_empty) tt
split_lines-AreLines (c ∷ []) = last_line c
split_lines-AreLines (c ∷ (d ∷ s)) =
    let whole = join-split_lines (d ∷ s) in
    let rest = split_lines-AreLines (d ∷ s) in
    elim (Bool-cases (breaks c (d ∷ s))) [
      | inl e ↦ subst (AreLines (ends_line (d ∷ s))) (sym (split-break c (d ∷ s) e)) (
        refl,
        LineAt-break (ends_line (d ∷ s)) c (join [] (split_lines (d ∷ s)))
            (ap (breaks c) whole ∙ e),
        rest,
      )
      | inr e ↦ subst (AreLines (ends_line (d ∷ s))) (sym (split-onto c (d ∷ s) e)) (
          AreLines-onto (ends_line (d ∷ s)) c (split_lines (d ∷ s)) (ap truthy whole)
            (ap (breaks c) whole ∙ e) rest)
    ]

-- Lines that make an empty text are none.
pub AreLines-none :
    (closed : Bool) (ls : List Text) → AreLines closed ls → truthy (join [] ls) ≡ false → ls ≡ []
unfolding AreLines
AreLines-none closed [] lines e = refl
AreLines-none closed ([] ∷ ls) (filled, line, lines) e = absurd (ground (arith, filled))
AreLines-none closed ((c ∷ l) ∷ ls) (filled, line, lines) e =
    absurd (ground (arith, ap truthy (join-line (c ∷ l) ls), e))
