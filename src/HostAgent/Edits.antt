-- ===== src/HostAgent/Edits.antt =====
-- quansec/host_policy_agent.py, `apply_ssh`: what the lines of the written file are, beside those of the file before.
use quansec_pqc_platform.Prelude.{
  ◌≡◌, refl, sym, ap, ◌∙◌, subst, inl, inr, Bool, true, false, ◌||◌, not, Option, none, some, List,
  [], ◌∷◌, ◌++◌, Text, codes, eq_text, eq_text_refl, strip, lstrip, is_space, starts_with, join,
  any, all, is_none, if◌then◌else◌, arith, Bool-cases,
}
use quansec_pqc_platform.HostAgent.{
  is_line_break, starts_line_feed, onto, ssh_policies, split_lines, is_kex, replacement, replaced,
  updated,
}
use quansec_pqc_platform.HostAgent.Lines.{
  split-break, split-onto, join-line, LineAt, AreLines, AreLines-none,
}

-- A line that sets the key exchange sets these algorithms.
abbrev pub allows : Text → Text → Bool
allows algorithms line = not (is_kex line) || eq_text line (replacement algorithms)

abbrev pub sets : Text → Text → Bool
sets algorithms line = eq_text line (replacement algorithms)

sets-replacement : (a : Text) → sets a (replacement a) ≡ true
sets-replacement a = eq_text_refl (replacement a)

all-replaced : (a : Text) (lines : List Text) → all (allows a) (replaced a lines) ≡ true
all-replaced a [] = refl
all-replaced a (l ∷ ls) =
    let known = sets-replacement a in
    elim (Bool-cases (is_kex l)) [
      | inl kex ↦ ground (arith, kex, known, all-replaced a ls)
      | inr other ↦ ground (arith, other, all-replaced a ls)
    ]

any-replaced :
    (a : Text) (lines : List Text)
    → any is_kex lines ≡ true
    → any (sets a) (replaced a lines) ≡ true
any-replaced a [] e = ground (arith, e)
any-replaced a (l ∷ ls) e =
    let known = sets-replacement a in
    elim (Bool-cases (is_kex l)) [
      | inl kex ↦ ground (arith, kex, known)
      | inr other ↦
          let rest = any-replaced a ls (ground (arith, e, other)) in ground (arith, other, rest)
    ]

any-last :
    (p : Text → Bool) (xs : List Text) (x : Text) → p x ≡ true → any p (xs ++ (x ∷ [])) ≡ true
any-last p [] x e = ground (arith, e)
any-last p (y ∷ ys) x e = ground (arith, any-last p ys x e)

all-last :
    (p : Text → Bool) (xs : List Text) (x : Text)
    → all p xs ≡ true
    → p x ≡ true
    → all p (xs ++ (x ∷ [])) ≡ true
all-last p [] x e last = ground (arith, last)
all-last p (y ∷ ys) x e last =
    let rest = all-last p ys x (ground (arith, e)) last in ground (arith, e, rest)

pub any-updated : (a : Text) (lines : List Text) → any (sets a) (updated a lines) ≡ true
unfolding updated
any-updated a lines = elim (Bool-cases (any is_kex lines)) [
  | inl kex ↦ rw kex (any-replaced a lines kex)
  | inr other ↦ rw other (any-last (sets a) (replaced a lines) (replacement a) (sets-replacement a))
]

pub all-updated : (a : Text) (lines : List Text) → all (allows a) (updated a lines) ≡ true
unfolding updated
all-updated a lines =
    let known = sets-replacement a in
    elim (Bool-cases (any is_kex lines)) [
      | inl kex ↦ rw kex (all-replaced a lines)
      | inr other ↦ rw other (
          all-last (allows a) (replaced a lines) (replacement a) (all-replaced a lines)
            (ground (arith, known)))
    ]

-- The algorithms stand on one line, and their directive is read as one.
pub record IsDirective (a : Text) : Type 0 where
  pub plain : all (λ c. not (is_line_break c)) (codes "KexAlgorithms " ++ a) ≡ true
  pub directive : is_kex (replacement a) ≡ true

allowed : Option Text → Text
allowed none = []
allowed (some a) = a

pub ssh_policies-IsDirective : (policy a : Text) → ssh_policies policy ≡ some a → IsDirective a
unfolding allowed strip lstrip is_space starts_with
ssh_policies-IsDirective policy a =
    by_tests (eq_text policy (codes "classical")) (eq_text policy (codes "pqc-hybrid"))
  where
    by_tests :
        (b c : Bool)
        → (if b
            then some (codes "curve25519-sha256")
            else if c
            then some (codes "mlkem768x25519-sha256")
            else none)
          ≡ some a
        → IsDirective a
    by_tests true c e = subst IsDirective (ap allowed e) (record { plain = refl; directive = refl })
    by_tests false true e =
        subst IsDirective (ap allowed e) (record { plain = refl; directive = refl })
    by_tests false false e = absurd (ground (arith, ap is_none e))

-- A text without a line break, before a line feed.
split-plain :
    (s n : Text)
    → all (λ c. not (is_line_break c)) s ≡ true
    → split_lines ((s ++ (10 ∷ [])) ++ n) ≡ (s ++ (10 ∷ [])) ∷ split_lines n
split-plain [] n e = split-break 10 n refl
split-plain (c ∷ s) n e =
    split-onto c ((s ++ (10 ∷ [])) ++ n) (ground (arith, e))
    ∙ ap (onto c) (split-plain s n (ground (arith, e)))

join_none : join [] [] ≡ []
unfolding join
join_none = refl

split_none : split_lines [] ≡ []
unfolding split_lines
split_none = refl

join-replaced_none :
    (a : Text) (ls tail : List Text) → ls ≡ [] → tail ≡ [] → join [] (replaced a ls ++ tail) ≡ []
join-replaced_none a ls tail e f = rw (e, f) join_none

module _ (a : Text) (d : IsDirective a) where
  pub split-replacement :
      (n : Text) → split_lines (replacement a ++ n) ≡ replacement a ∷ split_lines n
  split-replacement n = split-plain (codes "KexAlgorithms " ++ a) n d.plain

  replaced-kex :
      (l : Text) (ls : List Text)
      → is_kex l ≡ true
      → replaced a (l ∷ ls) ≡ replacement a ∷ replaced a ls
  replaced-kex l ls kex = rw kex refl

  replaced-other :
      (l : Text) (ls : List Text) → is_kex l ≡ false → replaced a (l ∷ ls) ≡ l ∷ replaced a ls
  replaced-other l ls other = rw other refl

  -- No line feed comes to stand at the beginning of what follows a line.
  follow_line :
      (l s t : Text)
      → (starts_line_feed s ≡ true → starts_line_feed t ≡ true)
      → starts_line_feed (l ++ s) ≡ true
      → starts_line_feed (l ++ t) ≡ true
  follow_line [] s t f e = f e
  follow_line (c ∷ l) s t f e = e

  follows :
      (ls tail : List Text)
      → starts_line_feed (join [] tail) ≡ false
      → starts_line_feed (join [] (replaced a ls ++ tail)) ≡ true
      → starts_line_feed (join [] ls) ≡ true
  follows [] tail apart e = absurd (ground (arith, apart, e))
  follows (l ∷ ls) tail apart e = elim (Bool-cases (is_kex l)) [
    | inl kex ↦
        let begins : starts_line_feed (join [] (replacement a ∷ (replaced a ls ++ tail))) ≡ true =
          subst (λ ks. starts_line_feed (join [] (ks ++ tail)) ≡ true) (replaced-kex l ls kex) e in
        absurd (
          ground (
            arith,
            begins,
            ap starts_line_feed (join-line (replacement a) (replaced a ls ++ tail)),
          ))
    | inr other ↦
        let begins : starts_line_feed (join [] (l ∷ (replaced a ls ++ tail))) ≡ true =
          subst (λ ks. starts_line_feed (join [] (ks ++ tail)) ≡ true) (replaced-other l ls other)
            e in
        ap starts_line_feed (join-line l ls)
        ∙ follow_line l (join [] (replaced a ls ++ tail)) (join [] ls) (follows ls tail apart)
            (sym (ap starts_line_feed (join-line l (replaced a ls ++ tail))) ∙ begins)
  ]

  pub split-line :
      (l : Text) (ks : List Text)
      → split_lines (l ++ join [] ks) ≡ l ∷ split_lines (join [] ks)
      → split_lines (join [] ks) ≡ ks
      → split_lines (join [] (l ∷ ks)) ≡ l ∷ ks
  split-line l ks first rest =
      ap split_lines (join-line l ks) ∙ first ∙ ap (λ (x : List Text). l ∷ x) rest

  pub split-replaced :
      (closed : Bool) (ls tail : List Text)
      → AreLines closed ls
      → split_lines (join [] tail) ≡ tail
      → starts_line_feed (join [] tail) ≡ false
      → (closed ≡ false → tail ≡ [])
      → split_lines (join [] (replaced a ls ++ tail)) ≡ replaced a ls ++ tail
  unfolding AreLines LineAt
  split-replaced closed [] tail lines whole apart open_ = whole
  split-replaced closed (l ∷ ls) tail (filled, line, lines) whole apart open_ =
      let rest = split-replaced closed ls tail lines whole apart open_ in
      elim (Bool-cases (is_kex l)) [
        | inl kex ↦
            subst (λ ks. split_lines (join [] (ks ++ tail)) ≡ ks ++ tail)
              (sym (replaced-kex l ls kex))
              (split-line (replacement a) (replaced a ls ++ tail)
                (split-replacement (join [] (replaced a ls ++ tail))) rest)
        | inr other ↦
            subst (λ ks. split_lines (join [] (ks ++ tail)) ≡ ks ++ tail)
              (sym (replaced-other l ls other))
              (split-line l (replaced a ls ++ tail)
                (line (join [] (replaced a ls ++ tail)) (follows ls tail apart) (λ ajar ended.
                  join-replaced_none a ls tail (AreLines-none closed ls lines ended) (open_ ajar)))
                rest)
      ]
