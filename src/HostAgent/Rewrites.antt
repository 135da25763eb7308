-- ===== src/HostAgent/Rewrites.antt =====
-- quansec/host_policy_agent.py, `apply_ssh`: the file that is written, read again line by line.
use quansec_pqc_platform.Prelude.{
  ◌≡◌, refl, sym, ap, ◌∙◌, subst, ◌⊎◌, inl, inr, Bool, true, false, ◌||◌, not, List, [], ◌∷◌, ◌++◌,
  Text, eq_text_sound, join, any, all, keep, arith, Bool-cases,
}
use quansec_pqc_platform.HostAgent.{split_lines, is_kex, replacement, replaced, updated}
use quansec_pqc_platform.HostAgent.Lines.{
  ends_line, join-line, join-split_lines, split_lines-AreLines,
}
use quansec_pqc_platform.HostAgent.Edits.{
  sets, allows, any-updated, all-updated, IsDirective, split-replacement, split-line,
  split-replaced,
}

-- The directive finds a line of its own: the text ends with its last line, or a line is replaced.
unfoldable pub has_place : Text → Bool
has_place text = ends_line text || any is_kex (split_lines text)

-- The lines of the file, as they are read: one at least sets the algorithms, none sets others, and the lines
-- that do not set the key exchange are those of the text.
pub record IsRewritten (a text file : Text) : Type 0 where
  pub some_set : any (sets a) (split_lines file) ≡ true
  pub none_else : all (allows a) (split_lines file) ≡ true
  pub kept :
      keep (λ l. not (is_kex l)) (split_lines file) ≡ keep (λ l. not (is_kex l)) (split_lines text)
  pub again : has_place file ≡ true

abbrev pub Edited : Text → Text → Text → Type 0
Edited a text file =
    ((has_place text ≡ true) × IsRewritten a text file)
    ⊎ ((has_place text ≡ false) × (file ≡ text ++ replacement a))

join-last : (ls : List Text) (l : Text) → join [] (ls ++ (l ∷ [])) ≡ join [] ls ++ l
unfolding join
join-last [] l = refl
join-last (k ∷ ls) l =
    join-line k (ls ++ (l ∷ []))
    ∙ ap (λ t. k ++ t) (join-last ls l)
    ∙ sym (append-assoc k (join [] ls) l)
    ∙ ap (λ t. t ++ l) (sym (join-line k ls))
  where
    append-assoc : (r s t : Text) → (r ++ s) ++ t ≡ r ++ (s ++ t)
    append-assoc [] s t = refl
    append-assoc (c ∷ r) s t = ap (λ u. c ∷ u) (append-assoc r s t)

replaced-same : (a : Text) (ls : List Text) → any is_kex ls ≡ false → replaced a ls ≡ ls
replaced-same a [] e = refl
replaced-same a (l ∷ ls) e =
    let other : is_kex l ≡ false = ground (arith, e) in
    rw other (ap (λ (x : List Text). l ∷ x) (replaced-same a ls (ground (arith, e))))

module _ (a : Text) (d : IsDirective a) where
  split-last : split_lines (join [] (replacement a ∷ [])) ≡ replacement a ∷ []
  unfolding join split_lines
  split-last = split-line a d (replacement a) [] (split-replacement a d []) refl

  split-updated :
      (text : Text)
      → has_place text ≡ true
      → split_lines (join [] (updated a (split_lines text))) ≡ updated a (split_lines text)
  unfolding has_place updated join split_lines
  split-updated text place = elim (Bool-cases (any is_kex (split_lines text))) [
    | inl kex ↦ rw kex (
        subst (λ ks. split_lines (join [] ks) ≡ ks) (lines-empty (replaced a (split_lines text)))
          (split-replaced a d (ends_line text) (split_lines text) [] (split_lines-AreLines text)
            refl refl (λ ajar. refl)))
    | inr other ↦ rw other (
        split-replaced a d (ends_line text) (split_lines text) (replacement a ∷ [])
          (split_lines-AreLines text) split-last refl
          (λ ajar. absurd (ground (arith, place, other, ajar))))
  ]
    where
      lines-empty : (ks : List Text) → ks ++ [] ≡ ks
      lines-empty [] = refl
      lines-empty (k ∷ ks) = ap (λ (x : List Text). k ∷ x) (lines-empty ks)

  keep-replaced :
      (ls : List Text) → keep (λ l. not (is_kex l)) (replaced a ls) ≡ keep (λ l. not (is_kex l)) ls
  keep-replaced [] = refl
  keep-replaced (l ∷ ls) = elim (Bool-cases (is_kex l)) [
    | inl kex ↦ rw (kex, d.directive) (keep-replaced ls)
    | inr other ↦ rw (other, other) (ap (λ (x : List Text). l ∷ x) (keep-replaced ls))
  ]

  keep-last :
      (ls : List Text)
      → keep (λ l. not (is_kex l)) (ls ++ (replacement a ∷ [])) ≡ keep (λ l. not (is_kex l)) ls
  keep-last [] = rw d.directive refl
  keep-last (l ∷ ls) = elim (Bool-cases (is_kex l)) [
    | inl kex ↦ rw kex (keep-last ls)
    | inr other ↦ rw other (ap (λ (x : List Text). l ∷ x) (keep-last ls))
  ]

  keep-updated :
      (ls : List Text) → keep (λ l. not (is_kex l)) (updated a ls) ≡ keep (λ l. not (is_kex l)) ls
  unfolding updated
  keep-updated ls = elim (Bool-cases (any is_kex ls)) [
    | inl kex ↦ rw kex (keep-replaced ls)
    | inr other ↦ rw other (keep-last (replaced a ls) ∙ keep-replaced ls)
  ]

  any-kex : (ls : List Text) → any (sets a) ls ≡ true → any is_kex ls ≡ true
  any-kex [] e = absurd (ground (arith, e))
  any-kex (l ∷ ls) e = elim (Bool-cases (sets a l)) [
    | inl same ↦
        let kex : is_kex l ≡ true =
          ap is_kex (eq_text_sound l (replacement a) same) ∙ d.directive in
        ground (arith, kex)
    | inr other ↦ let rest = any-kex ls (ground (arith, e, other)) in ground (arith, rest)
  ]

  place_kex : (file : Text) → any is_kex (split_lines file) ≡ true → has_place file ≡ true
  unfolding has_place
  place_kex file kex = ground (arith, kex)

  updated-IsRewritten :
      (text : Text)
      → has_place text ≡ true
      → IsRewritten a text (join [] (updated a (split_lines text)))
  updated-IsRewritten text place =
      let same = split-updated text place in
      record {
        some_set = ap (any (sets a)) same ∙ any-updated a (split_lines text);
        none_else = ap (all (allows a)) same ∙ all-updated a (split_lines text);
        kept = ap (keep (λ l. not (is_kex l))) same ∙ keep-updated (split_lines text);
        again = place_kex (join [] (updated a (split_lines text))) (
            any-kex (split_lines (join [] (updated a (split_lines text))))
              (ap (any (sets a)) same ∙ any-updated a (split_lines text)));
      }

  updated-appended :
      (text : Text)
      → has_place text ≡ false
      → join [] (updated a (split_lines text)) ≡ text ++ replacement a
  unfolding has_place updated
  updated-appended text place =
      let other : any is_kex (split_lines text) ≡ false = ground (arith, place) in
      rw other (
        ap (λ ls. join [] (ls ++ (replacement a ∷ []))) (replaced-same a (split_lines text) other)
        ∙ join-last (split_lines text) (replacement a)
        ∙ ap (λ t. t ++ replacement a) (join-split_lines text))

  pub updated-Edited : (text : Text) → Edited a text (join [] (updated a (split_lines text)))
  updated-Edited text = elim (Bool-cases (has_place text)) [
    | inl place ↦ inl (place, updated-IsRewritten text place)
    | inr ajar ↦ inr (ajar, updated-appended text ajar)
  ]
