-- ===== src/Prelude/Strings.antt =====
-- Text as the list of its code points, and the `str` methods that the program calls. Letters and
-- white space are the ASCII ones.
use Prim.Native.Nat.{ℕ, ◌+◌, ◌-◌}
use Prim.Native.Char.{code}
use Prim.Native.String.{String}
use mathlib.Core.Path.{◌≡◌, refl}
use mathlib.Core.Logic.{◌↔◌}
use mathlib.Core.Bool.{Bool, true, false, ◌&&◌, ◌||◌}
use mathlib.Core.List.{List, [], ◌∷◌, ◌++◌, map, reverse}
use native.Mathlib.Omega.{arith}
use quansec_pqc_platform.Prelude.Tests.{◌==◌, leb, if◌then◌else◌}

abbrev pub Text : Type 0
Text = List ℕ

abbrev pub codes : String → Text
codes String.[] = []
codes (String.◌∷◌ c s) = code c ∷ codes s

unfoldable pub eq_text : Text → Text → Bool
eq_text [] [] = true
eq_text [] (d ∷ t) = false
eq_text (c ∷ s) [] = false
eq_text (c ∷ s) (d ∷ t) = c == d && eq_text s t

pub eq_text_sound : (s t : Text) → eq_text s t ≡ true → s ≡ t
unfolding eq_text
eq_text_sound [] [] h = refl
eq_text_sound [] (d ∷ t) h = ground arith
eq_text_sound (c ∷ s) [] h = ground arith
eq_text_sound (c ∷ s) (d ∷ t) h = ground (arith, eq_text_sound s t)

pub eq_text_refl : (s : Text) → eq_text s s ≡ true
unfolding eq_text
eq_text_refl [] = refl
eq_text_refl (c ∷ s) = ground (arith, eq_text_refl s)

pub eq_text_iff : (s t : Text) → (eq_text s t ≡ true) ↔ (s ≡ t)
eq_text_iff s t = (eq_text_sound s t, λ e. rw e (eq_text_refl t))

-- A text is true in a condition when it is not empty.
abbrev pub truthy : Text → Bool
truthy [] = false
truthy (c ∷ s) = true

unfoldable pub is_space : ℕ → Bool
is_space c = c == 32 || (leb 9 c && leb c 13) || (leb 28 c && leb c 31)

unfoldable pub lower_code : ℕ → ℕ
lower_code c = if leb 65 c && leb c 90 then c + 32 else c

-- s.lower()
unfoldable pub lower : Text → Text
unfolding lower_code
lower s = map lower_code s

unfoldable pub lstrip : Text → Text
unfolding is_space
lstrip [] = []
lstrip (c ∷ s) = if is_space c then lstrip s else c ∷ s

-- s.strip()
unfoldable pub strip : Text → Text
unfolding lstrip
strip s = reverse (lstrip (reverse (lstrip s)))

-- s.startswith(p)
unfoldable pub starts_with : Text → Text → Bool
starts_with s [] = true
starts_with [] (c ∷ p) = false
starts_with (d ∷ s) (c ∷ p) = d == c && starts_with s p

-- s.endswith(p)
unfoldable pub ends_with : Text → Text → Bool
unfolding starts_with
ends_with s p = starts_with (reverse s) (reverse p)

-- sep.join(texts)
unfoldable pub join : Text → List Text → Text
join sep [] = []
join sep (t ∷ []) = t
join sep (t ∷ (u ∷ us)) = t ++ (sep ++ join sep (u ∷ us))

-- part in s
unfoldable pub contains_text : Text → Text → Bool
unfolding starts_with
contains_text part [] = starts_with [] part
contains_text part (c ∷ s) = starts_with (c ∷ s) part || contains_text part s

unfoldable pub upper_code : ℕ → ℕ
upper_code c = if leb 97 c && leb c 122 then c - 32 else c

-- s.upper()
unfoldable pub upper : Text → Text
unfolding upper_code
upper s = map upper_code s

abbrev add_code : ℕ → List Text → List Text
add_code c [] = (c ∷ []) ∷ []
add_code c (w ∷ ws) = (c ∷ w) ∷ ws

-- The words from here on, and whether the text begins with one of them.
unfoldable pub words_from : Text → Bool × List Text
unfolding is_space
words_from [] = (false, [])
words_from (c ∷ t) =
    let (inside, ws) = words_from t in
    if is_space c then (false, ws) else (true, if inside then add_code c ws else (c ∷ []) ∷ ws)

-- s.split()
unfoldable pub words : Text → List Text
unfolding words_from
words t = let (inside, ws) = words_from t in ws
