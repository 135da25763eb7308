-- ===== src/AccessTokens/Decimal.antt =====
-- str(n) and int(s): a natural number as decimal digits, and Python's reading of an integer.
use quansec_pqc_platform.Prelude.{
  not, all, ℕ, zero, suc, ◌+◌, ◌-◌, ◌*◌, ◌/◌, ◌%◌, ◌<◌, ◌≡◌, refl, Bool, true, false, ◌&&◌, Option,
  none, some, [], ◌∷◌, ◌++◌, Text, strip, leb, ltb, ◌==◌, arith, if◌then◌else◌, Bool-cases, inl,
  inr, ◌∙◌, ap, lstrip,
}
use mathlib.Core.List.{reverse, reverse-cons, reverse-reverse}
use quansec_pqc_platform.Json.{ℤ, pos, negsuc}

-- Digits in front of `acc`. The fuel bounds their number; `decimal` gives `n + 1`.
unfoldable pub digits_of : ℕ → ℕ → Text → Text
digits_of zero n acc = acc
digits_of (suc f) n acc =
    let rest = digits_of f (n / 10) ((48 + n % 10) ∷ acc) in
    if ltb n 10 then (48 + n) ∷ acc else rest

unfoldable pub decimal : ℕ → Text
unfolding digits_of
decimal n = digits_of (suc n) n []

abbrev pub is_digit : ℕ → Bool
is_digit c = leb 48 c && leb c 57

-- Digits with single underscores between them; `none` is a ValueError. `wants` says that a digit must
-- follow: at the start, and after an underscore.
unfoldable pub read_digits : Bool → ℕ → Text → Option ℕ
read_digits wants n [] = if wants then none else some n
read_digits wants n (c ∷ s) =
    let more = read_digits false (n * 10 + (c - 48)) s in
    let skipped = read_digits true n s in
    if is_digit c then more else if c == 95 && not wants then skipped else none

abbrev negate : Option ℕ → Option ℤ
negate none = none
negate (some zero) = some (pos 0)
negate (some (suc n)) = some (negsuc n)

abbrev as_int : Option ℕ → Option ℤ
as_int none = none
as_int (some n) = some (pos n)

unfoldable pub read_signed : Text → Option ℤ
unfolding read_digits
read_signed [] = none
read_signed (c ∷ s) =
    if c == 45
    then negate (read_digits true 0 s)
    else if c == 43
    then as_int (read_digits true 0 s)
    else as_int (read_digits true 0 (c ∷ s))

-- int(s)
unfoldable pub parse_int : Text → Option ℤ
unfolding read_signed strip
parse_int s = read_signed (strip s)

read_digits-digits_of :
    (f n : ℕ) (acc : Text)
    → n < f
    → (m : ℕ) (wants : Bool)
    → (k : ℕ) × (read_digits wants m (digits_of f n acc) ≡ read_digits false k acc)
      × (m ≡ 0 → k ≡ n)
unfolding digits_of read_digits
read_digits-digits_of zero n acc h m wants = elim h [ ]
read_digits-digits_of (suc f) n acc h m wants = elim (Bool-cases (ltb n 10)) [
  | inl small ↦ (m * 10 + n, ground arith, λ e. ground arith)
  | inr big ↦
      let (k, reads, value) =
        read_digits-digits_of f (n / 10) ((48 + n % 10) ∷ acc) (ground arith) m wants in
      (k * 10 + n % 10, ground (arith, reads), λ e. ground (arith, value e))
]

all_digits-digits_of :
    (f n : ℕ) (acc : Text)
    → n < f
    → all is_digit acc ≡ true
    → all is_digit (digits_of f n acc) ≡ true
unfolding digits_of
all_digits-digits_of zero n acc h a = elim h [ ]
all_digits-digits_of (suc f) n acc h a =
    ground (arith, all_digits-digits_of f (n / 10) ((48 + n % 10) ∷ acc))

read_signed-digits :
    (s : Text) (n : ℕ)
    → all is_digit s ≡ true
    → read_digits true 0 s ≡ some n
    → read_signed s ≡ some (pos n)
unfolding read_signed
read_signed-digits [] n a e = absurd (ground arith)
read_signed-digits (c ∷ s) n a e = ground (arith, e)

lstrip-digits : (s : Text) → all is_digit s ≡ true → lstrip s ≡ s
unfolding lstrip
lstrip-digits [] a = refl
lstrip-digits (c ∷ s) a = ground arith

all-append : (s t : Text) → all is_digit (s ++ t) ≡ (all is_digit s && all is_digit t)
all-append [] t = refl
all-append (c ∷ s) t = ground (arith, all-append s t)

all-reverse : (s : Text) → all is_digit (reverse s) ≡ all is_digit s
all-reverse [] = refl
all-reverse (c ∷ s) =
    ap (all is_digit) (reverse-cons c s)
    ∙ all-append (reverse s) (c ∷ [])
    ∙ ground (arith, all-reverse s)

strip-digits : (s : Text) → all is_digit s ≡ true → strip s ≡ s
unfolding strip
strip-digits s a =
    ap (λ (t : Text). reverse (lstrip (reverse t))) (lstrip-digits s a)
    ∙ ap reverse (lstrip-digits (reverse s) (all-reverse s ∙ a))
    ∙ reverse-reverse s

-- int(str(n)) is n.
pub parse_int-decimal : (n : ℕ) → parse_int (decimal n) ≡ some (pos n)
unfolding parse_int decimal
parse_int-decimal n =
    let a = all_digits-digits_of (suc n) n [] (omega arith) refl in
    let (k, reads, value) = read_digits-digits_of (suc n) n [] (omega arith) 0 true in
    ap read_signed (strip-digits (digits_of (suc n) n []) a)
    ∙ read_signed-digits (digits_of (suc n) n []) n a
        (reads ∙ (unfold read_digits in ap some (value refl)))
