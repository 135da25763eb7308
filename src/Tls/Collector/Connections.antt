-- ===== src/Tls/Collector/Connections.antt =====
-- quansec/protocols/tls/collector.py, `_connection_id`: connections of two listeners.
use quansec_pqc_platform.Prelude.{
  ℕ, ◌==◌, true, false, Option, none, some, [], ◌∷◌, ◌++◌, ◌≡◌, refl, ap, ap₂, Text, truthy, All,
  arith,
}
use quansec_pqc_platform.Tls.Collector.{connection_id_of}

head_or : Text → ℕ
head_or [] = 0
head_or (c ∷ t) = c

tail_of : Text → Text
tail_of [] = []
tail_of (c ∷ t) = t

opened : Option Text → Text
opened none = []
opened (some t) = t

-- A port, or another name without a colon.
abbrev pub HasNoColon : Text → Type 0
HasNoColon = All (λ c. (c == 58) ≡ false)

unjoin :
    (l m c d : Text) → HasNoColon l → HasNoColon m → l ++ 58 ∷ c ≡ m ++ 58 ∷ d → (l ≡ m) × (c ≡ d)
unfolding head_or tail_of
unjoin [] [] c d h k e = (refl, ap tail_of e)
unjoin [] (y ∷ m) c d h (differs, k) e = absurd (grind (arith, ap head_or e))
unjoin (x ∷ l) [] c d (differs, h) k e = absurd (grind (arith, ap head_or e))
unjoin (x ∷ l) (y ∷ m) c d (differs, h) (differs', k) e =
    let (same, rest) = unjoin l m c d h k (ap tail_of e) in
    (ap₂ (λ a t. a ∷ t) (ap head_or e) same, rest)

-- Two connections with one id are one connection of one listener, for listeners whose names are not
-- empty and have no colon, and connection numbers that are not empty.
pub connection_id_of-separates :
    (l m c d : Text)
    → HasNoColon l
    → HasNoColon m
    → truthy l ≡ true
    → truthy m ≡ true
    → truthy c ≡ true
    → truthy d ≡ true
    → connection_id_of (some l) (some c) ≡ connection_id_of (some m) (some d)
    → (l ≡ m) × (c ≡ d)
unfolding connection_id_of opened
connection_id_of-separates [] m c d h k nl nm nc nd e = ground arith
connection_id_of-separates (x ∷ l) [] c d h k nl nm nc nd e = ground arith
connection_id_of-separates (x ∷ l) (y ∷ m) [] d h k nl nm nc nd e = ground arith
connection_id_of-separates (x ∷ l) (y ∷ m) (a ∷ c) [] h k nl nm nc nd e = ground arith
connection_id_of-separates (x ∷ l) (y ∷ m) (a ∷ c) (b ∷ d) h k nl nm nc nd e =
    unjoin (x ∷ l) (y ∷ m) (a ∷ c) (b ∷ d) h k (ap opened e)
