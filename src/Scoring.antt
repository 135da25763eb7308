-- ===== src/Scoring.antt =====
-- quansec/protocols/scoring/router.py: the points of a key exchange, by its name, and the grades. Letters
-- are the ASCII ones.
pub mod Strength
mod Tests
use quansec_pqc_platform.Prelude.{
  ℕ, Bool, true, false, ◌||◌, List, [], ◌∷◌, Text, codes, lower, truthy, leb, if◌then◌else◌,
  contains_text,
}

-- ALGO_STRENGTH, in its order.
abbrev pub algo_strengths : List (Text × ℕ)
algo_strengths =
    (codes "mlkem1024", 100)
    ∷ (codes "ml-kem-1024", 100)
    ∷ (codes "mlkem768", 85)
    ∷ (codes "ml-kem-768", 85)
    ∷ (codes "mlkem768x25519-sha256", 90)
    ∷ (codes "sntrup761", 80)
    ∷ (codes "sntrup761x25519-sha512@openssh.com", 82)
    ∷ (codes "x25519mlkem768", 90)
    ∷ (codes "secp256r1mlkem768", 88)
    ∷ (codes "x25519kyber768draft00", 80)
    ∷ (codes "x25519", 30)
    ∷ (codes "prime256v1", 25)
    ∷ (codes "secp256r1", 25)
    ∷ (codes "secp384r1", 28)
    ∷ (codes "curve25519", 30)
    ∷ (codes "curve25519-sha256", 30)
    ∷ (codes "ecdh", 25)
    ∷ (codes "dh", 20)
    ∷ []

unfoldable pub unlisted_strength : Text → ℕ
unfolding contains_text
unlisted_strength k =
    if contains_text (codes "mlkem") k || contains_text (codes "kyber") k then 85 else 20

-- The first entry whose name is a part of the key exchange's.
unfoldable pub strength_in : Text → List (Text × ℕ) → ℕ
unfolding unlisted_strength
strength_in k [] = unlisted_strength k
strength_in k ((name, score) ∷ rest) =
    let later = strength_in k rest in if contains_text name k then score else later

unfoldable pub algo_strength : Text → ℕ
unfolding strength_in lower
algo_strength kex = if truthy kex then strength_in (lower kex) algo_strengths else 0
