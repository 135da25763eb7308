-- ===== src/Scoring/Strength.antt =====
-- quansec/protocols/scoring/router.py, `_algo_strength`: the entries of the table that are never reached.
use quansec_pqc_platform.Prelude.{
  ℕ, ◌≡◌, refl, ap, Bool, true, List, [], ◌∷◌, ◌++◌, Text, codes, starts_with, lower, truthy, arith,
  if◌then◌else◌, contains_text,
}
use quansec_pqc_platform.Scoring.{algo_strengths, strength_in, algo_strength}

starts_with-front : (s p q : Text) → starts_with s (p ++ q) ≡ true → starts_with s p ≡ true
unfolding starts_with
starts_with-front s [] q h = by_text s
  where
    by_text : (t : Text) → starts_with t [] ≡ true
    by_text [] = refl
    by_text (c ∷ t) = refl
starts_with-front [] (c ∷ p) q h = h
starts_with-front (d ∷ s) (c ∷ p) q h = ground (arith, h, starts_with-front s p q)

-- A part of a part.
contains_text-front : (p q k : Text) → contains_text (p ++ q) k ≡ true → contains_text p k ≡ true
unfolding contains_text
contains_text-front p q [] h = starts_with-front [] p q h
contains_text-front p q (c ∷ k) h =
    ground (arith, h, starts_with-front (c ∷ k) p q, contains_text-front p q k)

starts_with-contains_text : (p k : Text) → starts_with k p ≡ true → contains_text p k ≡ true
unfolding contains_text
starts_with-contains_text p [] h = h
starts_with-contains_text p (c ∷ k) h = ground (arith, h)

starts_with-back : (q p k : Text) → starts_with k (q ++ p) ≡ true → contains_text p k ≡ true
unfolding starts_with contains_text
starts_with-back [] p k h = starts_with-contains_text p k h
starts_with-back (c ∷ q) p [] h = absurd (ground (arith, h))
starts_with-back (c ∷ q) p (d ∷ k) h = ground (arith, h, starts_with-back q p k)

contains_text-back : (q p k : Text) → contains_text (q ++ p) k ≡ true → contains_text p k ≡ true
unfolding contains_text
contains_text-back q p [] h = starts_with-back q p [] h
contains_text-back q p (c ∷ k) h =
    ground (arith, h, starts_with-back q p (c ∷ k), contains_text-back q p k)

abbrev other_strengths : List (Text × ℕ)
other_strengths =
    (codes "x25519kyber768draft00", 80)
    ∷ (codes "x25519", 30)
    ∷ (codes "prime256v1", 25)
    ∷ (codes "secp256r1", 25)
    ∷ (codes "secp384r1", 28)
    ∷ (codes "curve25519", 30)
    ∷ (codes "curve25519-sha256", 30)
    ∷ (codes "ecdh", 25)
    ∷ (codes "dh", 20)
    ∷ []

-- The table without its names of hybrids with ML-KEM and with NTRU Prime.
abbrev pub plain_strengths : List (Text × ℕ)
plain_strengths =
    (codes "mlkem1024", 100)
    ∷ (codes "ml-kem-1024", 100)
    ∷ (codes "mlkem768", 85)
    ∷ (codes "ml-kem-768", 85)
    ∷ (codes "sntrup761", 80)
    ∷ other_strengths

module _ (rest : ℕ) (mlkem sntrup hybrid sntrup_hybrid tls_hybrid tls_p256 : Bool)
    (hybrid_in : hybrid ≡ true → mlkem ≡ true) (sntrup_in : sntrup_hybrid ≡ true → sntrup ≡ true)
    (tls_in : tls_hybrid ≡ true → mlkem ≡ true) (p256_in : tls_p256 ≡ true → mlkem ≡ true) where
  shadowed :
      (a b c : Bool)
      → (if a
          then 100
          else if b
          then 100
          else if mlkem
          then 85
          else if c
          then 85
          else if hybrid
          then 90
          else if sntrup
          then 80
          else if sntrup_hybrid
          then 82
          else if tls_hybrid
          then 90
          else if tls_p256
          then 88
          else rest)
        ≡ (if a
            then 100
            else if b
            then 100
            else if mlkem
            then 85
            else if c
            then 85
            else if sntrup
            then 80
            else rest)
  shadowed a b c = ground (arith, hybrid_in, sntrup_in, tls_in, p256_in)

-- The hybrid names of the table, with the points 90, 88 and 82, never count: a name that has one of them as a
-- part also has the plain KEM as a part, which comes first. The points are those of the table without
-- them.
pub algo_strength-shadowed :
    (kex : Text)
    → algo_strength kex ≡ (if truthy kex then strength_in (lower kex) plain_strengths else 0)
unfolding algo_strength strength_in
algo_strength-shadowed kex = ap (λ n. if truthy kex then n else 0) (by_key (lower kex))
  where
    by_key : (k : Text) → strength_in k algo_strengths ≡ strength_in k plain_strengths
    by_key k =
        shadowed (strength_in k other_strengths) (contains_text (codes "mlkem768") k)
          (contains_text (codes "sntrup761") k) (contains_text (codes "mlkem768x25519-sha256") k)
          (contains_text (codes "sntrup761x25519-sha512@openssh.com") k)
          (contains_text (codes "x25519mlkem768") k) (contains_text (codes "secp256r1mlkem768") k)
          (contains_text-front (codes "mlkem768") (codes "x25519-sha256") k)
          (contains_text-front (codes "sntrup761") (codes "x25519-sha512@openssh.com") k)
          (contains_text-back (codes "x25519") (codes "mlkem768") k)
          (contains_text-back (codes "secp256r1") (codes "mlkem768") k)
          (contains_text (codes "mlkem1024") k) (contains_text (codes "ml-kem-1024") k)
          (contains_text (codes "ml-kem-768") k)
