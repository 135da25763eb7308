-- ===== src/Scoring/Tests.antt =====
-- The group that the platform enforces.
use quansec_pqc_platform.Prelude.{
  ◌≡◌, refl, codes, truthy, lower, lower_code, starts_with, if◌then◌else◌, contains_text,
}
use quansec_pqc_platform.Scoring.{algo_strength, strength_in}
use quansec_pqc_platform.Scoring.Strength.{plain_strengths, algo_strength-shadowed}

enforced_group : algo_strength (codes "X25519MLKEM768") ≡ 85
unfolding algo_strength strength_in contains_text starts_with lower lower_code
enforced_group = refl

algo_strength-shadowed_example : algo_strength (codes "X25519MLKEM768") ≡ (
    if truthy (codes "X25519MLKEM768")
    then strength_in (lower (codes "X25519MLKEM768")) plain_strengths
    else 0)
algo_strength-shadowed_example = algo_strength-shadowed (codes "X25519MLKEM768")
