-- ===== src/Ipsec/Tests.antt =====
-- A tunnel with an installed child, and a tunnel that is no longer reported.
use quansec_pqc_platform.Prelude.{
  ◌≡◌, refl, true, false, none, some, [], ◌∷◌, codes, lower, lower_code, is_space, join,
  contains_text, words, words_from,
}
use quansec_pqc_platform.Ipsec.Sas.{
  IkeSa, ChildSa, Tunnel, is_pqc, extract_pqc_kem, kem_in, normalise_sa,
}
use quansec_pqc_platform.Ipsec.Collector.{IpsecDb, tunnel_summary}
use quansec_pqc_platform.Ipsec.Collector.Recorded.{Recorded}
use quansec_pqc_platform.Ipsec.Established.{installed_never_up}

abbrev child : ChildSa
child = record {
  encr_alg = some (codes "AES_GCM_16");
  encr_keysize = some (codes "256");
  integ_alg = none;
  state = some (codes "INSTALLED");
  bytes_in = some 84;
  bytes_out = some 168;
  packets_in = some 1;
  packets_out = some 2;
}

abbrev ike : IkeSa
ike = record {
  encr_alg = some (codes "AES_CBC");
  encr_keysize = some (codes "256");
  integ_alg = some (codes "HMAC_SHA2_256_128");
  prf_alg = some (codes "PRF_HMAC_SHA2_256");
  dh_group = some (codes "ML_KEM_768");
  local_host = some (codes "10.0.0.1");
  local_id = none;
  remote_host = some (codes "10.0.0.2");
  remote_id = none;
  state = some (codes "ESTABLISHED");
  version = some 2;
  established = some 60;
  child_sas = (codes "net", child) ∷ [];
}

kem_of_group : extract_pqc_kem (codes "AES-256-ML_KEM_768") ≡ some (codes "ML-KEM-768")
unfolding extract_pqc_kem kem_in words words_from lower lower_code is_space contains_text join
kem_of_group = refl

-- A family without a size is post-quantum, and has no label.
unlabelled : (is_pqc (codes "aes-ml-kem") ≡ true) × (extract_pqc_kem (codes "aes-ml-kem") ≡ none)
unfolding is_pqc extract_pqc_kem kem_in words words_from lower lower_code is_space contains_text
    join
unlabelled = (refl, refl)

abbrev old_tunnel : Tunnel
old_tunnel = record {
  name = codes "old";
  local_host = [];
  local_id = none;
  remote_host = [];
  remote_id = none;
  state = codes "ESTABLISHED";
  ike_version = 2;
  ike_proposal = [];
  esp_proposal = none;
  pqc_kem = none;
  pqc_enabled = false;
  bytes_in = 0;
  bytes_out = 0;
  packets_in = 0;
  packets_out = 0;
  established_at = none;
}

abbrev one_old : IpsecDb
one_old = record { rows = record { tunnel = old_tunnel; last_seen = 100 } ∷ []; events = [] }

installed_never_up_example :
    (tunnel_summary (normalise_sa 1_000 ((codes "pqc-tunnel", ike) ∷ []))).up ≡ 0
installed_never_up_example =
    installed_never_up 1_000 ((codes "pqc-tunnel", ike) ∷ []) ((refl, tt), tt)
