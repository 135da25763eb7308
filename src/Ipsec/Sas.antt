-- ===== src/Ipsec/Sas.antt =====
-- quansec/protocols/ipsec/vici_client.py: from the security associations that strongSwan reports to tunnels. A
-- key that is missing from a report is `none`; the values arrive decoded. Letters and white space are
-- the ASCII ones.
use quansec_pqc_platform.Prelude.{
  ℕ, ◌-◌, Bool, ◌||◌, not, Option, none, some, List, [], ◌∷◌, ◌++◌, map, Text, codes, lower, any,
  keep, find, ◌==◌, if◌then◌else◌, join, contains_text, upper, words,
}
use mathlib.Core.List.{reverse}

pub record ChildSa : Type 0 where
  pub encr_alg : Option Text
  pub encr_keysize : Option Text
  pub integ_alg : Option Text
  pub state : Option Text
  pub bytes_in : Option ℕ
  pub bytes_out : Option ℕ
  pub packets_in : Option ℕ
  pub packets_out : Option ℕ

pub record IkeSa : Type 0 where
  pub encr_alg : Option Text
  pub encr_keysize : Option Text
  pub integ_alg : Option Text
  pub prf_alg : Option Text
  pub dh_group : Option Text
  pub local_host : Option Text
  pub local_id : Option Text
  pub remote_host : Option Text
  pub remote_id : Option Text
  pub state : Option Text
  pub version : Option ℕ
  pub established : Option ℕ
  pub child_sas : List (Text × ChildSa)

-- The dictionary of a tunnel.
pub record Tunnel : Type 0 where
  pub name : Text
  pub local_host : Text
  pub local_id : Option Text
  pub remote_host : Text
  pub remote_id : Option Text
  pub state : Text
  pub ike_version : ℕ
  pub ike_proposal : Text
  pub esp_proposal : Option Text
  pub pqc_kem : Option Text
  pub pqc_enabled : Bool
  pub bytes_in : ℕ
  pub bytes_out : ℕ
  pub packets_in : ℕ
  pub packets_out : ℕ
  pub established_at : Option ℕ

abbrev is_joiner : ℕ → Bool
is_joiner c = c == 45 || c == 95

abbrev pub pqc_keywords : List Text
pqc_keywords =
    codes "kyber"
    ∷ codes "mlkem"
    ∷ codes "ntru"
    ∷ codes "bike"
    ∷ codes "hqc"
    ∷ codes "frodo"
    ∷ codes "newhope"
    ∷ []

-- _is_pqc. The keywords are those of PQC_KEYWORDS without their joiners.
unfoldable pub is_pqc : Text → Bool
unfolding contains_text lower
is_pqc proposal =
    let normalized = keep (λ c. not (is_joiner c)) (lower proposal) in
    any (λ k. contains_text k normalized) pqc_keywords

abbrev pub known_kems : List (Text × Text)
known_kems =
    (codes "mlkem1024", codes "ML-KEM-1024")
    ∷ (codes "mlkem768", codes "ML-KEM-768")
    ∷ (codes "mlkem512", codes "ML-KEM-512")
    ∷ (codes "kyber1024", codes "Kyber1024")
    ∷ (codes "kyber768", codes "Kyber768")
    ∷ []

unfoldable pub kem_in : Text → List (Text × Text) → Option Text
unfolding contains_text
kem_in joined [] = none
kem_in joined ((part, label) ∷ rest) =
    if contains_text part joined then some label else kem_in joined rest

abbrev pub or_else : Option Text → Option Text → Option Text
or_else none o = o
or_else (some t) o = some t

-- _extract_pqc_kem
unfoldable pub extract_pqc_kem : Text → Option Text
unfolding words lower kem_in contains_text
extract_pqc_kem proposal =
    let parts = words (lower (map (λ c. if is_joiner c then 32 else c) proposal)) in
    or_else (kem_in (join [] parts) known_kems)
      (find (λ part. any (λ k. contains_text k part) pqc_keywords) parts)

abbrev pub or_empty : Option Text → Text
or_empty none = []
or_empty (some t) = t

abbrev pub or_zero : Option ℕ → ℕ
or_zero none = 0
or_zero (some n) = n

abbrev pub or_two : Option ℕ → ℕ
or_two none = 2
or_two (some n) = n

unfoldable pub lstrip_joiner : Text → Text
lstrip_joiner [] = []
lstrip_joiner (c ∷ t) = if c == 45 then lstrip_joiner t else c ∷ t

-- text.strip("-")
unfoldable pub strip_joiner : Text → Text
unfolding lstrip_joiner
strip_joiner t = reverse (lstrip_joiner (reverse (lstrip_joiner t)))

unfoldable pub ike_proposal_of : IkeSa → Text
unfolding strip_joiner join
ike_proposal_of ike = strip_joiner (
    join (codes "-") (
      or_empty ike.encr_alg
      ∷ or_empty ike.encr_keysize
      ∷ or_empty ike.integ_alg
      ∷ or_empty ike.prf_alg
      ∷ or_empty ike.dh_group
      ∷ []))

unfoldable pub ike_state : IkeSa → Text
unfolding upper
ike_state ike = upper (elim ike.state [ none ↦ codes "UNKNOWN" | some s ↦ s ])

-- The tunnel of an association without a child.
unfoldable pub bare_tunnel : ℕ → Text → IkeSa → Tunnel
unfolding ike_proposal_of ike_state extract_pqc_kem is_pqc
bare_tunnel now name ike =
    let proposal = ike_proposal_of ike in
    record {
      name = name;
      local_host = or_empty ike.local_host;
      local_id = ike.local_id;
      remote_host = or_empty ike.remote_host;
      remote_id = ike.remote_id;
      state = ike_state ike;
      ike_version = or_two ike.version;
      ike_proposal = proposal;
      esp_proposal = none;
      pqc_kem = extract_pqc_kem proposal;
      pqc_enabled = is_pqc proposal;
      bytes_in = 0;
      bytes_out = 0;
      packets_in = 0;
      packets_out = 0;
      established_at = some (now - or_zero ike.established);
    }

unfoldable pub child_state : Text → ChildSa → Text
unfolding upper
child_state state child = upper (elim child.state [ none ↦ state | some s ↦ s ])

unfoldable pub child_tunnel : ℕ → Text → IkeSa → Text × ChildSa → Tunnel
unfolding bare_tunnel child_state strip_joiner join extract_pqc_kem is_pqc
child_tunnel now name ike (child_name, child) =
    let whole = bare_tunnel now name ike in
    let esp = strip_joiner (
      join (codes "-")
        (or_empty child.encr_alg ∷ or_empty child.encr_keysize ∷ or_empty child.integ_alg ∷ [])) in
    record whole {
      name = name ++ 47 ∷ child_name;
      state = child_state whole.state child;
      esp_proposal = some esp;
      pqc_kem = or_else whole.pqc_kem (extract_pqc_kem esp);
      pqc_enabled = whole.pqc_enabled || is_pqc esp;
      bytes_in = or_zero child.bytes_in;
      bytes_out = or_zero child.bytes_out;
      packets_in = or_zero child.packets_in;
      packets_out = or_zero child.packets_out;
    }

unfoldable pub tunnels_of : ℕ → Text → IkeSa → List (Text × ChildSa) → List Tunnel
unfolding bare_tunnel child_tunnel
tunnels_of now name ike [] = bare_tunnel now name ike ∷ []
tunnels_of now name ike (child ∷ children) = map (child_tunnel now name ike) (child ∷ children)

-- normalise_sa, over the associations of one report.
unfoldable pub normalise_sa : ℕ → List (Text × IkeSa) → List Tunnel
unfolding tunnels_of
normalise_sa now [] = []
normalise_sa now ((name, ike) ∷ rest) =
    tunnels_of now name ike ike.child_sas ++ normalise_sa now rest
