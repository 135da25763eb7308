-- ===== src/Tls/Probe.antt =====
-- quansec/protocols/tls/probe.py: the enforcement probes. What a run of the openssl client gives is an
-- input, and so are the steps that start the temporary endpoint for mTLS. The times and the evidence file
-- are left out.
pub mod Suite
mod Tests
use quansec_pqc_platform.Prelude.{
  ℕ, Bool, true, false, ◌&&◌, not, Option, none, some, List, [], ◌∷◌, ◌++◌, map, Text, codes,
  eq_text, lower, strip, any, keep, find, take, ◌==◌, if◌then◌else◌, contains_text,
}
use quansec_pqc_platform.Tls.Transcript
use quansec_pqc_platform.Tls.Transcript.{
  literal, any_space, group_pattern, word_after, verification_of,
}

pub data ProbeOutcome : Type 0 where
  connect reject error : ProbeOutcome

pub data Assertion : Type 0 where
  handshake http_status_of : Assertion

pub record ProbeSpec : Type 0 where
  pub probe_type : Text
  pub expected : ProbeOutcome
  pub args : List Text
  pub use_valid_ca : Bool
  pub requires_mtls_endpoint : Bool
  pub assertion : Assertion
  pub reject_statuses : List ℕ

abbrev pub refusing_statuses : List ℕ
refusing_statuses = 400 ∷ 401 ∷ 403 ∷ 495 ∷ 496 ∷ 497 ∷ []

-- A probe of the main endpoint, with the valid CA.
abbrev pub probe_spec : Text → ProbeOutcome → List Text → ProbeSpec
probe_spec probe_type expected args = record {
  probe_type = probe_type;
  expected = expected;
  args = args;
  use_valid_ca = true;
  requires_mtls_endpoint = false;
  assertion = handshake;
  reject_statuses = refusing_statuses;
}

abbrev hybrid_only : List Text
hybrid_only = codes "-tls1_3" ∷ codes "-groups" ∷ codes "X25519MLKEM768" ∷ []

abbrev pub positive_hybrid : ProbeSpec
positive_hybrid = probe_spec (codes "positive_hybrid") connect hybrid_only

abbrev pub negative_x25519 : ProbeSpec
negative_x25519 =
    probe_spec (codes "negative_x25519") reject
      (codes "-tls1_3" ∷ codes "-groups" ∷ codes "X25519" ∷ [])

abbrev pub negative_prime256v1 : ProbeSpec
negative_prime256v1 =
    probe_spec (codes "negative_prime256v1") reject
      (codes "-tls1_3" ∷ codes "-groups" ∷ codes "prime256v1" ∷ [])

abbrev pub negative_tls12 : ProbeSpec
negative_tls12 = probe_spec (codes "negative_tls12") reject (codes "-tls1_2" ∷ [])

abbrev pub negative_aes128 : ProbeSpec
negative_aes128 =
    probe_spec (codes "negative_aes128") reject
      (hybrid_only ++ (codes "-ciphersuites" ∷ codes "TLS_AES_128_GCM_SHA256" ∷ []))

abbrev pub negative_invalid_ca : ProbeSpec
negative_invalid_ca =
    record (probe_spec (codes "negative_invalid_ca") reject
      (hybrid_only ++ (codes "-verify_return_error" ∷ []))) { use_valid_ca = false }

abbrev pub negative_missing_client_cert : ProbeSpec
negative_missing_client_cert =
    record (probe_spec (codes "negative_missing_client_cert") reject hybrid_only) {
      requires_mtls_endpoint = true;
      assertion = http_status_of;
    }

abbrev pub probe_specs : List ProbeSpec
probe_specs =
    positive_hybrid ∷ negative_x25519 ∷ negative_prime256v1 ∷ negative_tls12 ∷ negative_aes128
    ∷ negative_invalid_ca ∷ negative_missing_client_cert ∷ []

-- subprocess.CompletedProcess; a timeout is the return code 124 with no output.
pub record ClientRun : Type 0 where
  pub returncode : ℕ
  pub stdout : Text
  pub stderr : Text

pub record ProbeResult : Type 0 where
  pub probe_type : Text
  pub expected_outcome : ProbeOutcome
  pub actual_outcome : ProbeOutcome
  pub passed : Bool
  pub target_port : ℕ
  pub negotiated_group : Option Text
  pub negotiated_cipher : Option Text
  pub tls_protocol : Option Text
  pub verify_result : Option Text
  pub http_status : Option ℕ
  pub exit_code : Option ℕ
  pub stdout_excerpt : Text

abbrev pub same_verdict : ProbeOutcome → ProbeOutcome → Bool
same_verdict connect connect = true
same_verdict reject reject = true
same_verdict error error = true
same_verdict a b = false

unfoldable pub http_verdict : List ℕ → Option ℕ → ProbeOutcome
http_verdict statuses none = reject
http_verdict statuses (some status) = if any (λ s. s == status) statuses then reject else connect

unfoldable pub is_connected : ClientRun → Bool
unfolding contains_text
is_connected r =
    r.returncode == 0 && contains_text (codes "CONNECTION ESTABLISHED") (r.stdout ++ r.stderr)

-- The verification line speaks against the certificate.
unfoldable pub unverified : Option Text → Bool
unfolding contains_text lower
unverified none = false
unverified (some t) = not (contains_text (codes "ok") (lower t))

unfoldable pub handshake_verdict : Bool → Bool → Bool → ProbeOutcome
handshake_verdict connected invalid_ca against =
    if invalid_ca && against then reject else if connected then connect else reject

unfoldable pub verdict_of : Assertion → ProbeSpec → ClientRun → ProbeOutcome
unfolding http_verdict handshake_verdict is_connected unverified eq_text
verdict_of http_status_of spec r =
    http_verdict spec.reject_statuses (Transcript.http_status (r.stdout ++ r.stderr))
verdict_of handshake spec r =
    handshake_verdict (is_connected r) (eq_text spec.probe_type (codes "negative_invalid_ca"))
      (unverified (verification_of (r.stdout ++ r.stderr)))

-- The result of a probe that could not run.
unfoldable pub failed_result : ProbeSpec → ℕ → Text → ProbeResult
failed_result spec port message = record {
  probe_type = spec.probe_type;
  expected_outcome = spec.expected;
  actual_outcome = error;
  passed = false;
  target_port = port;
  negotiated_group = none;
  negotiated_cipher = none;
  tls_protocol = none;
  verify_result = none;
  http_status = none;
  exit_code = none;
  stdout_excerpt = message;
}

-- _execute, from the run of the client on.
unfoldable pub execute : Text → ℕ → ProbeSpec → Option ClientRun → ProbeResult
unfolding verdict_of failed_result
execute openssl_bin port spec none =
    failed_result spec port (codes "could not execute " ++ openssl_bin)
execute openssl_bin port spec (some r) =
    let output = r.stdout ++ r.stderr in
    let actual = verdict_of spec.assertion spec r in
    record {
      probe_type = spec.probe_type;
      expected_outcome = spec.expected;
      actual_outcome = actual;
      passed = same_verdict actual spec.expected;
      target_port = port;
      negotiated_group = word_after group_pattern output;
      negotiated_cipher = word_after (literal (codes "ciphersuite:") ∷ any_space ∷ []) output;
      tls_protocol = word_after (literal (codes "protocol version:") ∷ any_space ∷ []) output;
      verify_result = verification_of output;
      http_status = Transcript.http_status output;
      exit_code = some r.returncode;
      stdout_excerpt = take 2_000 (strip output);
    }

-- The command of a probe.
unfoldable pub command : Text → Text → Text → Text → Text → ProbeSpec → List Text
command openssl_bin target server_hostname ca_cert unrelated_ca spec =
    openssl_bin
    ∷ codes "s_client"
    ∷ codes "-connect"
    ∷ target
    ∷ codes "-servername"
    ∷ server_hostname
    ∷ codes "-CAfile"
    ∷ (if spec.use_valid_ca then ca_cert else unrelated_ca)
    ∷ (elim spec.assertion [ handshake ↦ codes "-brief" | http_status_of ↦ codes "-quiet" ])
    ∷ spec.args

abbrev option_map : (ProbeSpec → ProbeResult) → Option ProbeSpec → Option ProbeResult
option_map f none = none
option_map f (some s) = some (f s)

-- TlsProber.run; `none` is the ValueError.
unfoldable pub run_probe : Text → ℕ → Text → (ProbeSpec → Option ClientRun) → Option ProbeResult
unfolding execute eq_text
run_probe openssl_bin port probe_type runs =
    option_map (λ (s : ProbeSpec). execute openssl_bin port s (runs s))
      (find (λ (s : ProbeSpec). eq_text s.probe_type probe_type) probe_specs)

unfoldable pub run_standard_suite : Text → ℕ → (ProbeSpec → Option ClientRun) → List ProbeResult
unfolding execute
run_standard_suite openssl_bin port runs =
    map (λ (s : ProbeSpec). execute openssl_bin port s (runs s))
      (keep (λ (s : ProbeSpec). not s.requires_mtls_endpoint) probe_specs)

-- The steps before the probe for mTLS: the rendered file, `nginx -t`, and the start of the endpoint, each
-- with its error.
pub record Endpoint : Type 0 where
  pub rendered : Bool
  pub rejected : Option Text
  pub not_started : Option Text

unfoldable pub on_started : Text → ℕ → Option Text → Option ClientRun → ProbeResult
unfolding execute failed_result
on_started openssl_bin port (some e) run =
    failed_result negative_missing_client_cert port (codes "mTLS instance failed to start: " ++ e)
on_started openssl_bin port none run = execute openssl_bin port negative_missing_client_cert run

unfoldable pub on_validated : Text → ℕ → Endpoint → Option Text → Option ClientRun → ProbeResult
unfolding on_started failed_result
on_validated openssl_bin port e (some output) run =
    failed_result negative_missing_client_cert port
      (codes "nginx -t rejected the mTLS config: " ++ output)
on_validated openssl_bin port e none run = on_started openssl_bin port e.not_started run

unfoldable pub run_mtls_probe : Text → ℕ → Endpoint → Option ClientRun → ProbeResult
unfolding on_validated failed_result
run_mtls_probe openssl_bin port e run =
    if e.rendered
    then on_validated openssl_bin port e e.rejected run
    else failed_result negative_missing_client_cert port (codes "could not render the mTLS config")
