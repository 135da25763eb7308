-- ===== src/Tls/Probe/Tests.antt =====
-- An endpoint that enforces the hybrid group, and one that is down.
use quansec_pqc_platform.Prelude.{
  ◌≡◌, refl, true, Option, none, some, [], ◌∷◌, ◌++◌, map, codes, eq_text, strip, lstrip, is_space,
  lower_code, if◌then◌else◌,
}
use quansec_pqc_platform.Tls.Transcript.{
  verification_of, http_status, status_from, status_line, without_prefix, after_version,
  after_space, skip_space, three_digits, search_text, after_pieces, after_literal, line_of,
}
use quansec_pqc_platform.Tls.Probe.{
  ProbeSpec, ClientRun, Endpoint, run_standard_suite, positive_hybrid, negative_x25519,
  negative_prime256v1, negative_tls12, negative_aes128, negative_invalid_ca,
}
use quansec_pqc_platform.Tls.Probe.Suite.{
  connects, refuses, refuses_ca, has_passed, run_standard_suite_exact,
}

abbrev completed : ClientRun
completed = record { returncode = 0; stdout = []; stderr = codes "CONNECTION ESTABLISHED" }

abbrev refused : ClientRun
refused = record { returncode = 1; stdout = []; stderr = codes "connect:errno=111" }

abbrev strict_endpoint : ProbeSpec → Option ClientRun
strict_endpoint s =
    if eq_text s.probe_type (codes "positive_hybrid") then some completed else some refused

abbrev down : ProbeSpec → Option ClientRun
down s = some refused

-- The status is read from a line of its own.
bad_request : http_status (codes "depth=1" ++ (10 ∷ codes "HTTP/1.1 400 Bad Request")) ≡ some 400
unfolding http_status status_from status_line without_prefix after_version after_space skip_space
    three_digits is_space
bad_request = refl

unverified_line :
    verification_of (codes "Verification error: self-signed") ≡ some (codes "self-signed")
unfolding verification_of search_text after_pieces after_literal skip_space line_of strip lstrip
    is_space lower_code
unverified_line = refl

run_standard_suite_exact_example :
    map has_passed (run_standard_suite (codes "openssl") 8443 strict_endpoint)
    ≡ connects (strict_endpoint positive_hybrid)
      ∷ refuses (strict_endpoint negative_x25519)
      ∷ refuses (strict_endpoint negative_prime256v1)
      ∷ refuses (strict_endpoint negative_tls12)
      ∷ refuses (strict_endpoint negative_aes128)
      ∷ refuses_ca (strict_endpoint negative_invalid_ca)
      ∷ []
run_standard_suite_exact_example = run_standard_suite_exact (codes "openssl") 8443 strict_endpoint

abbrev started : Endpoint
started = record { rendered = true; rejected = none; not_started = none }
