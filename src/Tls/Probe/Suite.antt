-- ===== src/Tls/Probe/Suite.antt =====
-- quansec/protocols/tls/probe.py: what the results of the standard suite and of the mTLS probe show.
use quansec_pqc_platform.Prelude.{
  ℕ, ◌≡◌, refl, sym, ◌∙◌, Bool, true, false, ◌&&◌, ◌||◌, not, Option, none, some, List, [], ◌∷◌,
  ◌++◌, map, Text, codes, eq_text, any, ◌==◌, if◌then◌else◌, arith, is_none,
}
use quansec_pqc_platform.Tls.Transcript.{verification_of, http_status}
use quansec_pqc_platform.Tls.Probe.{
  connect, reject, ProbeSpec, ProbeResult, ClientRun, Endpoint, same_verdict, is_connected,
  unverified, handshake_verdict, verdict_of, http_verdict, execute, failed_result,
  run_standard_suite, run_mtls_probe, on_validated, on_started, probe_spec, positive_hybrid,
  negative_x25519, negative_prime256v1, negative_tls12, negative_aes128, negative_invalid_ca,
  negative_missing_client_cert, refusing_statuses,
}

abbrev pub refusing : Option ℕ → Bool
refusing none = true
refusing (some status) = any (λ s. s == status) refusing_statuses

-- The client ran, and the handshake completed.
abbrev pub connects : Option ClientRun → Bool
connects none = false
connects (some r) = is_connected r

-- The client ran, and no handshake completed.
abbrev pub refuses : Option ClientRun → Bool
refuses none = false
refuses (some r) = not (is_connected r)

-- The client ran, and no handshake completed or the certificate was not verified.
abbrev pub refuses_ca : Option ClientRun → Bool
refuses_ca none = false
refuses_ca (some r) = not (is_connected r) || unverified (verification_of (r.stdout ++ r.stderr))

-- The client ran, and it was answered with a refusing status or with no status at all.
abbrev pub turned_away : Option ClientRun → Bool
turned_away none = false
turned_away (some r) = refusing (http_status (r.stdout ++ r.stderr))

abbrev pub has_passed : ProbeResult → Bool
has_passed r = r.passed

connect_passed : (b c : Bool) → same_verdict (handshake_verdict b false c) connect ≡ b
unfolding handshake_verdict
connect_passed true c = refl
connect_passed false c = refl

reject_passed : (b c : Bool) → same_verdict (handshake_verdict b false c) reject ≡ not b
unfolding handshake_verdict
reject_passed true c = refl
reject_passed false c = refl

ca_passed : (b c : Bool) → same_verdict (handshake_verdict b true c) reject ≡ not b || c
unfolding handshake_verdict
ca_passed true true = refl
ca_passed true false = refl
ca_passed false true = refl
ca_passed false false = refl

module _ (bin : Text) (port : ℕ) where
  positive_passed :
      (o : Option ClientRun) → (execute bin port positive_hybrid o).passed ≡ connects o
  unfolding execute failed_result verdict_of eq_text
  positive_passed none = refl
  positive_passed (some r) =
      connect_passed (is_connected r) (unverified (verification_of (r.stdout ++ r.stderr)))

  negative_passed :
      (t : Text) (args : List Text) (o : Option ClientRun)
      → eq_text t (codes "negative_invalid_ca") ≡ false
      → (execute bin port (probe_spec t reject args) o).passed ≡ refuses o
  unfolding execute failed_result verdict_of
  negative_passed t args none other = refl
  negative_passed t args (some r) other =
      rw other
        (reject_passed (is_connected r) (unverified (verification_of (r.stdout ++ r.stderr))))

  ca_refused :
      (o : Option ClientRun) → (execute bin port negative_invalid_ca o).passed ≡ refuses_ca o
  unfolding execute failed_result verdict_of eq_text
  ca_refused none = refl
  ca_refused (some r) =
      ca_passed (is_connected r) (unverified (verification_of (r.stdout ++ r.stderr)))

  -- The six results of the standard suite, in order: the positive probe passes exactly when its handshake
  -- completed, a negative probe exactly when the client ran and no handshake completed, and the one
  -- against an unrelated CA also when the verification line speaks against the certificate. A client that
  -- could not run passes nothing.
  pub run_standard_suite_exact :
      (runs : ProbeSpec → Option ClientRun)
      → map has_passed (run_standard_suite bin port runs)
        ≡ connects (runs positive_hybrid)
          ∷ refuses (runs negative_x25519)
          ∷ refuses (runs negative_prime256v1)
          ∷ refuses (runs negative_tls12)
          ∷ refuses (runs negative_aes128)
          ∷ refuses_ca (runs negative_invalid_ca)
          ∷ []
  unfolding run_standard_suite eq_text
  run_standard_suite_exact runs =
      rw
        (
          sym (positive_passed (runs positive_hybrid)),
          sym (
              negative_passed negative_x25519.probe_type negative_x25519.args (runs negative_x25519)
                refl),
          sym (
              negative_passed negative_prime256v1.probe_type negative_prime256v1.args
                (runs negative_prime256v1) refl),
          sym (
              negative_passed negative_tls12.probe_type negative_tls12.args (runs negative_tls12)
                refl),
          sym (
              negative_passed negative_aes128.probe_type negative_aes128.args (runs negative_aes128)
                refl),
          sym (ca_refused (runs negative_invalid_ca)),
        )
        refl

  -- When every run of the client ends without a handshake, as on an endpoint that is down, the
  -- positive probe fails and each of the five negative probes passes.
  pub dead_endpoint :
      (runs : ProbeSpec → Option ClientRun)
      → ((s : ProbeSpec) → refuses (runs s) ≡ true)
      → map has_passed (run_standard_suite bin port runs)
        ≡ false ∷ true ∷ true ∷ true ∷ true ∷ true ∷ []
  dead_endpoint runs dead =
      run_standard_suite_exact runs
      ∙ rw
          (
            dead negative_x25519,
            dead negative_prime256v1,
            dead negative_tls12,
            dead negative_aes128,
            not_connects (runs positive_hybrid) (dead positive_hybrid),
            ca_refuses (runs negative_invalid_ca) (dead negative_invalid_ca),
          )
          refl
    where
      not_connects : (o : Option ClientRun) → refuses o ≡ true → connects o ≡ false
      not_connects none h = refl
      not_connects (some r) h = ground (arith, h)

      ca_refuses : (o : Option ClientRun) → refuses o ≡ true → refuses_ca o ≡ true
      ca_refuses none h = h
      ca_refuses (some r) h = ground (arith, h)

  http_passed :
      (o : Option ClientRun)
      → (execute bin port negative_missing_client_cert o).passed ≡ turned_away o
  unfolding execute failed_result verdict_of http_verdict
  http_passed none = refl
  http_passed (some r) = by_status (http_status (r.stdout ++ r.stderr))
    where
      by_test : (b : Bool) → same_verdict (if b then reject else connect) reject ≡ b
      by_test true = refl
      by_test false = refl

      by_status :
          (o : Option ℕ) → same_verdict (http_verdict refusing_statuses o) reject ≡ refusing o
      by_status none = refl
      by_status (some status) = by_test (any (λ s. s == status) refusing_statuses)

  -- The probe for mTLS passes exactly when its endpoint was rendered, accepted and started, the client
  -- ran, and it got a refusing status or no HTTP status at all.
  pub run_mtls_probe_exact :
      (e : Endpoint) (run : Option ClientRun)
      → (run_mtls_probe bin port e run).passed
        ≡ e.rendered && is_none e.rejected && is_none e.not_started && turned_away run
  unfolding run_mtls_probe on_validated on_started failed_result
  run_mtls_probe_exact e run = by_steps e.rendered e.rejected e.not_started
    where
      by_steps :
          (b : Bool) (o p : Option Text)
          → (if b
              then on_validated bin port (record e { not_started = p }) o run
              else failed_result negative_missing_client_cert port
                  (codes "could not render the mTLS config")).passed
            ≡ b && is_none o && is_none p && turned_away run
      by_steps false o p = refl
      by_steps true (some x) p = refl
      by_steps true none (some x) = refl
      by_steps true none none = http_passed run
