-- ===== src/Tls/Collector.antt =====
-- quansec/protocols/tls/collector.py: from a line of the access log of NGINX to a session. What Python's
-- json, datetime and codecs do is a parameter; a float is kept as the text of its literal.
pub mod Evidence
pub mod Connections
mod Tests
use quansec_pqc_platform.Prelude.{
  ℕ, ◌-◌, Bool, true, false, ◌&&◌, ◌||◌, not, Option, none, some, List, [], ◌∷◌, ◌++◌, map, Text,
  codes, eq_text, lower, strip, truthy, starts_with, take, leb, if◌then◌else◌, contains_text, upper,
}
use quansec_pqc_platform.Json.{ℤ}

-- The library calls: json.loads (`none` for a ValueError, `some none` for a value that is no dictionary, else
-- its `get`), str, datetime.fromisoformat, truth, int (`none` for the errors that _as_int catches; the
-- overflow of an infinite float, which it does not catch, is left out), float, and the file's text codec with
-- errors="replace".
pub record Python (Object : Type 0) : Type 0 where
  pub loads : Text → Option (Option (Text → Option Object))
  pub to_text : Object → Text
  pub fromisoformat : Object → Option ℕ
  pub is_true : Object → Bool
  pub int_of : Object → Option ℤ
  pub float_of : Object → Option Text
  pub decode : List ℕ → Text

unfoldable pub label_of : Text → List (Text × Text) → Option Text
label_of k [] = none
label_of k ((j, v) ∷ rest) = if eq_text j k then some v else label_of k rest

abbrev pub pqc_groups : List (Text × Text)
pqc_groups =
    (codes "x25519mlkem768", codes "ML-KEM-768 + X25519")
    ∷ (codes "secp256r1mlkem768", codes "ML-KEM-768 + P-256")
    ∷ (codes "secp384r1mlkem1024", codes "ML-KEM-1024 + P-384")
    ∷ (codes "mlkem512", codes "ML-KEM-512")
    ∷ (codes "mlkem768", codes "ML-KEM-768")
    ∷ (codes "mlkem1024", codes "ML-KEM-1024")
    ∷ (codes "x25519kyber768draft00", codes "Kyber768 + X25519 (pre-standard)")
    ∷ []

abbrev pub classical_groups : List (Text × Text)
classical_groups =
    (codes "x25519", codes "X25519 (classical)")
    ∷ (codes "prime256v1", codes "ECDH P-256 (classical)")
    ∷ (codes "secp256r1", codes "ECDH P-256 (classical)")
    ∷ (codes "secp384r1", codes "ECDH P-384 (classical)")
    ∷ (codes "secp521r1", codes "ECDH P-521 (classical)")
    ∷ (codes "x448", codes "X448 (classical)")
    ∷ []

unfoldable pub is_unreported : Text → Bool
unfolding strip
is_unreported g =
    let s = strip g in
    not (truthy g) || not (truthy s) || eq_text s (codes ".") || eq_text s (codes "-")

unfoldable pub has_marker : Text → Bool
unfolding contains_text
has_marker key =
    contains_text (codes "mlkem") key
    || contains_text (codes "ml-kem") key
    || contains_text (codes "kyber") key

-- What the two tables say of the key, and the marker where both are silent.
unfoldable pub classify_key : Text → Option Text → Option Text → Bool → Bool × Option Text
classify_key name (some label) classical marked = (true, some label)
classify_key name none (some label) marked = (false, some label)
classify_key name none none marked = (marked, some name)

unfoldable pub classify_name : Text → Bool × Option Text
unfolding classify_key label_of has_marker
classify_name g =
    let key = lower (strip g) in
    classify_key (strip g) (label_of key pqc_groups) (label_of key classical_groups)
      (has_marker key)

unfoldable pub classify_group : Option Text → Bool × Option Text
unfolding classify_name is_unreported
classify_group none = (false, none)
classify_group (some g) = if is_unreported g then (false, none) else classify_name g

pub record ParsedSession : Type 0 where
  pub occurred_at : ℕ
  pub remote_addr : Option Text
  pub remote_port : Option Text
  pub tls_protocol : Option Text
  pub cipher : Option Text
  pub negotiated_group : Option Text
  pub client_groups : Option Text
  pub client_verify : Option Text
  pub client_s_dn : Option Text
  pub server_name : Option Text
  pub session_reused : Bool
  pub http_status : Option ℤ
  pub request_time : Option Text
  pub bytes_sent : Option ℤ
  pub request_line : Option Text
  pub pqc_enabled : Bool
  pub kem_label : Option Text
  pub log_source : Text
  pub log_offset : ℕ
  pub raw_line : Text
  pub connection_id : Option Text
  pub connection_requests : Option ℤ
  pub listener_port : Option Text
  pub request_method : Option Text
  pub request_uri : Option Text
  pub hybrid_negotiated : Option Bool
  pub client_certificate_verified : Option Bool

unfoldable pub verify_text : Option Text → Option Bool
unfolding upper
verify_text none = none
verify_text (some value) =
    if not (truthy value) || eq_text (upper value) (codes "NONE")
    then none
    else some (eq_text (upper value) (codes "SUCCESS"))

-- The listener and the connection, each cleaned.
unfoldable pub connection_id_of : Option Text → Option Text → Option Text
connection_id_of listener none = none
connection_id_of none (some conn) =
    if truthy conn then some (codes "unknown" ++ 58 ∷ conn) else none
connection_id_of (some listener) (some conn) =
    if truthy conn
    then some ((if truthy listener then listener else codes "unknown") ++ 58 ∷ conn)
    else none

unfoldable pub clean_text : Text → Option Text
unfolding strip
clean_text text =
    let t = strip text in if not (truthy t) || eq_text t (codes "-") then none else some t

abbrev pub if_named : Option Text → Bool → Option Bool
if_named none b = none
if_named (some g) b = if truthy g then some b else none

module _ {Object : Type 0} (py : Python Object) where
  open py use {loads, to_text, fromisoformat, is_true, int_of, float_of, decode}

  unfoldable pub clean : Option Object → Option Text
  unfolding clean_text
  clean none = none
  clean (some value) = clean_text (to_text value)

  unfoldable pub as_int : Option Object → Option ℤ
  as_int none = none
  as_int (some value) = int_of value

  unfoldable pub as_float : Option Object → Option Text
  as_float none = none
  as_float (some value) = float_of value

  unfoldable pub occurred : Option Object → Option ℕ
  occurred none = none
  occurred (some timestamp) = if is_true timestamp then fromisoformat timestamp else none

  unfoldable pub reused : Option Object → Bool
  unfolding strip
  reused none = false
  reused (some value) = eq_text (lower (strip (to_text value))) (codes "r")

  unfoldable pub session_of : Text → Text → ℕ → (Text → Option Object) → ℕ → ParsedSession
  unfolding clean as_int as_float reused classify_group verify_text connection_id_of
  session_of stripped source offset get at =
      let group = clean (get (codes "negotiated_group")) in
      let (pqc, label) = classify_group group in
      record {
        occurred_at = at;
        remote_addr = clean (get (codes "remote_addr"));
        remote_port = clean (get (codes "remote_port"));
        tls_protocol = clean (get (codes "tls_protocol"));
        cipher = clean (get (codes "cipher"));
        negotiated_group = group;
        client_groups = clean (get (codes "client_groups"));
        client_verify = clean (get (codes "client_verify"));
        client_s_dn = clean (get (codes "client_s_dn"));
        server_name = clean (get (codes "server_name"));
        session_reused = reused (get (codes "session_reused"));
        http_status = as_int (get (codes "status"));
        request_time = as_float (get (codes "request_time"));
        bytes_sent = as_int (get (codes "bytes_sent"));
        request_line = clean (get (codes "request"));
        pqc_enabled = pqc;
        kem_label = label;
        log_source = source;
        log_offset = offset;
        raw_line = take 4_000 stripped;
        connection_id =
            connection_id_of (clean (get (codes "listener"))) (clean (get (codes "connection_id")));
        connection_requests = as_int (get (codes "connection_requests"));
        listener_port = clean (get (codes "listener"));
        request_method = clean (get (codes "request_method"));
        request_uri = clean (get (codes "request_uri"));
        hybrid_negotiated = if_named group pqc;
        client_certificate_verified = verify_text (clean (get (codes "client_verify")));
      }

  unfoldable pub stamped :
      Text → Text → ℕ → (Text → Option Object) → Option ℕ → Option ParsedSession
  stamped stripped source offset get none = none
  stamped stripped source offset get (some at) = some (session_of stripped source offset get at)

  unfoldable pub loaded :
      Text → Text → ℕ → Option (Option (Text → Option Object)) → Option ParsedSession
  unfolding stamped occurred
  loaded stripped source offset none = none
  loaded stripped source offset (some none) = none
  loaded stripped source offset (some (some get)) =
      stamped stripped source offset get (occurred (get (codes "timestamp")))

  unfoldable pub parse_log_line : Text → ℕ → Text → Option ParsedSession
  unfolding loaded strip
  parse_log_line source offset line =
      let stripped = strip line in
      if truthy stripped then loaded stripped source offset (loads stripped) else none
