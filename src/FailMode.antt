-- ===== src/FailMode.antt =====
-- quansec/protocols/failmode/router.py: the fail mode of each protocol. It stands in the memory of the
-- process. The texts that describe a mode are left out.
pub mod Modes
use quansec_pqc_platform.Prelude.{
  Bool, true, false, ◌||◌, ◌&&◌, Option, none, some, List, [], ◌∷◌, Text, codes, eq_text, find,
  if◌then◌else◌,
}
use quansec_pqc_platform.Json.{field, end, str}
use quansec_pqc_platform.Http.{Response, ok, http_error}
use quansec_pqc_platform.Ssh.Policies.{PolicyEvent}

-- MODES: what each mode would configure.
pub record ModeConfig : Type 0 where
  pub protocol : Text
  pub mode : Text
  pub config : Text

abbrev pub modes : List ModeConfig
modes =
    record {
      protocol = codes "ssh";
      mode = codes "fail-closed";
      config = codes "mlkem768x25519-sha256";
    }
    ∷ record {
      protocol = codes "ssh";
      mode = codes "fail-open";
      config = codes "mlkem768x25519-sha256,curve25519-sha256";
    }
    ∷ record {
      protocol = codes "ipsec";
      mode = codes "fail-closed";
      config = codes "aes256-sha256-mlkem1024";
    }
    ∷ record {
      protocol = codes "ipsec";
      mode = codes "fail-open";
      config = codes "aes256-sha256-mlkem1024,aes256-sha256-x25519";
    }
    ∷ record { protocol = codes "tls"; mode = codes "fail-closed"; config = codes "X25519MLKEM768" }
    ∷ record {
      protocol = codes "tls";
      mode = codes "fail-open";
      config = codes "X25519MLKEM768:X25519";
    }
    ∷ []

-- _CURRENT, and the audit rows.
pub record FailModes : Type 0 where
  pub current : List (Text × Text)
  pub events : List PolicyEvent

abbrev pub initial_modes : List (Text × Text)
initial_modes =
    (codes "ssh", codes "fail-closed")
    ∷ (codes "ipsec", codes "fail-closed")
    ∷ (codes "tls", codes "fail-closed")
    ∷ []

unfoldable pub is_protocol : Text → Bool
is_protocol protocol =
    eq_text protocol (codes "ssh")
    || eq_text protocol (codes "ipsec")
    || eq_text protocol (codes "tls")

unfoldable pub mode_config : Text → Text → Option ModeConfig
mode_config protocol mode =
    find (λ (c : ModeConfig). eq_text protocol c.protocol && eq_text mode c.mode) modes

-- _CURRENT[protocol] = mode
unfoldable pub assign_mode : Text → Text → List (Text × Text) → List (Text × Text)
assign_mode protocol mode [] = (protocol, mode) ∷ []
assign_mode protocol mode ((p, m) ∷ rest) =
    if eq_text p protocol then (p, mode) ∷ rest else (p, m) ∷ assign_mode protocol mode rest

-- _CURRENT[protocol]
unfoldable pub mode_of : Text → List (Text × Text) → Option Text
mode_of protocol [] = none
mode_of protocol ((p, m) ∷ rest) = if eq_text p protocol then some m else mode_of protocol rest

pub record ModeSet : Type 0 where
  pub protocol : Text
  pub mode : Text
  pub config : Text
  pub enforceable : Bool

unfoldable pub on_mode : Text → Text → Option ModeConfig → FailModes → Response ModeSet × FailModes
unfolding assign_mode
on_mode protocol mode none w = (http_error 400 (codes "mode must be fail-closed or fail-open"), w)
on_mode protocol mode (some c) w = (
  ok (record {
    protocol = protocol;
    mode = mode;
    config = c.config;
    enforceable = eq_text protocol (codes "ipsec") || eq_text protocol (codes "ssh");
  }),
  record {
    current = assign_mode protocol mode w.current;
    events =
        record {
          action = codes "failmode_set";
          resource = protocol;
          detail = field (codes "mode") (str mode) end;
          severity = if eq_text mode (codes "fail-open") then codes "warning" else codes "info";
        }
        ∷ w.events;
  },
)

unfoldable pub set_failmode : Text → Text → FailModes → Response ModeSet × FailModes
unfolding on_mode is_protocol mode_config
set_failmode protocol mode w =
    if is_protocol protocol
    then on_mode protocol mode (mode_config protocol mode) w
    else (http_error 400 (codes "protocol must be one of ipsec, ssh, tls"), w)
