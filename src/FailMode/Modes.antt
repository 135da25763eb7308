-- ===== src/FailMode/Modes.antt =====
-- quansec/protocols/failmode/router.py: which modes are ever current.
use quansec_pqc_platform.Prelude.{
  ◌≡◌, refl, sym, inl, inr, Bool, true, false, Option, none, some, List, [], ◌∷◌, Text, codes,
  eq_text, eq_text_sound, eq_text_refl, All, Bool-cases, if◌then◌else◌, subst,
}
use quansec_pqc_platform.Http.{Response, ok, http_error}
use quansec_pqc_platform.FailMode.{
  ModeConfig, FailModes, ModeSet, is_protocol, mode_config, assign_mode, mode_of, on_mode,
  set_failmode,
}

-- Every protocol has a current mode, which the table describes: so that a listing finds it.
unfoldable pub Described : List (Text × Text) → Type 0
Described = All (λ pm. let (p, m) = pm in (c : ModeConfig) × (mode_config p m ≡ some c))

assign_mode-Described :
    (protocol mode : Text) (c : ModeConfig) (current : List (Text × Text))
    → mode_config protocol mode ≡ some c
    → Described current
    → Described (assign_mode protocol mode current)
unfolding assign_mode Described
assign_mode-Described protocol mode c [] e h = ((c, e), tt)
assign_mode-Described protocol mode c ((p, m) ∷ rest) e (d, h) =
    elim (Bool-cases (eq_text p protocol)) [
      | inl same ↦
          rw same (
            (c, subst (λ q. mode_config q mode ≡ some c) (sym (eq_text_sound p protocol same)) e),
            h,
          )
      | inr other ↦ rw other (d, assign_mode-Described protocol mode c rest e h)
    ]

mode_of-assign_mode :
    (protocol mode : Text) (current : List (Text × Text))
    → mode_of protocol (assign_mode protocol mode current) ≡ some mode
unfolding mode_of assign_mode
mode_of-assign_mode protocol mode [] = rw (eq_text_refl protocol) refl
mode_of-assign_mode protocol mode ((p, m) ∷ rest) = elim (Bool-cases (eq_text p protocol)) [
  | inl same ↦ rw (same, same) refl
  | inr other ↦ rw (other, other) (mode_of-assign_mode protocol mode rest)
]

abbrev Sets : Text → Text → FailModes → Response ModeSet × FailModes → Type 0
Sets protocol mode w (ok s, w') =
    (mode_of protocol w'.current ≡ some mode)
    × ((c : ModeConfig) × (mode_config protocol mode ≡ some c) × (s.config ≡ c.config))
    × (Described w.current → Described w'.current)
Sets protocol mode w (http_error status detail, w') = (status ≡ 400) × (w' ≡ w)

-- A request to set a mode sets a mode of the table for its protocol, and tells what that would configure, or
-- it changes nothing and fails with 400. The current modes stay modes of the table.
pub set_failmode_exact :
    (protocol mode : Text) (w : FailModes) → Sets protocol mode w (set_failmode protocol mode w)
unfolding set_failmode on_mode
set_failmode_exact protocol mode w = by_protocol (is_protocol protocol)
  where
    by_config :
        (o : Option ModeConfig)
        → mode_config protocol mode ≡ o
        → Sets protocol mode w (on_mode protocol mode o w)
    by_config none e = (refl, refl)
    by_config (some c) e = (
      mode_of-assign_mode protocol mode w.current,
      (c, e, refl),
      assign_mode-Described protocol mode c w.current e,
    )

    by_protocol :
        (b : Bool)
        → Sets protocol mode w (
            if b
            then on_mode protocol mode (mode_config protocol mode) w
            else (http_error 400 (codes "protocol must be one of ipsec, ssh, tls"), w))
    by_protocol true = by_config (mode_config protocol mode) refl
    by_protocol false = (refl, refl)
