-- ===== src/Tls/Collector/Evidence.antt =====
-- quansec/protocols/tls/collector.py: what the recorded session says of the key exchange.
use quansec_pqc_platform.Prelude.{
  Bool, true, false, Option, none, some, [], ◌≡◌, ◌≢◌, ◌↔◌, ◌⊎◌, Text, codes, lower, strip, truthy,
}
use quansec_pqc_platform.Tls.Collector.{
  ParsedSession, Python, label_of, pqc_groups, classical_groups, has_marker, occurred,
}

-- A name that the table of post-quantum groups has, or that no table has and that bears a marker.
unfoldable pub IsPqcName : Text → Type 0
IsPqcName g =
    (label_of (lower (strip g)) pqc_groups ≢ none)
    ⊎ ((label_of (lower (strip g)) classical_groups ≡ none) × (has_marker (lower (strip g)) ≡ true))

unfoldable pub IsPqcGroup : Option Text → Type 0
IsPqcGroup none = ⊥
IsPqcGroup (some g) = IsPqcName g

-- The group, the verdict `pqc_enabled`, its label and the tri-state `hybrid_negotiated` agree. The name `.`
-- is classified as none, and yet counts as no hybrid.
pub record Agrees (group : Option Text) (pqc : Bool) (label : Option Text) (hybrid : Option Bool)
    : Type 0 where
  pub unreported : (group ≡ none) ↔ (hybrid ≡ none)
  pub same : (pqc ≡ true) ↔ (hybrid ≡ some true)
  pub genuine : pqc ≡ true → IsPqcGroup group
  pub dot : group ≡ some (codes ".") → (hybrid ≡ some false) × (label ≡ none)

-- The text says that there is no value.
abbrev pub IsBlank : Text → Type 0
IsBlank t = (strip t ≡ []) ⊎ (strip t ≡ codes "-")

unfoldable IsNamed : Option Text → Type 0
IsNamed none = Unit
IsNamed (some g) = truthy g ≡ true

module _ {Object : Type 0} (py : Python Object) where
  -- The log has no value for the field.
  unfoldable pub IsMissing : Option Object → Type 0
  IsMissing none = Unit
  IsMissing (some value) = IsBlank (py.to_text value)

  -- The line is no dictionary, or has no timestamp that can be read.
  unfoldable pub IsUnusable : Option (Option (Text → Option Object)) → Type 0
  IsUnusable none = Unit
  IsUnusable (some none) = Unit
  IsUnusable (some (some get)) = occurred py (get (codes "timestamp")) ≡ none

  unfoldable pub Evidenced : Option (Option (Text → Option Object)) → Option ParsedSession → Type 0
  Evidenced o none = IsUnusable o
  Evidenced none (some s) = ⊥
  Evidenced (some none) (some s) = ⊥
  Evidenced (some (some get)) (some s) =
      (IsMissing (get (codes "negotiated_group")) ↔ (s.negotiated_group ≡ none))
      × Agrees s.negotiated_group s.pqc_enabled s.kem_label s.hybrid_negotiated
