-- ===== src/Audit/Scrub.antt =====
-- quansec/core/audit.py, `_scrub`: which values an audit detail keeps.
use quansec_pqc_platform.Prelude.{
  ◌≡◌, refl, Bool, false, ◌||◌, Text, eq_text, eq_text_iff, arith, if◌then◌else◌, Bool-cases, inl,
  inr,
}
use quansec_pqc_platform.Json.{Fields, null, end, field, get_field}
use quansec_pqc_platform.Audit.{is_sensitive, redacted, scrub, scrub_value}

unfoldable pub has_field : Text → Fields → Bool
has_field k end = false
has_field k (field j v fs) = eq_text j k || has_field k fs

-- Reading a scrubbed detail: a key that holds a sensitive marker shows the redaction where the detail
-- had the key at all; any other key shows the scrubbed value.
pub get_field-scrub :
    (k : Text) (fs : Fields)
    → get_field k (scrub fs) ≡ (
        if is_sensitive k
        then (if has_field k fs then redacted else null)
        else scrub_value (get_field k fs))
unfolding get_field scrub has_field
get_field-scrub k end = ground arith
get_field-scrub k (field j v fs) = elim (Bool-cases (eq_text j k)) [
  | inl e ↦ let same = (eq_text_iff j k).0 e in rw (same, (eq_text_iff k k).1 refl) (ground arith)
  | inr e ↦ ground (arith, get_field-scrub k fs)
]
