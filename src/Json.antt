-- ===== src/Json.antt =====
-- The values of Python dictionaries that the program puts into token claims and audit details.
-- Floats do not occur in them.
use quansec_pqc_platform.Prelude.{
  ℕ, Bool, Option, none, some, List, [], ◌∷◌, Text, eq_text, if◌then◌else◌,
}

-- `negsuc n` is -(n + 1).
pub data ℤ : Type 0 where
  pos : ℕ → ℤ
  negsuc : ℕ → ℤ

mutual
  pub data Value : Type 0 where
    null : Value
    flag : Bool → Value
    num : ℤ → Value
    str : Text → Value
    arr : Items → Value
    dict : Fields → Value

  pub data Items : Type 0 where
    nil : Items
    cons : Value → Items → Items

  pub data Fields : Type 0 where
    end : Fields
    field : Text → Value → Fields → Fields

-- d.get(k), with a missing key as `None`
unfoldable pub get_field : Text → Fields → Value
get_field k end = null
get_field k (field j v fs) = if eq_text j k then v else get_field k fs

unfoldable pub strings : List Text → Items
strings [] = nil
strings (t ∷ ts) = cons (str t) (strings ts)

abbrev pub opt_str : Option Text → Value
opt_str none = null
opt_str (some t) = str t

abbrev pub nat : ℕ → Value
nat n = num (pos n)
