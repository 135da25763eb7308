-- ===== src/Tls/Collector/Tests.antt =====
-- Lines with a hybrid group, an unknown group and none.
use quansec_pqc_platform.Prelude.{
  ◌≡◌, refl, true, false, none, some, Text, codes, eq_text, truthy, lower, strip, contains_text,
}
use quansec_pqc_platform.Json.{pos}
use quansec_pqc_platform.Tls.Collector.{
  Python, classify_group, classify_name, classify_key, is_unreported, label_of, has_marker,
}

-- A line is the value of each of its keys.
abbrev one_value : Python Text
one_value = record {
  loads = λ t. some (some (λ k. some t));
  to_text = λ t. t;
  fromisoformat = λ t. some 7;
  is_true = truthy;
  int_of = λ t. some (pos 200);
  float_of = some;
  decode = λ bytes. bytes;
}

hybrid_name :
    classify_group (some (codes " X25519MLKEM768 ")) ≡ (true, some (codes "ML-KEM-768 + X25519"))
unfolding classify_group classify_name classify_key is_unreported label_of strip lower eq_text
hybrid_name = refl

unknown_name : classify_group (some (codes "newkyber")) ≡ (true, some (codes "newkyber"))
unfolding classify_group classify_name classify_key is_unreported label_of strip lower has_marker
    contains_text eq_text
unknown_name = refl

resumed : classify_group (some (codes ".")) ≡ (false, none)
unfolding classify_group is_unreported strip eq_text
resumed = refl
