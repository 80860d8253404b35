-- ===== src/VerificationEngine/Tests.antt =====
-- The engine on a concrete rule.
use sustentra_platform.Prelude.{ℕ, ◌≡◌, ◌≢◌, ◌↔◌, refl, false, none, some, [], ◌∷◌}
use sustentra_platform.Text.{lit, ◌==◌, normalize, strip, casefold, has_content}
use sustentra_platform.Value.{has_populated_value}
use sustentra_platform.Dict.{text_key, get_list, index, index_from, append_at}
use sustentra_platform.Samples.{value}
use sustentra_platform.Methodology.Types.{Rule}
use sustentra_platform.Methodology.ValueIndex.{values_of, index_values}
use sustentra_platform.VerificationEngine.{
  passed, failed, evaluate_rule, missing_fields, is_limit, is_executable,
}
use sustentra_platform.VerificationEngine.Exact.{Executable, Supported, passed_iff}

abbrev rule : Rule
rule = record {
  rule_id = lit "V-001";
  rule_type = some (lit " Gate");
  assertion = none;
  is_provisional = false;
  resolvable_applies_to = lit "S1-STC-010" ∷ [];
  unresolved_applies_to = lit "S1-*" ∷ [];
}

passed_iff_example : ((evaluate_rule rule (value ∷ [])).status ≡ passed) ↔ (
    (rule.is_provisional ≡ false)
    × (rule.resolvable_applies_to ≢ [])
    × Executable rule
    × Supported rule.resolvable_applies_to (value ∷ []))
passed_iff_example = passed_iff rule (value ∷ [])

passes : (evaluate_rule rule (value ∷ [])).status ≡ passed
unfolding evaluate_rule missing_fields is_limit is_executable values_of index_values index
    index_from append_at get_list has_populated_value has_content normalize strip casefold ◌==◌
passes = refl

fails : (evaluate_rule {N = ℕ} rule []).status ≡ failed
unfolding evaluate_rule missing_fields is_limit is_executable values_of index_values index get_list
    normalize strip casefold ◌==◌
fails = refl
