-- ===== src/VerificationEngine.antt =====
-- The verification engine (backend/app/services/verification_engine_service.py).
pub mod Exact
mod Tests
use sustentra_platform.Prelude.{
  ℕ, ◌≡◌, refl, ◌↔◌, Bool, true, false, not, ◌||◌, Option, none, some, List, [], ◌∷◌, map, filter,
  is_empty, length, arith, concat_map, if◌then◌else◌,
}
use sustentra_platform.Prelude.Outcomes.{Result, ok, error, require, ◌>>=◌, ◌>>◌}
use sustentra_platform.Text.{Text, lit, ◌==◌, normalize, has_content, or_empty}
use sustentra_platform.Counter.{Statuses, sorted_counts}
use sustentra_platform.Methodology.Types.{Rule, MethodologyValue}
use sustentra_platform.Methodology.ValueIndex.{values_of}

-- `VerificationStatus`
pub data VerificationStatus : Type 0 where
  passed failed not_applicable provisional unsupported cannot_verify : VerificationStatus

-- The texts of `reason`.
pub data VerificationReason : Type 0 where
  confirm_needed no_concrete_fields limit_semantics all_present : VerificationReason
  type_not_executable : Option Text → VerificationReason
  values_missing : List Text → VerificationReason

-- `VerificationRuleResult`
pub record RuleResult : Type 0 where
  pub rule_id : Text
  pub rule_type : Option Text
  pub assertion : Option Text
  pub status : VerificationStatus
  pub applies_to : List Text
  pub methodology_value_ids : List Text
  pub reason : VerificationReason

-- `_result`
abbrev rule_result : Rule → VerificationStatus → List Text → VerificationReason → RuleResult
rule_result rule status ids reason = record {
  rule_id = rule.rule_id;
  rule_type = rule.rule_type;
  assertion = rule.assertion;
  status = status;
  applies_to = rule.resolvable_applies_to;
  methodology_value_ids = ids;
  reason = reason;
}

-- `(rule.rule_type or "").strip().casefold()`
abbrev pub type_name : Rule → Text
type_name rule = normalize (or_empty rule.rule_type)

-- `LIMIT_RULE_TYPES`
unfoldable pub is_limit : Text → Bool
is_limit t = t == lit "limit"

-- `EXECUTABLE_RULE_TYPES`
unfoldable pub is_executable : Text → Bool
is_executable t = t == lit "guard" || (t == lit "gate" || t == lit "invariant")

module _ {N : Type 0} where
  -- `_value_ids`
  unfoldable pub value_ids : Rule → List (MethodologyValue N) → List Text
  value_ids rule values =
      concat_map (λ field_id. map (λ v. v.methodology_value_id) (values_of values field_id))
        rule.resolvable_applies_to

  -- The fields with no usable value.
  unfoldable pub missing_fields : Rule → List (MethodologyValue N) → List Text
  missing_fields rule values =
      filter (λ field_id. is_empty (values_of values field_id)) rule.resolvable_applies_to

  -- `_evaluate_rule`
  unfoldable pub evaluate_rule : Rule → List (MethodologyValue N) → RuleResult
  evaluate_rule rule values =
      let ids = value_ids rule values in
      let missing = missing_fields rule values in
      if rule.is_provisional
      then rule_result rule provisional [] confirm_needed
      else if is_empty rule.resolvable_applies_to
      then rule_result rule
          (if not (is_empty rule.unresolved_applies_to) then not_applicable else unsupported) []
          no_concrete_fields
      else if is_limit (type_name rule)
      then rule_result rule cannot_verify ids limit_semantics
      else if not (is_executable (type_name rule))
      then rule_result rule unsupported ids (type_not_executable rule.rule_type)
      else if not (is_empty missing)
      then rule_result rule failed ids (values_missing missing)
      else rule_result rule passed ids all_present

abbrev pub same_status : VerificationStatus → VerificationStatus → Bool
same_status passed passed = true
same_status failed failed = true
same_status not_applicable not_applicable = true
same_status provisional provisional = true
same_status unsupported unsupported = true
same_status cannot_verify cannot_verify = true
same_status _ _ = false

pub same_status_iff : (a b : VerificationStatus) → (same_status a b ≡ true) ↔ (a ≡ b)
same_status_iff a b = ground arith

abbrev pub sorted_statuses : List VerificationStatus
sorted_statuses = cannot_verify ∷ failed ∷ not_applicable ∷ passed ∷ provisional ∷ unsupported ∷ []

pub each_once :
    (a : VerificationStatus) → length (filter (λ s. same_status a s) sorted_statuses) ≡ 1
each_once passed = refl
each_once _ = refl

instance abbrev pub verification_statuses : Statuses VerificationStatus
verification_statuses = record {
  same = same_status;
  order = sorted_statuses;
  same_iff = same_status_iff;
  once = each_once;
}

abbrev pub statuses_of : List RuleResult → List VerificationStatus
statuses_of results = map (λ r. r.status) results

pub record VerificationResult : Type 0 where
  pub engagement_id : Text
  pub status_counts : List (VerificationStatus × ℕ)
  pub results : List RuleResult

pub data VerificationError : Type 0 where
  engagement_id_required : VerificationError

-- `VerificationEngineService.evaluate`
unfoldable pub verify :
    {N : Type 0}
    → Text
    → List Rule
    → List (MethodologyValue N)
    → Result VerificationError VerificationResult
verify engagement_id rules values = do
  require (has_content engagement_id) engagement_id_required
  let results = map (λ rule. evaluate_rule rule values) rules
  ok (record {
    engagement_id = engagement_id;
    status_counts = sorted_counts (statuses_of results);
    results = results;
  })
