-- ===== src/Completeness.antt =====
-- The completeness tracker (backend/app/services/completeness_tracker_service.py).
pub mod Exact
pub mod Counts
mod Tests
use sustentra_platform.Prelude.{
  ℕ, ◌≡◌, refl, ◌↔◌, arith, Bool, true, false, not, Option, none, some, List, [], ◌∷◌, map, filter,
  is_empty, length, ltb, if◌then◌else◌,
}
use sustentra_platform.Prelude.Outcomes.{Result, ok, error, require, ◌>>=◌, ◌>>◌}
use sustentra_platform.Text.{Text, lit, ◌==◌, casefold, has_content, is_truthy, or_empty}
use sustentra_platform.Value.{Numbers, Value}
use sustentra_platform.Dict.{Dict}
use sustentra_platform.Counter.{Statuses, sorted_counts}
use sustentra_platform.Condition.Evaluator as Condition
use sustentra_platform.Condition.Evaluator.{EvaluationResult, ResultReason, evaluate}
use sustentra_platform.Methodology.Types.{SchemaRow, Layer, MethodologyValue}
use sustentra_platform.Methodology.Registry.{Registry, list_required_rows}
use sustentra_platform.Methodology.ValueIndex.{values_of}

-- `CompletenessStatus`
pub data CompletenessStatus : Type 0 where
  complete missing_required not_applicable : CompletenessStatus
  provisional_condition_unknown not_requestable_value_origin : CompletenessStatus

-- The texts of `reason`.
pub data CompletenessReason : Type 0 where
  condition_false value_missing : CompletenessReason
  condition_reason : Option ResultReason → CompletenessReason
  not_requestable : Option Text → CompletenessReason

-- `CompletenessRowResult`
pub record RowResult : Type 0 where
  pub field_id : Text
  pub layer : Layer
  pub value_origin : Option Text
  pub requirement_level : Option Text
  pub condition : Option Text
  pub condition_status : Option Condition.Status
  pub status : CompletenessStatus
  pub methodology_value_ids : List Text
  pub reason : Option CompletenessReason

-- `_row_result`
abbrev row_result :
    SchemaRow
    → CompletenessStatus
    → Option Condition.Status
    → List Text
    → Option CompletenessReason
    → RowResult
row_result row status condition_status ids reason = record {
  field_id = row.field_id;
  layer = row.layer;
  value_origin = row.value_origin;
  requirement_level = row.requirement_level;
  condition = row.condition;
  condition_status = condition_status;
  status = status;
  methodology_value_ids = ids;
  reason = reason;
}

-- `REQUESTABLE_VALUE_ORIGINS`
unfoldable pub is_requestable : Option Text → Bool
is_requestable origin = casefold (or_empty origin) == lit "extracted"

module _ {N : Type 0} where
  -- The part of `_evaluate_row` behind the condition.
  unfoldable pub evaluate_values :
      List (MethodologyValue N) → SchemaRow → Option Condition.Status → RowResult
  evaluate_values matching row condition_status =
      if not (is_empty matching)
      then row_result row complete condition_status (map (λ v. v.methodology_value_id) matching)
          none
      else if is_requestable row.value_origin
      then row_result row missing_required condition_status [] (some value_missing)
      else row_result row not_requestable_value_origin condition_status []
          (some (not_requestable row.value_origin))

  -- What `_evaluate_row` does with the result of the condition.
  unfoldable pub apply_condition :
      List (MethodologyValue N) → SchemaRow → Condition.Status → Option ResultReason → RowResult
  apply_condition matching row Condition.not_applicable reason =
      row_result row not_applicable (some Condition.not_applicable) [] (some condition_false)
  apply_condition matching row Condition.unknown_value reason =
      row_result row provisional_condition_unknown (some Condition.unknown_value) []
        (some (condition_reason reason))
  apply_condition matching row Condition.unsupported_condition reason =
      row_result row provisional_condition_unknown (some Condition.unsupported_condition) []
        (some (condition_reason reason))
  apply_condition matching row Condition.applicable reason =
      evaluate_values matching row (some Condition.applicable)

module _ {N : Type 0} ⦃numbers : Numbers N⦄ where
  -- `_evaluate_row`
  unfoldable pub evaluate_row : SchemaRow → List (MethodologyValue N) → Dict (Value N) → RowResult
  evaluate_row row values condition_values =
      let matching = values_of values row.field_id in
      let result = evaluate condition_values row.condition in
      if is_truthy row.condition
      then apply_condition matching row result.status result.reason
      else evaluate_values matching row none

  unfoldable pub evaluate_rows :
      List SchemaRow → List (MethodologyValue N) → Dict (Value N) → List RowResult
  evaluate_rows rows values condition_values =
      map (λ row. evaluate_row row values condition_values) rows

abbrev pub same_status : CompletenessStatus → CompletenessStatus → Bool
same_status complete complete = true
same_status missing_required missing_required = true
same_status not_applicable not_applicable = true
same_status provisional_condition_unknown provisional_condition_unknown = true
same_status not_requestable_value_origin not_requestable_value_origin = true
same_status _ _ = false

pub same_status_iff : (a b : CompletenessStatus) → (same_status a b ≡ true) ↔ (a ≡ b)
same_status_iff a b = ground arith

-- The statuses in the order of their names, in which `sorted` lists the counter.
abbrev pub sorted_statuses : List CompletenessStatus
sorted_statuses =
    complete ∷ missing_required ∷ not_applicable ∷ not_requestable_value_origin
    ∷ provisional_condition_unknown ∷ []

pub each_once :
    (a : CompletenessStatus) → length (filter (λ s. same_status a s) sorted_statuses) ≡ 1
each_once complete = refl
each_once _ = refl

instance abbrev pub completeness_statuses : Statuses CompletenessStatus
completeness_statuses = record {
  same = same_status;
  order = sorted_statuses;
  same_iff = same_status_iff;
  once = each_once;
}

abbrev pub statuses_of : List RowResult → List CompletenessStatus
statuses_of results = map (λ r. r.status) results

pub record CompletenessResult : Type 0 where
  pub engagement_id : Text
  pub status_counts : List (CompletenessStatus × ℕ)
  pub results : List RowResult

pub data CompletenessError : Type 0 where
  engagement_id_required : CompletenessError

module _ {N : Type 0} ⦃numbers : Numbers N⦄ where
  -- `CompletenessTrackerService.evaluate`
  unfoldable pub track :
      Registry
      → Text
      → List (MethodologyValue N)
      → Dict (Value N)
      → Text
      → Result CompletenessError CompletenessResult
  track registry engagement_id values condition_values level = do
    require (has_content engagement_id) engagement_id_required
    let results = evaluate_rows (list_required_rows registry level) values condition_values
    ok (record {
      engagement_id = engagement_id;
      status_counts = sorted_counts (statuses_of results);
      results = results;
    })
