-- ===== src/Completeness/Exact.antt =====
-- When a row is missing, complete or left for review, in terms of its condition and of the values.
use sustentra_platform.Prelude.{◌≡◌, ◌≢◌, ◌↔◌, ◌⊎◌, true, false, List, [], map, filter, arith}
use sustentra_platform.Text.{is_truthy}
use sustentra_platform.Value.{Numbers, Value}
use sustentra_platform.Dict.{Dict}
use sustentra_platform.Condition.Evaluator as Condition
use sustentra_platform.Condition.Evaluator.{ResultReason, evaluate}
use sustentra_platform.Methodology.Types.{SchemaRow, MethodologyValue}
use sustentra_platform.Methodology.ValueIndex.{evidences, values_of-filter}
use sustentra_platform.Completeness.{
  complete, missing_required, provisional_condition_unknown, is_requestable, evaluate_values,
  apply_condition, evaluate_row,
}

module _ {N : Type 0} ⦃numbers : Numbers N⦄ (condition_values : Dict (Value N)) where
  -- The row has no condition, or its condition is answered with `applicable`.
  abbrev pub Applies : SchemaRow → Type 0
  Applies row =
      (is_truthy row.condition ≡ false)
      ⊎ ((evaluate condition_values row.condition).status ≡ Condition.applicable)

  -- The condition is there, and its answer is `unknown` or `unsupported_condition`.
  abbrev pub NeedsReview : SchemaRow → Type 0
  NeedsReview row =
      (is_truthy row.condition ≡ true)
      × (((evaluate condition_values row.condition).status ≡ Condition.unknown_value)
          ⊎ ((evaluate condition_values row.condition).status ≡ Condition.unsupported_condition))

  -- A row is reported missing exactly when it applies, its values are to be extracted, and no usable
  -- value of its field is there.
  pub missing_required_iff :
      (row : SchemaRow) (values : List (MethodologyValue N))
      → ((evaluate_row row values condition_values).status ≡ missing_required) ↔ (
          Applies row
          × (is_requestable row.value_origin ≡ true)
          × (filter (evidences row.field_id) values ≡ []))
  unfolding evaluate_row evaluate_values apply_condition
  missing_required_iff row values = rw values_of-filter (ground arith)

  -- A row is reported complete exactly when it applies and a usable value of its field is there.
  pub complete_iff :
      (row : SchemaRow) (values : List (MethodologyValue N))
      → ((evaluate_row row values condition_values).status ≡ complete)
        ↔ (Applies row × (filter (evidences row.field_id) values ≢ []))
  unfolding evaluate_row evaluate_values apply_condition
  complete_iff row values = rw values_of-filter (ground arith)

  -- A row is left for review exactly when the answer to its condition is unknown or unsupported.
  pub provisional_iff :
      (row : SchemaRow) (values : List (MethodologyValue N))
      → ((evaluate_row row values condition_values).status ≡ provisional_condition_unknown)
        ↔ NeedsReview row
  unfolding evaluate_row evaluate_values apply_condition
  provisional_iff row values = ground arith

  -- The value ids of a row are those of the usable values of its field, in their order, and only a
  -- complete row has any.
  pub complete_ids :
      (row : SchemaRow) (values : List (MethodologyValue N))
      → (evaluate_row row values condition_values).methodology_value_ids ≢ []
      → ((evaluate_row row values condition_values).status ≡ complete)
        × ((evaluate_row row values condition_values).methodology_value_ids
            ≡ map (λ v. v.methodology_value_id) (filter (evidences row.field_id) values))
  unfolding evaluate_row evaluate_values apply_condition
  complete_ids row values = rw values_of-filter (ground arith)
