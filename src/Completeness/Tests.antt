-- ===== src/Completeness/Tests.antt =====
-- The tracker on concrete rows, and the theorems at such inputs.
use sustentra_platform.Prelude.{ℕ, ◌≡◌, ◌≢◌, ◌↔◌, refl, true, some, [], ◌∷◌, filter, map, length}
use sustentra_platform.Prelude.Outcomes.{ok}
use sustentra_platform.Text.{lit, ◌==◌, normalize, casefold, has_content, strip}
use sustentra_platform.Value.{has_populated_value}
use sustentra_platform.Dict.{text_key, has_key, get, put, get_list, index, append_at, index_from}
use sustentra_platform.Counter.{total, sorted_counts}
use sustentra_platform.Samples.{whole, row, value}
use sustentra_platform.Condition.Evaluator.{evaluate, run_text, run_tokens, conclude}
use sustentra_platform.Condition.Tokenizer.{tokenize}
use sustentra_platform.Condition.Parser.{
  parse_expression, expect_end, peek, consume, consume_value, parse_comparison, equals_value,
  actual,
}
use sustentra_platform.Methodology.Types.{SchemaRow}
use sustentra_platform.Methodology.Registry.{
  make_registry, normalized_key, list_required_rows, by_field_id,
}
use sustentra_platform.Methodology.ValueIndex.{evidences, values_of, index_values}
use sustentra_platform.Completeness.{
  missing_required, complete, provisional_condition_unknown, CompletenessResult, evaluate_row,
  evaluate_rows, evaluate_values, apply_condition, is_requestable, track,
}
use sustentra_platform.Completeness.Exact.{Applies, missing_required_iff, complete_iff}
use sustentra_platform.Completeness.Counts.{track_covers}

abbrev conditional : SchemaRow
conditional = record row { condition = some (lit "A = yes") }

missing_required_iff_example : ((evaluate_row {N = ℕ} row [] []).status ≡ missing_required) ↔ (
    Applies {N = ℕ} [] row
    × (is_requestable (some (lit "Extracted")) ≡ true)
    × (filter (evidences {N = ℕ} (lit "S1-STC-010")) [] ≡ []))
missing_required_iff_example = missing_required_iff {N = ℕ} [] row []

complete_iff_example :
    ((evaluate_row row (value ∷ []) []).status ≡ complete)
    ↔ (Applies {N = ℕ} [] row × (filter (evidences (lit "S1-STC-010")) (value ∷ []) ≢ []))
complete_iff_example = complete_iff [] row (value ∷ [])

-- The row is missing with no values, complete with one, and left for review with a condition on a
-- field that has no value.
missing_there : (evaluate_row {N = ℕ} row [] []).status ≡ missing_required
unfolding evaluate_row evaluate_values values_of index_values index index_from get_list
    is_requestable casefold ◌==◌
missing_there = refl

complete_there : (evaluate_row row (value ∷ []) []).methodology_value_ids ≡ lit "v1" ∷ []
unfolding evaluate_row evaluate_values values_of index_values index index_from get_list get
    append_at put has_populated_value has_content is_requestable casefold ◌==◌
complete_there = refl

left_there : (evaluate_row conditional (value ∷ []) []).status ≡ provisional_condition_unknown
unfolding evaluate_row apply_condition evaluate run_text run_tokens conclude tokenize has_content
    parse_expression expect_end peek consume consume_value parse_comparison equals_value actual get
left_there = refl

abbrev result : CompletenessResult
result = record {
  engagement_id = lit "e";
  status_counts = (missing_required, 1) ∷ [];
  results = evaluate_row {N = ℕ} row [] [] ∷ [];
}

tracked : track {N = ℕ} (make_registry (row ∷ [])) (lit "e") [] [] (lit "Core") ≡ ok result
unfolding track has_content list_required_rows make_registry by_field_id normalize strip index
    index_from append_at put get get_list evaluate_rows evaluate_row evaluate_values values_of
    index_values is_requestable casefold sorted_counts ◌==◌
tracked = refl

track_covers_example :
    (map (λ r. r.field_id) result.results
      ≡ map
          (λ r. r.field_id)
          (filter
            (has_key (normalized_key λ r. r.requirement_level) (normalize (lit "Core")))
            (row ∷ [])))
    × (total result.status_counts ≡ length result.results)
track_covers_example = track_covers (row ∷ []) (lit "e") [] [] (lit "Core") result tracked
