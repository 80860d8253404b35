-- ===== src/Completeness/Counts.antt =====
-- The result of the tracker covers the required rows.
use sustentra_platform.Prelude.{suc, ◌≡◌, refl, ap, ◌∙◌, List, [], ◌∷◌, map, length, arith, filter}
use sustentra_platform.Prelude.Outcomes.{ok}
use sustentra_platform.Text.{Text, normalize}
use sustentra_platform.Value.{Numbers, Value}
use sustentra_platform.Dict.{text_key, Dict, has_key}
use sustentra_platform.Counter.{total, sorted_counts, total-sorted_counts}
use sustentra_platform.Methodology.Types.{SchemaRow, MethodologyValue}
use sustentra_platform.Methodology.Registry.{
  make_registry, list_required_rows, normalized_key, list_required_rows-filter,
}
use sustentra_platform.Completeness.{
  completeness_statuses, CompletenessResult, statuses_of, RowResult, evaluate_values,
  apply_condition, evaluate_row, evaluate_rows, track,
}

length-statuses_of : (results : List RowResult) → length (statuses_of results) ≡ length results
length-statuses_of [] = refl
length-statuses_of (r ∷ rs) = ap suc (length-statuses_of rs)

module _ {N : Type 0} ⦃numbers : Numbers N⦄ where
  field_id-evaluate_row :
      (row : SchemaRow) (values : List (MethodologyValue N)) (cv : Dict (Value N))
      → (evaluate_row row values cv).field_id ≡ row.field_id
  unfolding evaluate_row evaluate_values apply_condition
  field_id-evaluate_row row values cv = ground arith

  field_ids-evaluate_rows :
      (rows : List SchemaRow) (values : List (MethodologyValue N)) (cv : Dict (Value N))
      → map (λ r. r.field_id) (evaluate_rows rows values cv) ≡ map (λ r. r.field_id) rows
  unfolding evaluate_rows
  field_ids-evaluate_rows [] values cv = refl
  field_ids-evaluate_rows (row ∷ rows) values cv =
      cc (field_id-evaluate_row row values cv, field_ids-evaluate_rows rows values cv)

  module _ (rows : List SchemaRow) (engagement_id : Text) (values : List (MethodologyValue N))
      (cv : Dict (Value N)) (level : Text) (result : CompletenessResult)
      (returned : track (make_registry rows) engagement_id values cv level ≡ ok result) where
    results-track :
        result.results ≡ evaluate_rows (list_required_rows (make_registry rows) level) values cv
    unfolding track
    results-track = ground arith

    counts-track : result.status_counts ≡ sorted_counts (statuses_of result.results)
    unfolding track
    counts-track = ground arith

    -- A run that returns has one result for each row of the bundle at the requirement level, in the
    -- order of the bundle, and its status counts add up to the number of the results.
    pub track_covers :
        (map (λ r. r.field_id) result.results
          ≡ map
              (λ r. r.field_id)
              (filter (has_key (normalized_key λ r. r.requirement_level) (normalize level)) rows))
        × (total result.status_counts ≡ length result.results)
    track_covers = (
      rw results-track
          (rw (list_required_rows-filter rows level) (field_ids-evaluate_rows _ values cv)),
      rw counts-track
          (total-sorted_counts (statuses_of result.results) ∙ length-statuses_of result.results),
    )
