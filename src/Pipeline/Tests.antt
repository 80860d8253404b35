-- ===== src/Pipeline/Tests.antt =====
-- Runs of the pipeline on small inputs.
use sustentra_platform.Prelude.{
  Bool, All, ◌≢◌, ◌&&◌, inr, arith, ℕ, ◌+◌, ◌≡◌, refl, true, false, none, some, [], ◌∷◌, map, max,
  ltb, length,
}
use sustentra_platform.Prelude.Outcomes.{ok}
use sustentra_platform.Text.{Text, lit, ◌==◌, eq_iff, has_content, strip, drop_space, is_space}
use sustentra_platform.Value.{null, text, number}
use sustentra_platform.Samples.{whole}
use sustentra_platform.Pipeline.Targets.{
  ExtractionConfig, Classification, has_status, get_targets_for_canonical_type,
  get_targets_for_classification_result,
}
use sustentra_platform.Pipeline.Runs.{save_run, get_run_by_id, get_latest_run}
use sustentra_platform.Pipeline.Stages.{Services, Document, Threshold, plan_with}
use sustentra_platform.Pipeline.Process.{Answer, process_local_document}
use sustentra_platform.Pipeline.Endings.{EndsWell}
use sustentra_platform.Pipeline.Saved.{process_answers}
use sustentra_platform.Pipeline.TargetLaws.{
  IsSorted, IsWanted, IsTargetOf, IsDistinct, targets-IsSorted, multi_type-IsDistinct,
}
use sustentra_platform.Review.Aggregate.{Aggregate, parse_reviewed_at}
use sustentra_platform.Review.Types.{rejected, edited}
use sustentra_platform.Review.Decisions.{list_by_evidence}
use sustentra_platform.Review.Evidence.{
  build_aggregate, project_by_evidence, project_from_review_decisions, read_entries,
  latest_per_field, latest_by_field, keep_latest,
}
use sustentra_platform.Review.Samples.{decision_at, decisions, call, digit_dates}
use sustentra_platform.Dict.{get, put}
use sustentra_platform.Pipeline.EvidenceStatus.{get_evidence_status}
use sustentra_platform.Pipeline.Sorting.{count}
use sustentra_platform.Pipeline.Projected.{status_shows_projection}

-- Confidences in percent.
instance abbrev percent : Threshold ℕ
percent = record { is_low = λ n. ltb n 50 }

abbrev late : ExtractionConfig
late = record {
  canonical_type_id = lit "bill";
  field_id = lit "usage";
  required_status = lit "optional";
  population_status = lit "live";
}

abbrev early : ExtractionConfig
early = record {
  canonical_type_id = lit "bill";
  field_id = lit "amount";
  required_status = lit "core";
  population_status = lit "live";
}

abbrev classification : Classification
classification = record {
  status = some (lit "multi_type_candidate");
  primary_canonical_type_id = some (lit "bill");
  candidate_matches = some (lit "bill") ∷ none ∷ some (lit "note") ∷ [];
}

abbrev services : Services ℕ Text
services = plan_with (late ∷ early ∷ []) (record {
  parse = λ path document run. ok path;
  parser_status = λ output. some (lit "parsed");
  classify = λ document engagement run name output. ok classification;
  targets_for_type = λ id o d. ok [];
  targets_for_classification = λ c o d. ok [];
  extract = λ output targets evidence. ok (record {
    candidate_count = some 2;
    items =
        record { normalized_value = null; raw_value = text (lit " "); confidence = null }
        ∷ record { normalized_value = number 7; raw_value = null; confidence = number 90 }
        ∷ [];
  });
  is_file = λ path. true;
  base_name = λ path. path;
  new_id = λ prefix seed. prefix;
  created_at = lit "t0";
  completed_at = lit "t1";
})

abbrev document : Document
document = record {
  local_file_path = lit "bill.pdf";
  engagement_id = lit "eng";
  evidence_id = none;
  document_id = none;
  processing_run_id = none;
  file_name = none;
  canonical_type_id_override = none;
  include_optional = true;
  include_deprecated = false;
  persist_run = true;
}

engagement_given : has_content document.engagement_id ≡ true
unfolding has_content strip drop_space is_space
engagement_given = refl

process_answers_example :
    (a : Answer ℕ Text) × (process_local_document services document []
      ≡ (save_run a.pipeline_run [], ok a))
    × EndsWell a.pipeline_run.status a.pipeline_run.stage_statuses
    × (get_run_by_id a.pipeline_run.pipeline_run_id (save_run a.pipeline_run [])
        ≡ some a.pipeline_run)
    × (get_latest_run a.pipeline_run.evidence_id (save_run a.pipeline_run []) ≡ some a.pipeline_run)
    × (a.pipeline_run.found_candidate_count + a.pipeline_run.missing_candidate_count
        ≡ max a.pipeline_run.found_candidate_count a.pipeline_run.candidate_count)
process_answers_example = process_answers services document [] refl engagement_given refl

abbrev is_core_bill : ExtractionConfig → Bool
is_core_bill c =
    c.canonical_type_id == lit "bill"
    && (c.required_status == lit "core" && c.population_status == lit "live")

apart : (s t u : Text) → s ≡ t → (t == u) ≡ false → s ≢ u
apart s t u e h k = ground (arith, eq_iff t u)

core-IsWanted : (c : ExtractionConfig) → is_core_bill c ≡ true → IsWanted (lit "bill") false false c
unfolding ◌==◌
core-IsWanted c h =
    let type : c.canonical_type_id ≡ lit "bill" =
      (eq_iff c.canonical_type_id (lit "bill")).0 (ground arith) in
    let core : c.required_status ≡ lit "core" =
      (eq_iff c.required_status (lit "core")).0 (ground arith) in
    let live : c.population_status ≡ lit "live" =
      (eq_iff c.population_status (lit "live")).0 (ground arith) in
    (
      type,
      inr (apart c.required_status (lit "core") (lit "optional") core refl),
      inr (
        apart c.population_status (lit "live") (lit "deprecated") live refl,
        apart c.population_status (lit "live") (lit "archived") live refl,
      ),
    )

targets-IsSorted_example :
    let targets = get_targets_for_canonical_type (late ∷ early ∷ []) (lit "bill") false false in
    IsSorted (map (λ t. t.config) targets)
    × All (IsTargetOf (lit "bill") false false) targets
    × (count is_core_bill (map (λ t. t.config) targets) ≡ count is_core_bill (late ∷ early ∷ []))
targets-IsSorted_example =
    targets-IsSorted (late ∷ early ∷ []) (lit "bill") false false is_core_bill core-IsWanted

several : has_status classification.status (lit "classified") ≡ false
unfolding ◌==◌
several = refl

multi_type-IsDistinct_example :
    IsDistinct (get_targets_for_classification_result (late ∷ early ∷ []) classification true false)
multi_type-IsDistinct_example =
    multi_type-IsDistinct (late ∷ early ∷ []) classification true false several

-- The aggregate of the latest decisions on the two fields.
abbrev made : Aggregate ℕ Text
made = build_aggregate call (lit "ev") (lit "doc") (
    decision_at (lit "d2") (lit "site") rejected (lit "30")
    ∷ decision_at (lit "d3") (lit "fuel") edited (lit "12")
    ∷ [])

projected : project_by_evidence call (lit "ev") decisions [] ≡ ok (made ∷ [], made)
unfolding project_by_evidence list_by_evidence project_from_review_decisions has_content strip
    drop_space is_space ◌==◌ read_entries parse_reviewed_at latest_per_field latest_by_field
    keep_latest get put
projected = refl

status_shows_projection_example :
    let s = get_evidence_status (lit "ev") [] decisions (made ∷ []) in
    (s.latest_approved_evidence ≡ some made)
    × (s.approved_field_count ≡ made.approved_field_count)
    × (s.review_status ≡ made.review_status)
    × (s.review_decision_count ≡ length (list_by_evidence (lit "ev") decisions))
status_shows_projection_example =
    status_shows_projection call (lit "ev") [] decisions [] (made ∷ []) made projected
