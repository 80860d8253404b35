-- ===== src/Pipeline/Process.antt =====
-- `process_local_document` of backend/app/services/pipeline_orchestration_service.py, and the run that
-- it builds.
use sustentra_platform.Prelude.{◌-◌, not, List, filter, length, if◌then◌else◌}
use sustentra_platform.Prelude.Outcomes.{Result, ok, error}
use sustentra_platform.Text.{lit, has_content}
use sustentra_platform.Value.{Numbers}
use sustentra_platform.Pipeline.Runs.{PipelineRun, save_run}
use sustentra_platform.Pipeline.Stages.{
  Services, Document, Progress, Threshold, candidate_has_value, candidate_is_low_confidence,
  count_or,
}
use sustentra_platform.Pipeline.Steps.{RunIds, given_or, Ending, run_stages}

-- The ValueErrors of the arguments.
pub data ProcessError : Type 0 where
  no_such_file engagement_required : ProcessError

-- The answer: the run, and the variables that are answered with it.
pub record Answer (N P : Type 0) : Type 0 where
  pub pipeline_run : PipelineRun
  pub progress : Progress N P

module _ {N P : Type 0} where
  abbrev pub resolve_ids : Services N P → Document → RunIds
  resolve_ids services doc =
      let document =
        given_or doc.document_id (services.new_id (lit "document") doc.engagement_id) in
      let evidence = given_or doc.evidence_id (services.new_id (lit "evidence") document) in
      record {
        document_id = document;
        evidence_id = evidence;
        processing_run_id =
            given_or doc.processing_run_id (services.new_id (lit "processing") document);
        pipeline_run_id = services.new_id (lit "pipeline") evidence;
        file_name = given_or doc.file_name (services.base_name doc.local_file_path);
      }

  module _ ⦃numbers : Numbers N⦄ ⦃threshold : Threshold N⦄ where
    -- `_build_pipeline_run`
    unfoldable pub build_pipeline_run : Services N P → Document → RunIds → Ending N P → PipelineRun
    build_pipeline_run services doc ids ending =
        let p = ending.progress in
        let items = p.extraction_result.items in
        let count = count_or p.extraction_result.candidate_count (length items) in
        let found = length (filter candidate_has_value items) in
        record {
          pipeline_run_id = ids.pipeline_run_id;
          engagement_id = doc.engagement_id;
          evidence_id = ids.evidence_id;
          document_id = ids.document_id;
          processing_run_id = ids.processing_run_id;
          status = ending.status;
          stage_statuses = p.stages;
          input_file_name = ids.file_name;
          canonical_type_id = p.canonical_type_id;
          canonical_type_source = p.canonical_type_source;
          classification_status = p.classification_status;
          parser_status = p.parser_status;
          target_count = length p.extraction_targets;
          candidate_count = count;
          found_candidate_count = found;
          missing_candidate_count = count - found;
          low_confidence_candidate_count = length (filter candidate_is_low_confidence items);
          warnings = p.warnings;
          errors = p.errors;
          created_at = services.created_at;
          completed_at = services.completed_at;
        }

    -- `process_local_document`
    unfoldable pub process_local_document :
        Services N P
        → Document
        → List PipelineRun
        → List PipelineRun × Result ProcessError (Answer N P)
    process_local_document services doc runs =
        if not (services.is_file doc.local_file_path)
        then (runs, error no_such_file)
        else if not (has_content doc.engagement_id)
        then (runs, error engagement_required)
        else let ids = resolve_ids services doc in
          let ending = run_stages services doc ids in
          let run = build_pipeline_run services doc ids ending in
          (
            if doc.persist_run then save_run run runs else runs,
            ok (record { pipeline_run = run; progress = ending.progress }),
          )
