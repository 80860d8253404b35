-- ===== src/Pipeline/Steps.antt =====
-- The try statement of `process_local_document` (services/pipeline_orchestration_service.py of
-- backend/app), one function for each stage.
use sustentra_platform.Prelude.{
  Bool, false, ◌||◌, ◌&&◌, Option, none, some, List, [], ◌∷◌, ◌++◌, is_empty, if◌then◌else◌,
}
use sustentra_platform.Prelude.Outcomes.{Result, ok, error}
use sustentra_platform.Text.{Text, lit, strip, has_content, is_truthy, or_empty}
use sustentra_platform.Pipeline.Targets.{Target, Classification, has_status}
use sustentra_platform.Pipeline.Runs.{PipelineStatus, StageStatus, CanonicalTypeSource}
use sustentra_platform.Pipeline.Stages.{
  Extraction, Services, Document, Progress, initial_progress, read_text, parser_stage_status,
  classification_stage_status, mark_failed,
}

-- The ids of a run, as they are resolved.
pub record RunIds : Type 0 where
  pub document_id : Text
  pub evidence_id : Text
  pub processing_run_id : Text
  pub pipeline_run_id : Text
  pub file_name : Text

-- `given or other`
abbrev pub given_or : Option Text → Text → Text
given_or none other = other
given_or (some s) other = if is_empty s then other else s

-- What the stages come to: the status of the run, and the variables.
pub record Ending (N P : Type 0) : Type 0 where
  pub status : PipelineStatus
  pub progress : Progress N P

abbrev pub skip_message : Text
skip_message =
    lit
      "No confident canonical_type_id available; target planning and candidate generation were skipped."

abbrev pub no_targets_message : Text
no_targets_message = lit "No extraction targets were generated for the resolved canonical type."

abbrev pub parser_failed_message : Text
parser_failed_message = lit "Parser stage returned failed status."

-- `classification_status in CLASSIFIER_TARGET_STATUSES and isinstance(primary, str) and primary.strip()`
abbrev pub is_confident : Option Text → Option Text → Bool
is_confident status none = false
is_confident status (some primary) =
    (has_status status (lit "classified") || has_status status (lit "multi_type_candidate"))
    && has_content primary

module _ {N P : Type 0} where
  -- The except clause, for an exception with this text.
  unfoldable pub fail_with : Text → Progress N P → Ending N P
  fail_with exc p = record {
    status = PipelineStatus.failed;
    progress = record p {
      errors = p.errors ++ (lit "Pipeline orchestration failed: " ++ exc) ∷ [];
      stages = mark_failed p.stages;
    };
  }

  abbrev pub with_extraction : Result Text (Extraction N) → Progress N P → Ending N P
  with_extraction (error exc) p = fail_with exc p
  with_extraction (ok r) p = record {
    status = PipelineStatus.completed;
    progress = record p {
      extraction_result = r;
      stages = record p.stages { candidate_generation = StageStatus.completed };
    };
  }

  -- From "if extraction_targets:" on.
  unfoldable pub generate : Services N P → RunIds → P → List Target → Progress N P → Ending N P
  generate services ids output [] p = record {
    status = PipelineStatus.partial;
    progress = record p {
      extraction_targets = [];
      stages = record p.stages {
        target_plan = StageStatus.partial;
        candidate_generation = StageStatus.skipped;
      };
      warnings = p.warnings ++ no_targets_message ∷ [];
    };
  }
  generate services ids output (t ∷ ts) p =
      with_extraction (services.extract output (t ∷ ts) ids.evidence_id) (record p {
        extraction_targets = t ∷ ts;
        stages = record p.stages { target_plan = StageStatus.completed };
      })

  abbrev pub with_targets :
      Services N P → RunIds → P → Result Text (List Target) → Progress N P → Ending N P
  with_targets services ids output (error exc) p = fail_with exc p
  with_targets services ids output (ok targets) p = generate services ids output targets p

  -- No canonical type: the last two stages are skipped.
  unfoldable pub skip_targets : Progress N P → Ending N P
  skip_targets p = record {
    status = PipelineStatus.partial;
    progress = record p {
      warnings = p.warnings ++ skip_message ∷ [];
      stages = record p.stages {
        target_plan = StageStatus.skipped;
        candidate_generation = StageStatus.skipped;
      };
    };
  }

  -- From "if canonical_type_id_override:" on.
  unfoldable pub plan_targets :
      Services N P → Document → RunIds → P → Classification → Progress N P → Ending N P
  plan_targets services doc ids output c p =
      if is_truthy doc.canonical_type_id_override
      then with_targets services ids output
          (services.targets_for_type (or_empty doc.canonical_type_id_override) doc.include_optional
            doc.include_deprecated)
          (record p {
            canonical_type_id = doc.canonical_type_id_override;
            canonical_type_source = CanonicalTypeSource.from_override;
          })
      else if is_confident p.classification_status c.primary_canonical_type_id
      then with_targets services ids output
          (services.targets_for_classification c doc.include_optional doc.include_deprecated)
          (record p {
            canonical_type_id = some (strip (or_empty c.primary_canonical_type_id));
            canonical_type_source = CanonicalTypeSource.from_classifier;
          })
      else skip_targets p

  abbrev pub with_classification :
      Services N P → Document → RunIds → P → Result Text Classification → Progress N P → Ending N P
  with_classification services doc ids output (error exc) p = fail_with exc p
  with_classification services doc ids output (ok c) p =
      plan_targets services doc ids output c (record p {
        classification_result = some c;
        classification_status = read_text c.status;
        stages = record p.stages { classify = classification_stage_status (read_text c.status) };
      })

  -- From the status of the parser on.
  unfoldable pub classify_output : Services N P → Document → RunIds → P → Progress N P → Ending N P
  classify_output services doc ids output p =
      if has_status p.parser_status (lit "failed")
      then record {
        status = PipelineStatus.failed;
        progress = record p { errors = p.errors ++ parser_failed_message ∷ [] };
      }
      else with_classification services doc ids output
          (services.classify ids.document_id doc.engagement_id ids.processing_run_id ids.file_name
            output)
          p

  abbrev pub with_output :
      Services N P → Document → RunIds → Result Text P → Progress N P → Ending N P
  with_output services doc ids (error exc) p = fail_with exc p
  with_output services doc ids (ok output) p = classify_output services doc ids output (record p {
    parser_output = some output;
    parser_status = read_text (services.parser_status output);
    stages = record p.stages {
      parse = parser_stage_status (read_text (services.parser_status output));
    };
  })

  -- The try statement.
  unfoldable pub run_stages : Services N P → Document → RunIds → Ending N P
  run_stages services doc ids =
      with_output services doc ids
        (services.parse doc.local_file_path ids.document_id ids.processing_run_id) initial_progress
