-- ===== src/Pipeline/Runs.antt =====
-- backend/app/domain/pipeline.py, and the repository in memory of
-- backend/app/repositories/pipeline_repository.py: the list of the runs, the oldest first.
use sustentra_platform.Prelude.{ℕ, Option, none, some, List, [], ◌∷◌, ◌++◌, filter}
use sustentra_platform.Text.{Text, ◌==◌}

pub data PipelineStatus : Type 0 where
  completed partial failed : PipelineStatus

pub data StageStatus : Type 0 where
  not_started completed skipped partial failed : StageStatus

pub data CanonicalTypeSource : Type 0 where
  from_classifier from_override from_none : CanonicalTypeSource

-- `PipelineStageStatuses`
pub record StageStatuses : Type 0 where
  pub parse : StageStatus
  pub classify : StageStatus
  pub target_plan : StageStatus
  pub candidate_generation : StageStatus

-- `PipelineRun`, without the artifacts, which are always empty here.
pub record PipelineRun : Type 0 where
  pub pipeline_run_id : Text
  pub engagement_id : Text
  pub evidence_id : Text
  pub document_id : Text
  pub processing_run_id : Text
  pub status : PipelineStatus
  pub stage_statuses : StageStatuses
  pub input_file_name : Text
  pub canonical_type_id : Option Text
  pub canonical_type_source : CanonicalTypeSource
  pub classification_status : Option Text
  pub parser_status : Option Text
  pub target_count : ℕ
  pub candidate_count : ℕ
  pub found_candidate_count : ℕ
  pub missing_candidate_count : ℕ
  pub low_confidence_candidate_count : ℕ
  pub warnings : List Text
  pub errors : List Text
  pub created_at : Text
  pub completed_at : Text

-- `save`
abbrev pub save_run : PipelineRun → List PipelineRun → List PipelineRun
save_run r runs = runs ++ r ∷ []

-- The last element.
abbrev pub last_run : List PipelineRun → Option PipelineRun → Option PipelineRun
last_run [] found = found
last_run (r ∷ runs) found = last_run runs (some r)

abbrev pub list_by_engagement : Text → List PipelineRun → List PipelineRun
list_by_engagement engagement_id runs = filter (λ r. r.engagement_id == engagement_id) runs

abbrev pub list_by_evidence : Text → List PipelineRun → List PipelineRun
list_by_evidence evidence_id runs = filter (λ r. r.evidence_id == evidence_id) runs

-- `get_by_id`: the last run with the id
unfoldable pub get_run_by_id : Text → List PipelineRun → Option PipelineRun
get_run_by_id id runs = last_run (filter (λ r. r.pipeline_run_id == id) runs) none

-- `get_latest_by_evidence`
unfoldable pub get_latest_run : Text → List PipelineRun → Option PipelineRun
get_latest_run evidence_id runs = last_run (list_by_evidence evidence_id runs) none
