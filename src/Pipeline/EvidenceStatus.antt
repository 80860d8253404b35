-- ===== src/Pipeline/EvidenceStatus.antt =====
-- `get_evidence_status` of backend/app/services/pipeline_orchestration_service.py, over the repositories of
-- the runs, of the review decisions and of the approved evidence
-- (backend/app/repositories/evidence_repository.py).
use sustentra_platform.Prelude.{ℕ, Option, none, some, List, length}
use sustentra_platform.Text.{Text, ◌==◌}
use sustentra_platform.Review.Types.{ReviewDecision}
use sustentra_platform.Review.Aggregate.{Aggregate, ReviewStatus, in_review}
use sustentra_platform.Review.Decisions.{list_by_evidence, last_match}
use sustentra_platform.Pipeline.Runs.{PipelineRun, get_latest_run}

-- The answer of `get_evidence_status`.
pub record EvidenceStatus (N R : Type 0) : Type 0 where
  pub evidence_id : Text
  pub latest_pipeline_run : Option PipelineRun
  pub review_decision_count : ℕ
  pub latest_approved_evidence : Option (Aggregate N R)
  pub approved_field_count : ℕ
  pub review_status : ReviewStatus

module _ {N R : Type 0} where
  -- `get_latest_by_evidence` of the approved evidence
  unfoldable pub get_latest_approved : Text → List (Aggregate N R) → Option (Aggregate N R)
  get_latest_approved evidence_id store = last_match (λ a. a.evidence_id == evidence_id) store

  abbrev pub approved_count : Option (Aggregate N R) → ℕ
  approved_count none = 0
  approved_count (some a) = a.approved_field_count

  abbrev pub status_or_in_review : Option (Aggregate N R) → ReviewStatus
  status_or_in_review none = in_review
  status_or_in_review (some a) = a.review_status

  -- `get_evidence_status`
  unfoldable pub get_evidence_status :
      Text
      → List PipelineRun
      → List (ReviewDecision N R)
      → List (Aggregate N R)
      → EvidenceStatus N R
  get_evidence_status evidence_id runs decisions store =
      let approved = get_latest_approved evidence_id store in
      record {
        evidence_id = evidence_id;
        latest_pipeline_run = get_latest_run evidence_id runs;
        review_decision_count = length (list_by_evidence evidence_id decisions);
        latest_approved_evidence = approved;
        approved_field_count = approved_count approved;
        review_status = status_or_in_review approved;
      }
