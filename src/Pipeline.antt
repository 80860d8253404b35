-- ===== src/Pipeline.antt =====
-- The pipeline from a file to extraction candidates: services/pipeline_orchestration_service.py of
-- backend/app with repositories/pipeline_repository.py, and the plan of what to extract,
-- services/extraction_target_service.py.
pub mod Targets
pub mod Runs
pub mod Stages
pub mod Steps
pub mod Process
pub mod EvidenceStatus
pub mod Projected
pub mod Endings
pub mod Trace
pub mod Saved
pub mod Sorting
pub mod TargetLaws
mod Tests
