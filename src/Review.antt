-- ===== src/Review.antt =====
-- From reviewed candidates to approved evidence: backend/app/services/review_decision_service.py and
-- backend/app/services/approved_evidence_service.py.
pub mod Types
pub mod Decisions
pub mod Aggregate
pub mod Evidence
pub mod Submit
pub mod Latest
pub mod Status
pub mod Approval
pub mod Samples
mod Tests
