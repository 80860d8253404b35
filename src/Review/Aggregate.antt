-- ===== src/Review/Aggregate.antt =====
-- The records of backend/app/domain/evidence.py, with what `ApprovedEvidenceService`
-- (backend/app/services/approved_evidence_service.py) reads of a decision.
use sustentra_platform.Prelude.{
  ℕ, Bool, true, false, Option, none, some, List, [], ◌∷◌, if◌then◌else◌, nat_eq,
}
use sustentra_platform.Text.{Text, lit, strip, has_content}
use sustentra_platform.Value.{Value}
use sustentra_platform.Dict.{text_key}
use sustentra_platform.Review.Types.{
  DecisionType, accepted, rejected, edited, needs_more_evidence, ReviewDecision,
}

-- What `datetime.fromisoformat` reads: a time of no zone, or an instant, in microseconds.
pub data DateTime : Type 0 where
  naive aware : ℕ → DateTime

pub record Dates : Type 0 where
  pub from_iso_format : Text → Option DateTime

-- `parsed.replace(tzinfo=timezone.utc)` where there is no zone
abbrev pub instant : Option DateTime → Option ℕ
instant none = none
instant (some (naive t)) = some t
instant (some (aware t)) = some t

-- `if text.endswith("Z"): text = text[:-1] + "+00:00"`
abbrev pub expand_zone : Text → Text
expand_zone [] = []
expand_zone (c ∷ []) = if nat_eq c b'Z' then lit "+00:00" else c ∷ []
expand_zone (c ∷ d ∷ s) = c ∷ expand_zone (d ∷ s)

-- `_parse_reviewed_at`
unfoldable pub parse_reviewed_at : ⦃dates : Dates⦄ → Text → Option ℕ
parse_reviewed_at ⦃dates⦄ value =
    if has_content value then instant (dates.from_iso_format (expand_zone (strip value))) else none

-- `decision["decision"] in APPROVED_DECISIONS`
abbrev pub is_approved : DecisionType → Bool
is_approved accepted = true
is_approved edited = true
is_approved rejected = false
is_approved needs_more_evidence = false

-- `ApprovedEvidenceField`
pub record EvidenceField (N R : Type 0) : Type 0 where
  pub field_name : Text
  pub display_label : Text
  pub extracted_value : Value N
  pub approved_value : Value N
  pub approved_unit : Option Text
  pub decision : DecisionType
  pub source_reference : R
  pub review_decision_id : Text
  pub candidate_id : Text
  pub reviewer_id : Text
  pub reviewed_at : Text
  pub confidence : Option N
  pub validation_flags : List Text

-- `ApprovedEvidenceReviewStatus`
pub data ReviewStatus : Type 0 where
  in_review partially_approved approved no_approved_fields : ReviewStatus

-- `ApprovedEvidence`
pub record Aggregate (N R : Type 0) : Type 0 where
  pub approved_evidence_id : Text
  pub evidence_id : Text
  pub engagement_id : Text
  pub document_id : Text
  pub evidence_type : Text
  pub review_status : ReviewStatus
  pub field_count : ℕ
  pub approved_field_count : ℕ
  pub fields : List (EvidenceField N R)
  pub created_at : Text
  pub source_review_decision_ids : List Text

-- The ValueErrors of the service.
pub data ProjectError : Type 0 where
  engagement_required evidence_type_required invalid_timestamp : ProjectError
  mixed_evidence mixed_documents : ProjectError

-- A decision with its instant and its place in the list.
pub record Entry (N R : Type 0) : Type 0 where
  pub time : ℕ
  pub index : ℕ
  pub decision : ReviewDecision N R

-- The engagement and the type of the evidence, with what the clock and the id factory give.
pub record Call : Type 0 where
  pub engagement_id : Text
  pub evidence_type : Text
  pub now : Text
  pub new_id : Text → Text → Text
