-- ===== src/Review/Decisions.antt =====
-- `ReviewDecisionService.submit_decision` (backend/app/services/review_decision_service.py) and the
-- repository in memory of backend/app/repositories/review_repository.py, the list of its records.
use sustentra_platform.Prelude.{
  Bool, not, ◌&&◌, ◌||◌, Option, none, some, List, [], ◌∷◌, ◌++◌, filter, if◌then◌else◌, is_some,
}
use sustentra_platform.Prelude.Outcomes.{Result, ok, error}
use sustentra_platform.Text.{Text, lit, ◌==◌, has_content}
use sustentra_platform.Value.{Value, null}
use sustentra_platform.Review.Types.{
  Equality, DecisionType, accepted, rejected, edited, needs_more_evidence, Candidate,
  ReviewDecision, is_null, same_value, same_unit,
}

-- The ValueErrors of `submit_decision`.
pub data SubmitError : Type 0 where
  invalid_decision reviewer_required value_changed unit_changed : SubmitError
  value_required value_not_allowed : SubmitError

-- `VALID_DECISIONS`
abbrev pub read_decision : Text → Option DecisionType
read_decision s =
    if s == lit "accepted"
    then some accepted
    else if s == lit "rejected"
    then some rejected
    else if s == lit "edited"
    then some edited
    else if s == lit "needs_more_evidence"
    then some needs_more_evidence
    else none

-- What a reviewer sends, with the clock and the id of the record.
pub record Submission (N : Type 0) : Type 0 where
  pub decision : Text
  pub reviewer_id : Text
  pub reviewed_value : Value N
  pub reviewed_unit : Option Text
  pub reviewer_note : Option Text
  pub new_id : Text
  pub now : Text

abbrev pub no_value :
    {N : Type 0} → Value N → Option Text → Result SubmitError (Value N × Option Text)
no_value value unit =
    if not (is_null value) || is_some unit then error value_not_allowed else ok (null, none)

module _ {N R : Type 0} ⦃equality : Equality N⦄ where
  -- `_resolve_value_unit`
  unfoldable pub resolve_value_unit :
      DecisionType
      → Candidate N R
      → Value N
      → Option Text
      → Result SubmitError (Value N × Option Text)
  resolve_value_unit accepted candidate value unit =
      if not (is_null value) && not (same_value value candidate.normalized_value)
      then error value_changed
      else if is_some unit && not (same_unit unit candidate.unit)
      then error unit_changed
      else ok (candidate.normalized_value, candidate.unit)
  resolve_value_unit edited candidate value unit =
      if is_null value then error value_required else ok (value, unit)
  resolve_value_unit rejected candidate value unit = no_value value unit
  resolve_value_unit needs_more_evidence candidate value unit = no_value value unit

  -- The record of `submit_decision`.
  abbrev pub make_decision :
      Candidate N R → DecisionType → Submission N → Value N × Option Text → ReviewDecision N R
  make_decision candidate decision submission resolved = record {
    review_decision_id = submission.new_id;
    candidate_id = candidate.candidate_id;
    evidence_id = candidate.evidence_id;
    document_id = candidate.document_id;
    field_name = candidate.field_name;
    decision = decision;
    reviewed_value = resolved.0;
    reviewed_unit = resolved.1;
    reviewer_id = submission.reviewer_id;
    reviewed_at = submission.now;
    reviewer_note = submission.reviewer_note;
    candidate_snapshot = candidate;
    source_reference = candidate.source_reference;
  }

  -- `save`
  abbrev pub save : ReviewDecision N R → List (ReviewDecision N R) → List (ReviewDecision N R)
  save decision records = records ++ decision ∷ []

  abbrev pub submit_as :
      Option DecisionType
      → Candidate N R
      → Submission N
      → List (ReviewDecision N R)
      → Result SubmitError (List (ReviewDecision N R) × ReviewDecision N R)
  submit_as none candidate submission records = error invalid_decision
  submit_as (some decision) candidate submission records =
      if not (has_content submission.reviewer_id)
      then error reviewer_required
      else elim (resolve_value_unit decision candidate submission.reviewed_value
          submission.reviewed_unit) [
            | error e ↦ error e
            | ok resolved ↦
                let made = make_decision candidate decision submission resolved in
                ok (save made records, made)
          ]

  -- `submit_decision`
  unfoldable pub submit_decision :
      Candidate N R
      → Submission N
      → List (ReviewDecision N R)
      → Result SubmitError (List (ReviewDecision N R) × ReviewDecision N R)
  submit_decision candidate submission records =
      submit_as (read_decision submission.decision) candidate submission records

module _ {A : Type 0} where
  -- `matches[-1] if matches else None`
  unfoldable pub last_match : (A → Bool) → List A → Option A
  last_match p [] = none
  last_match p (x ∷ xs) =
      let rest = last_match p xs in
      elim rest [ some y ↦ some y | none ↦ if p x then some x else none ]

module _ {N R : Type 0} where
  -- `list_by_evidence`
  unfoldable pub list_by_evidence : Text → List (ReviewDecision N R) → List (ReviewDecision N R)
  list_by_evidence evidence_id records = filter (λ r. r.evidence_id == evidence_id) records

  -- `get_latest_by_candidate`
  unfoldable pub get_latest_by_candidate :
      Text → List (ReviewDecision N R) → Option (ReviewDecision N R)
  get_latest_by_candidate candidate_id records =
      last_match (λ r. r.candidate_id == candidate_id) records

  -- `get_latest_by_field`
  unfoldable pub get_latest_by_field :
      Text → Text → List (ReviewDecision N R) → Option (ReviewDecision N R)
  get_latest_by_field evidence_id field_name records =
      last_match (λ r. r.evidence_id == evidence_id && r.field_name == field_name) records
