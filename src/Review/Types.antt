-- ===== src/Review/Types.antt =====
-- backend/app/domain/review.py and the candidates of backend/app/domain/extraction.py, which the
-- services take as dictionaries. That the required keys are there and have the types of the domain
-- models is in the types here; a key that a snapshot lacks is null.
use sustentra_platform.Prelude.{Bool, true, false, Option, none, some, List}
use sustentra_platform.Text.{Text, ◌==◌}
use sustentra_platform.Value.{Value, null, bool, text, number}

-- Python's `==` on numbers, and a Boolean as the number that it is.
pub record Equality (N : Type 0) : Type 0 where
  pub same : N → N → Bool
  pub of_bool : Bool → N

-- `ReviewDecisionType`
pub data DecisionType : Type 0 where
  accepted rejected edited needs_more_evidence : DecisionType

-- `ExtractionCandidate`, for a source reference of any type; `none` for validation flags that are no
-- list.
pub record Candidate (N R : Type 0) : Type 0 where
  pub candidate_id : Text
  pub evidence_id : Text
  pub document_id : Text
  pub field_name : Text
  pub display_label : Option Text
  pub raw_value : Value N
  pub normalized_value : Value N
  pub unit : Option Text
  pub confidence : Option N
  pub source_reference : R
  pub validation_flags : Option (List Text)

-- `ReviewDecision`
pub record ReviewDecision (N R : Type 0) : Type 0 where
  pub review_decision_id : Text
  pub candidate_id : Text
  pub evidence_id : Text
  pub document_id : Text
  pub field_name : Text
  pub decision : DecisionType
  pub reviewed_value : Value N
  pub reviewed_unit : Option Text
  pub reviewer_id : Text
  pub reviewed_at : Text
  pub reviewer_note : Option Text
  pub candidate_snapshot : Candidate N R
  pub source_reference : R

abbrev pub is_null : {N : Type 0} → Value N → Bool
is_null null = true
is_null _ = false

abbrev pub same_bool : Bool → Bool → Bool
same_bool true true = true
same_bool false false = true
same_bool _ _ = false

-- `a == b` on scalar values
abbrev pub same_value : {N : Type 0} ⦃equality : Equality N⦄ → Value N → Value N → Bool
same_value ⦃equality = equality⦄ null null = true
same_value ⦃equality = equality⦄ (bool a) (bool b) = same_bool a b
same_value ⦃equality = equality⦄ (bool a) (number n) = equality.same (equality.of_bool a) n
same_value ⦃equality = equality⦄ (number m) (bool b) = equality.same m (equality.of_bool b)
same_value ⦃equality = equality⦄ (number m) (number n) = equality.same m n
same_value ⦃equality = equality⦄ (text s) (text t) = s == t
same_value ⦃equality = equality⦄ _ _ = false

-- `a == b` on units
abbrev pub same_unit : Option Text → Option Text → Bool
same_unit none none = true
same_unit (some s) (some t) = s == t
same_unit _ _ = false
