-- ===== src/Pipeline/Stages.antt =====
-- What `process_local_document` of backend/app/services/pipeline_orchestration_service.py is given, its
-- local variables, and what it makes of the answers of the stages.
use sustentra_platform.Prelude.{
  ℕ, Bool, true, not, ◌||◌, Option, none, some, List, [], nat_eq, if◌then◌else◌,
}
use sustentra_platform.Prelude.Outcomes.{Result, ok}
use sustentra_platform.Text.{Text, lit, is_truthy}
use sustentra_platform.Value.{Numbers, Value, null, bool, text, number, has_populated_value}
use sustentra_platform.Pipeline.Targets.{
  ExtractionConfig, Target, Classification, has_status, get_targets_for_canonical_type,
  get_targets_for_classification_result,
}
use sustentra_platform.Pipeline.Runs.{StageStatus, StageStatuses, CanonicalTypeSource}

-- Of an extraction candidate, what the counts read.
pub record Candidate (N : Type 0) : Type 0 where
  pub normalized_value : Value N
  pub raw_value : Value N
  pub confidence : Value N

-- The answer of the extraction service; no count is `none`, and a count that is there is a number, so the
-- `int(…)` that is taken of it does not raise.
pub record Extraction (N : Type 0) : Type 0 where
  pub candidate_count : Option ℕ
  pub items : List (Candidate N)

-- The services that the constructor is given, over the outputs of the parser; a raised exception is its
-- text.
pub record Services (N P : Type 0) : Type 0 where
  -- `parse_document`, of a path, a document and a processing run
  pub parse : Text → Text → Text → Result Text P
  -- `parser_output.get("status")`
  pub parser_status : P → Option Text
  -- `classify`, of a document, an engagement, a processing run, a file name and the parser's output
  pub classify : Text → Text → Text → Text → P → Result Text Classification
  pub targets_for_type : Text → Bool → Bool → Result Text (List Target)
  pub targets_for_classification : Classification → Bool → Bool → Result Text (List Target)
  -- `extract`, of the parser's output, the targets and the evidence
  pub extract : P → List Target → Text → Result Text (Extraction N)
  -- `path.exists() and path.is_file()`, and `path.name`
  pub is_file : Text → Bool
  pub base_name : Text → Text
  -- `self._id_factory(prefix, seed)`
  pub new_id : Text → Text → Text
  -- The two readings of the clock.
  pub created_at : Text
  pub completed_at : Text

-- The two operations of `ExtractionTargetService` in the place of a target service.
abbrev pub plan_with : {N P : Type 0} → List ExtractionConfig → Services N P → Services N P
plan_with configs s = record s {
  targets_for_type = λ id include_optional include_deprecated.
      ok (get_targets_for_canonical_type configs id include_optional include_deprecated);
  targets_for_classification = λ c include_optional include_deprecated.
      ok (get_targets_for_classification_result configs c include_optional include_deprecated);
}

-- The arguments of `process_local_document`.
pub record Document : Type 0 where
  pub local_file_path : Text
  pub engagement_id : Text
  pub evidence_id : Option Text
  pub document_id : Option Text
  pub processing_run_id : Option Text
  pub file_name : Option Text
  pub canonical_type_id_override : Option Text
  pub include_optional : Bool
  pub include_deprecated : Bool
  pub persist_run : Bool

-- The local variables that the stages set.
pub record Progress (N P : Type 0) : Type 0 where
  pub parser_output : Option P
  pub classification_result : Option Classification
  pub extraction_targets : List Target
  pub extraction_result : Extraction N
  pub parser_status : Option Text
  pub classification_status : Option Text
  pub canonical_type_id : Option Text
  pub canonical_type_source : CanonicalTypeSource
  pub stages : StageStatuses
  pub warnings : List Text
  pub errors : List Text

abbrev pub initial_progress : {N P : Type 0} → Progress N P
initial_progress = record {
  parser_output = none;
  classification_result = none;
  extraction_targets = [];
  extraction_result = record { candidate_count = some 0; items = [] };
  parser_status = none;
  classification_status = none;
  canonical_type_id = none;
  canonical_type_source = CanonicalTypeSource.from_none;
  stages = record {
    parse = StageStatus.not_started;
    classify = StageStatus.not_started;
    target_plan = StageStatus.not_started;
    candidate_generation = StageStatus.not_started;
  };
  warnings = [];
  errors = [];
}

-- `str(status or "") or None`
abbrev pub read_text : Option Text → Option Text
read_text o = if is_truthy o then o else none

-- `_parser_stage_status`
unfoldable pub parser_stage_status : Option Text → StageStatus
parser_stage_status s =
    if has_status s (lit "parsed")
    then StageStatus.completed
    else if has_status s (lit "partial") || has_status s (lit "empty")
    then StageStatus.partial
    else if has_status s (lit "failed")
    then StageStatus.failed
    else StageStatus.partial

-- `_classification_stage_status`
unfoldable pub classification_stage_status : Option Text → StageStatus
classification_stage_status s =
    if has_status s (lit "classified")
      || (has_status s (lit "multi_type_candidate") || has_status s (lit "low_confidence"))
    then StageStatus.completed
    else StageStatus.partial

-- The except clause: the first stage that is not started has failed.
unfoldable pub mark_failed : StageStatuses → StageStatuses
mark_failed s = elim s.parse [
  | StageStatus.not_started ↦ record s { parse = StageStatus.failed }
  | _ ↦ elim s.classify [
    | StageStatus.not_started ↦ record s { classify = StageStatus.failed }
    | _ ↦ elim s.target_plan [
      | StageStatus.not_started ↦ record s { target_plan = StageStatus.failed }
      | _ ↦ elim s.candidate_generation [
        | StageStatus.not_started ↦ record s { candidate_generation = StageStatus.failed }
        | _ ↦ s
      ]
    ]
  ]
]

-- `value < LOW_CONFIDENCE_THRESHOLD` of a float
pub record Threshold (N : Type 0) : Type 0 where
  pub is_low : N → Bool

-- `int(extraction_result.get("candidate_count") or len(items))`
abbrev pub count_or : Option ℕ → ℕ → ℕ
count_or none n = n
count_or (some k) n = if nat_eq k 0 then n else k

module _ {N : Type 0} where
  abbrev pub value_or : Value N → Value N → Value N
  value_or null raw = raw
  value_or (bool b) raw = bool b
  value_or (text s) raw = text s
  value_or (number n) raw = number n

  -- `_candidate_has_value`
  unfoldable pub candidate_has_value : Candidate N → Bool
  candidate_has_value c = has_populated_value (value_or c.normalized_value c.raw_value)

  -- `float(confidence)` and the test; what `float` refuses counts as low.
  abbrev pub is_low_value : ⦃numbers : Numbers N⦄ ⦃threshold : Threshold N⦄ → Value N → Bool
  is_low_value null = true
  is_low_value (bool b) = not b
  is_low_value ⦃threshold = threshold⦄ (number n) = threshold.is_low n
  is_low_value ⦃numbers⦄ ⦃threshold⦄ (text s) = elim (numbers.parse_float s) [
    | none ↦ true
    | some x ↦ threshold.is_low x
  ]

  -- `_candidate_is_low_confidence`
  unfoldable pub candidate_is_low_confidence :
      ⦃numbers : Numbers N⦄ ⦃threshold : Threshold N⦄ → Candidate N → Bool
  candidate_is_low_confidence c = is_low_value c.confidence
