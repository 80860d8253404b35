-- ===== src/Orchestration.antt =====
-- The run of the second stage over one approved evidence
-- (backend/app/services/s2_orchestration_service.py). All services share one clock, as
-- `build_default_s2_orchestration_service` builds them: the first call dates the run, the second the
-- projected values, the others the gap records.
pub mod Totals
mod Tests
use sustentra_platform.Prelude.{
  ℕ, ◌+◌, ◌≡◌, refl, Bool, true, false, not, ◌&&◌, Option, none, some, List, [], ◌∷◌, ◌++◌, length,
  is_empty, is_some, arith, if◌then◌else◌,
}
use sustentra_platform.Prelude.Outcomes.{Result, ok, error, ◌>>=◌}
use sustentra_platform.Text.{Text, lit}
use sustentra_platform.Value.{Numbers, Value, null, bool, text, number}
use sustentra_platform.Dict.{text_key, Dict, get}
use sustentra_platform.Counter.{Statuses, count_status}
use sustentra_platform.Methodology.Types.{Rule, MethodologyValue}
use sustentra_platform.Methodology.Registry.{Registry}
use sustentra_platform.Methodology.Mapping.{MappingService}
use sustentra_platform.Methodology.Projection.{ApprovedEvidence, Projection, project, join}
use sustentra_platform.Completeness.{
  completeness_statuses, CompletenessResult, CompletenessError, missing_required, not_applicable,
  provisional_condition_unknown, track,
}
use sustentra_platform.VerificationEngine as Engine
use sustentra_platform.VerificationEngine.{
  verification_statuses, VerificationResult, VerificationError, verify,
}
use sustentra_platform.Derivation.{DerivedResult, derive_all}
use sustentra_platform.GapRecords.{
  GapRecord, Draft, make_records, completeness_drafts, derivation_drafts, verification_drafts,
}

module _ {N : Type 0} where
  abbrev pub is_null : Value N → Bool
  is_null null = true
  is_null (bool b) = false
  is_null (text s) = false
  is_null (number n) = false

  -- The loop of `_condition_values`: the first value of a field that is not `None`.
  unfoldable pub condition_values_from : List (MethodologyValue N) → Dict (Value N) → Dict (Value N)
  condition_values_from [] d = d
  condition_values_from (v ∷ vs) d = condition_values_from vs (
      if not (is_empty v.methodology_field_id)
        && (not (is_some (get v.methodology_field_id d)) && not (is_null v.approved_value))
      then d ++ (v.methodology_field_id, v.approved_value) ∷ []
      else d)

  -- `runtime_condition_values or _condition_values(methodology_values)`
  unfoldable pub choose_condition_values :
      Dict (Value N) → List (MethodologyValue N) → Dict (Value N)
  choose_condition_values [] values = condition_values_from values []
  choose_condition_values (entry ∷ runtime) values = entry ∷ runtime

-- `summary`
pub record Summary : Type 0 where
  pub field_value_count : ℕ
  pub missing_required_count : ℕ
  pub not_applicable_count : ℕ
  pub verification_result_count : ℕ
  pub gap_record_count : ℕ
  pub provisional_count : ℕ

pub record RunResult (N : Type 0) : Type 0 where
  pub methodology_run_id : Text
  pub generated_at : Text
  pub summary : Summary
  pub projection : Projection N
  pub completeness_result : CompletenessResult
  pub derivations : List (DerivedResult N)
  pub verification_result : VerificationResult
  pub gap_records : List GapRecord

pub data RunError : Type 0 where
  tracker_error : CompletenessError → RunError
  engine_error : VerificationError → RunError

abbrev pub from_tracker :
    Result CompletenessError CompletenessResult → Result RunError CompletenessResult
from_tracker (ok r) = ok r
from_tracker (error e) = error (tracker_error e)

abbrev pub from_engine :
    Result VerificationError VerificationResult → Result RunError VerificationResult
from_engine (ok r) = ok r
from_engine (error e) = error (engine_error e)

-- The services and the parameters of the orchestrator.
pub record Services : Type 0 where
  pub uuid5 : Text → Text
  pub clock : ℕ → Text
  pub registry : Registry
  pub mappings : MappingService
  pub rules : List Rule

module _ {N : Type 0} where
  -- `_methodology_run_id`
  unfoldable pub methodology_run_id : (Text → Text) → ApprovedEvidence N → Text
  methodology_run_id uuid5 evidence =
      lit "methodology-run::"
      ++ uuid5 (
          join (
            evidence.engagement_id ∷ evidence.approved_evidence_id ∷ evidence.evidence_id
            ∷ evidence.document_id ∷ []))

  -- The gap records of the three results, in the order of the code.
  unfoldable pub gap_drafts :
      Text → CompletenessResult → List (DerivedResult N) → VerificationResult → List Draft
  gap_drafts engagement_id completeness derivations verification =
      completeness_drafts completeness.engagement_id completeness.results
      ++ (derivation_drafts engagement_id derivations
          ++ verification_drafts engagement_id verification.results)

  unfoldable pub summarize :
      Projection N → CompletenessResult → VerificationResult → List GapRecord → Summary
  summarize projection completeness verification gaps = record {
    field_value_count = length projection.values;
    missing_required_count = count_status missing_required completeness.status_counts;
    not_applicable_count =
        count_status not_applicable completeness.status_counts
        + count_status Engine.not_applicable verification.status_counts;
    verification_result_count = length verification.results;
    gap_record_count = length gaps;
    provisional_count =
        count_status provisional_condition_unknown completeness.status_counts
        + count_status Engine.provisional verification.status_counts;
  }

module _ {N : Type 0} ⦃numbers : Numbers N⦄ where
  -- `run` behind the projection.
  unfoldable pub assess :
      Services → ApprovedEvidence N → Dict (Value N) → Projection N → Result RunError (RunResult N)
  assess services evidence runtime projection = do
    completeness ← from_tracker (
        track services.registry projection.engagement_id projection.values
          (choose_condition_values runtime projection.values) (lit "Core"))
    let derivations = derive_all services.registry projection.values
    verification ← from_engine (verify projection.engagement_id services.rules projection.values)
    let gaps =
        make_records services.uuid5 services.clock 2
          (gap_drafts projection.engagement_id completeness derivations verification)
    ok (record {
      methodology_run_id = methodology_run_id services.uuid5 evidence;
      generated_at = services.clock 0;
      summary = summarize projection completeness verification gaps;
      projection = projection;
      completeness_result = completeness;
      derivations = derivations;
      verification_result = verification;
      gap_records = gaps;
    })

  -- `run`: the result, and the stored values behind it.
  unfoldable pub run :
      Services
      → ApprovedEvidence N
      → Dict (Value N)
      → Bool
      → List (MethodologyValue N)
      → Result RunError (RunResult N) × List (MethodologyValue N)
  run services evidence runtime persist store =
      let (projection, store') =
        project services.uuid5 services.mappings services.registry (services.clock 1) evidence
          persist store in
      (assess services evidence runtime projection, store')
