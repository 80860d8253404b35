-- ===== src/GapRecords.antt =====
-- Gap records (backend/app/services/s2_gap_record_service.py). The clock is the sequence of the texts
-- that its calls return, and every record takes the next one.
use sustentra_platform.Prelude.{ℕ, ◌+◌, Bool, true, false, Option, none, some, List, [], ◌∷◌, ◌++◌}
use sustentra_platform.Text.{Text, lit, or_empty}
use sustentra_platform.Completeness.{
  CompletenessStatus, complete, missing_required, not_applicable, provisional_condition_unknown,
  not_requestable_value_origin, RowResult,
}
use sustentra_platform.VerificationEngine as Engine
use sustentra_platform.VerificationEngine.{VerificationStatus, RuleResult, VerificationResult}
use sustentra_platform.Derivation.{
  DerivationStatus, derived, missing_dependency, cross_layer_unsupported, unsupported_derivation,
  DerivedResult,
}
use sustentra_platform.Recompute.{
  RecomputeStatus, matched, mismatch, missing_input, unsupported, RecomputeResult,
}
use sustentra_platform.Methodology.Projection.{join}

-- `gap_type`, with the status that is also the root cause.
pub data GapType : Type 0 where
  completeness : CompletenessStatus → GapType
  verification : VerificationStatus → GapType
  derivation : DerivationStatus → GapType
  recompute : RecomputeStatus → GapType

unfoldable pub completeness_name : CompletenessStatus → Text
completeness_name complete = lit "complete"
completeness_name missing_required = lit "missing_required"
completeness_name not_applicable = lit "not_applicable"
completeness_name provisional_condition_unknown = lit "provisional_condition_unknown"
completeness_name not_requestable_value_origin = lit "not_requestable_value_origin"

unfoldable pub verification_name : VerificationStatus → Text
verification_name Engine.passed = lit "passed"
verification_name Engine.failed = lit "failed"
verification_name Engine.not_applicable = lit "not_applicable"
verification_name Engine.provisional = lit "provisional"
verification_name Engine.unsupported = lit "unsupported"
verification_name Engine.cannot_verify = lit "cannot_verify"

unfoldable pub derivation_name : DerivationStatus → Text
derivation_name derived = lit "derived"
derivation_name missing_dependency = lit "missing_dependency"
derivation_name cross_layer_unsupported = lit "cross_layer_unsupported"
derivation_name unsupported_derivation = lit "unsupported_derivation"

unfoldable pub recompute_name : RecomputeStatus → Text
recompute_name matched = lit "matched"
recompute_name mismatch = lit "mismatch"
recompute_name missing_input = lit "missing_input"
recompute_name unsupported = lit "unsupported"

abbrev pub substage : GapType → Text
substage (completeness s) = lit "completeness"
substage (verification s) = lit "verification"
substage (derivation s) = lit "derivation"
substage (recompute s) = lit "recompute"

unfoldable pub gap_type_text : GapType → Text
gap_type_text (completeness s) = completeness_name s
gap_type_text (verification s) = lit "verification_" ++ verification_name s
gap_type_text (derivation s) = lit "derivation_" ++ derivation_name s
gap_type_text (recompute s) = lit "recompute_" ++ recompute_name s

pub data Severity : Type 0 where
  high medium : Severity

-- What a caller of `_record` passes.
pub record Draft : Type 0 where
  pub engagement_id : Text
  pub field_id : Text
  pub gap_type : GapType
  pub assertion : Option Text
  pub severity : Severity
  pub rule_id : Option Text

-- The record; `stage`, `status`, `issue_type`, `root_cause_code` and `summary` are constants or follow
-- from these fields.
pub record GapRecord : Type 0 where
  pub gap_record_id : Text
  pub draft : Draft
  pub open draft use *
  pub downstream_blocking : Bool
  pub created_at : Text

-- `severity == "high"`
abbrev pub is_high : Severity → Bool
is_high high = true
is_high medium = false

-- `_record`, for the `uuid5` of the URL name space and the time of the call.
unfoldable pub make_record : (Text → Text) → Text → Draft → GapRecord
make_record uuid5 created_at d = record {
  gap_record_id =
      lit "s2-gap::"
      ++ uuid5 (
          join (
            d.engagement_id
            ∷ d.field_id
            ∷ substage d.gap_type
            ∷ gap_type_text d.gap_type
            ∷ or_empty d.rule_id
            ∷ created_at
            ∷ []));
  draft = d;
  downstream_blocking = is_high d.severity;
  created_at = created_at;
}

-- The records of a list of drafts; `n` calls of the clock came before.
unfoldable pub make_records : (Text → Text) → (ℕ → Text) → ℕ → List Draft → List GapRecord
make_records uuid5 clock n [] = []
make_records uuid5 clock n (d ∷ ds) =
    make_record uuid5 (clock n) d ∷ make_records uuid5 clock (n + 1) ds

-- `status not in {"missing_required", "provisional_condition_unknown"}` is skipped.
abbrev pub completeness_severity : CompletenessStatus → Option Severity
completeness_severity missing_required = some high
completeness_severity provisional_condition_unknown = some medium
completeness_severity complete = none
completeness_severity not_applicable = none
completeness_severity not_requestable_value_origin = none

abbrev pub verification_severity : VerificationStatus → Option Severity
verification_severity Engine.failed = some high
verification_severity Engine.cannot_verify = some medium
verification_severity Engine.provisional = some medium
verification_severity Engine.unsupported = some medium
verification_severity Engine.passed = none
verification_severity Engine.not_applicable = none

abbrev pub derivation_severity : DerivationStatus → Option Severity
derivation_severity derived = none
derivation_severity missing_dependency = some medium
derivation_severity cross_layer_unsupported = some medium
derivation_severity unsupported_derivation = some medium

abbrev pub recompute_severity : RecomputeStatus → Option Severity
recompute_severity matched = none
recompute_severity mismatch = some high
recompute_severity missing_input = some medium
recompute_severity unsupported = some medium

-- `(row.get("applies_to") or ["verification"])[0]`
abbrev pub first_field : List Text → Text
first_field [] = lit "verification"
first_field (k ∷ ks) = k

abbrev add_draft : Option Severity → (Severity → Draft) → List Draft → List Draft
add_draft none make rest = rest
add_draft (some severity) make rest = make severity ∷ rest

-- The drafts of `from_completeness_result`.
unfoldable pub completeness_drafts : Text → List RowResult → List Draft
completeness_drafts engagement_id [] = []
completeness_drafts engagement_id (row ∷ rows) =
    add_draft (completeness_severity row.status)
      (λ severity. record {
        engagement_id = engagement_id;
        field_id = row.field_id;
        gap_type = completeness row.status;
        assertion = some (lit "completeness");
        severity = severity;
        rule_id = none;
      })
      (completeness_drafts engagement_id rows)

-- The drafts of `from_verification_result`.
unfoldable pub verification_drafts : Text → List RuleResult → List Draft
verification_drafts engagement_id [] = []
verification_drafts engagement_id (row ∷ rows) =
    add_draft (verification_severity row.status)
      (λ severity. record {
        engagement_id = engagement_id;
        field_id = first_field row.applies_to;
        gap_type = verification row.status;
        assertion = row.assertion;
        severity = severity;
        rule_id = some row.rule_id;
      })
      (verification_drafts engagement_id rows)

module _ {N : Type 0} where
  -- The drafts of `from_derivation_results`.
  unfoldable pub derivation_drafts : Text → List (DerivedResult N) → List Draft
  derivation_drafts engagement_id [] = []
  derivation_drafts engagement_id (row ∷ rows) =
      add_draft (derivation_severity row.status)
        (λ severity. record {
          engagement_id = engagement_id;
          field_id = row.field_id;
          gap_type = derivation row.status;
          assertion = some (lit "derivation");
          severity = severity;
          rule_id = none;
        })
        (derivation_drafts engagement_id rows)

  -- The drafts of `from_recompute_result`.
  unfoldable pub recompute_drafts : Text → Text → RecomputeResult N → List Draft
  recompute_drafts engagement_id field_id result =
      add_draft (recompute_severity result.status)
        (λ severity. record {
          engagement_id = engagement_id;
          field_id = field_id;
          gap_type = recompute result.status;
          assertion = some (lit "recompute");
          severity = severity;
          rule_id = none;
        })
        []
