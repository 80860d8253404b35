-- ===== src/Orchestration/Tests.antt =====
-- A run with one required row, one derived row and one rule, and no approved field.
use sustentra_platform.Prelude.{ℕ, ◌+◌, ◌≡◌, refl, false, none, some, List, [], ◌∷◌, map}
use sustentra_platform.Prelude.Outcomes.{ok}
use sustentra_platform.Text.{lit, has_content}
use sustentra_platform.Dict.{text_key}
use sustentra_platform.Samples.{whole, row}
use sustentra_platform.Counter.{occurrences, sorted_counts}
use sustentra_platform.Methodology.Types.{SchemaRow, Rule}
use sustentra_platform.Methodology.Registry.{make_registry, list_required_rows}
use sustentra_platform.Methodology.Projection.{ApprovedEvidence, Projection}
use sustentra_platform.Completeness.{
  completeness_statuses, CompletenessResult, missing_required, provisional_condition_unknown,
  statuses_of, evaluate_rows, track,
}
use sustentra_platform.VerificationEngine as Engine
use sustentra_platform.VerificationEngine.{
  verification_statuses, VerificationResult, evaluate_rule, verify,
}
use sustentra_platform.Derivation.{derive_all}
use sustentra_platform.GapRecords.{GapRecord, make_records}
use sustentra_platform.Orchestration.{
  Services, RunResult, assess, summarize, gap_drafts, methodology_run_id, choose_condition_values,
  condition_values_from,
}
use sustentra_platform.Orchestration.Totals.{blocking, underived, summary_counts}

abbrev total_row : SchemaRow
total_row = record row { field_id = lit "S1-STC-020"; derived_from = lit "S1-STC-010" ∷ [] }

abbrev rule : Rule
rule = record {
  rule_id = lit "V-001";
  rule_type = some (lit "gate");
  assertion = none;
  is_provisional = false;
  resolvable_applies_to = lit "S1-STC-010" ∷ [];
  unresolved_applies_to = [];
}

abbrev services : Services
services = record {
  uuid5 = λ s. s;
  clock = λ n. (n + 48) ∷ [];
  registry = make_registry (row ∷ total_row ∷ []);
  mappings = record {
    mappings = [];
    by_canonical_type = [];
    by_approved_field = [];
    by_methodology_field = [];
  };
  rules = rule ∷ [];
}

abbrev evidence : ApprovedEvidence ℕ
evidence = record {
  approved_evidence_id = lit "ae";
  engagement_id = lit "e";
  evidence_id = lit "ev";
  document_id = lit "d";
  evidence_type = lit "fuel_bill";
  fields = [];
}

abbrev projection : Projection ℕ
projection = record {
  approved_evidence_id = lit "ae";
  engagement_id = lit "e";
  evidence_id = lit "ev";
  document_id = lit "d";
  value_count = 0;
  unmapped_fields = [];
  values = [];
}

abbrev completeness : CompletenessResult
completeness =
    let results = evaluate_rows {N = ℕ} (list_required_rows services.registry (lit "Core")) [] [] in
    record {
      engagement_id = lit "e";
      status_counts = sorted_counts (statuses_of results);
      results = results;
    }

abbrev verification : VerificationResult
verification =
    let results = map (λ r. evaluate_rule {N = ℕ} r []) services.rules in
    record {
      engagement_id = lit "e";
      status_counts = sorted_counts (Engine.statuses_of results);
      results = results;
    }

abbrev gaps : List GapRecord
gaps =
    make_records services.uuid5 services.clock 2
      (gap_drafts {N = ℕ} (lit "e") completeness (derive_all services.registry []) verification)

abbrev result : RunResult ℕ
result = record {
  methodology_run_id = methodology_run_id services.uuid5 evidence;
  generated_at = services.clock 0;
  summary = summarize projection completeness verification gaps;
  projection = projection;
  completeness_result = completeness;
  derivations = derive_all services.registry [];
  verification_result = verification;
  gap_records = gaps;
}

returns : assess services evidence [] projection ≡ ok result
unfolding assess track verify has_content choose_condition_values condition_values_from
returns = refl

summary_counts_example :
    (result.summary.gap_record_count
      ≡ (occurrences missing_required (statuses_of completeness.results)
          + occurrences provisional_condition_unknown (statuses_of completeness.results))
        + (underived result.derivations
            + (occurrences Engine.failed (Engine.statuses_of verification.results)
                + occurrences Engine.cannot_verify (Engine.statuses_of verification.results)
                + occurrences Engine.provisional (Engine.statuses_of verification.results)
                + occurrences Engine.unsupported (Engine.statuses_of verification.results))))
    × (result.summary.missing_required_count
        ≡ occurrences missing_required (statuses_of completeness.results))
    × (blocking result.gap_records
        ≡ result.summary.missing_required_count
          + occurrences Engine.failed (Engine.statuses_of verification.results))
summary_counts_example = summary_counts services evidence [] projection result returns
