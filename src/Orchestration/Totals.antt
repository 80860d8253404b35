-- ===== src/Orchestration/Totals.antt =====
-- The summary of a run counts what the run found.
use sustentra_platform.Prelude.{
  ℕ, ◌+◌, ◌≡◌, refl, List, [], ◌∷◌, ◌++◌, filter, length, arith, is_some, length-append,
}
use sustentra_platform.Prelude.Outcomes.{ok}
use sustentra_platform.Text.{Text}
use sustentra_platform.Value.{Numbers, Value}
use sustentra_platform.Dict.{Dict}
use sustentra_platform.Counter.{occurrences, sorted_counts, count_status-sorted_counts}
use sustentra_platform.Completeness.{
  completeness_statuses, CompletenessStatus, RowResult, missing_required,
  provisional_condition_unknown, track, statuses_of,
}
use sustentra_platform.VerificationEngine as Engine
use sustentra_platform.VerificationEngine.{
  verification_statuses, VerificationStatus, VerificationResult, RuleResult, verify,
}
use sustentra_platform.Derivation.{DerivedResult}
use sustentra_platform.Methodology.Projection.{ApprovedEvidence, Projection}
use sustentra_platform.GapRecords.{
  GapRecord, Draft, is_high, make_record, make_records, completeness_drafts, derivation_drafts,
  verification_drafts, derivation_severity,
}
use sustentra_platform.Orchestration.{Services, RunResult, assess, summarize, gap_drafts}

length-make_records :
    (uuid5 : Text → Text) (clock : ℕ → Text) (n : ℕ) (ds : List Draft)
    → length (make_records uuid5 clock n ds) ≡ length ds
unfolding make_records
length-make_records uuid5 clock n [] = refl
length-make_records uuid5 clock n (d ∷ ds) =
    omega (arith, length-make_records uuid5 clock (n + 1) ds)

-- The records that block what comes after.
abbrev pub blocking : List GapRecord → ℕ
blocking gaps = length (filter (λ g. g.downstream_blocking) gaps)

abbrev blocking_drafts : List Draft → ℕ
blocking_drafts ds = length (filter (λ d. is_high d.severity) ds)

blocking-make_records :
    (uuid5 : Text → Text) (clock : ℕ → Text) (n : ℕ) (ds : List Draft)
    → blocking (make_records uuid5 clock n ds) ≡ blocking_drafts ds
unfolding make_records make_record
blocking-make_records uuid5 clock n [] = refl
blocking-make_records uuid5 clock n (d ∷ ds) =
    ground (arith, blocking-make_records uuid5 clock (n + 1) ds)

length-completeness_drafts :
    (id : Text) (rows : List RowResult)
    → (length (completeness_drafts id rows)
        ≡ occurrences missing_required (statuses_of rows)
          + occurrences provisional_condition_unknown (statuses_of rows))
      × (blocking_drafts (completeness_drafts id rows)
          ≡ occurrences missing_required (statuses_of rows))
unfolding completeness_drafts
length-completeness_drafts id [] = (refl, refl)
length-completeness_drafts id (row ∷ rows) = ground (arith, length-completeness_drafts id rows)

length-verification_drafts :
    (id : Text) (rows : List RuleResult)
    → (length (verification_drafts id rows)
        ≡ occurrences Engine.failed (Engine.statuses_of rows)
          + occurrences Engine.cannot_verify (Engine.statuses_of rows)
          + occurrences Engine.provisional (Engine.statuses_of rows)
          + occurrences Engine.unsupported (Engine.statuses_of rows))
      × (blocking_drafts (verification_drafts id rows)
          ≡ occurrences Engine.failed (Engine.statuses_of rows))
unfolding verification_drafts
length-verification_drafts id [] = (refl, refl)
length-verification_drafts id (row ∷ rows) = ground (arith, length-verification_drafts id rows)

blocking-append :
    (ds es : List Draft) → blocking_drafts (ds ++ es) ≡ blocking_drafts ds + blocking_drafts es
blocking-append [] es = omega arith
blocking-append (d ∷ ds) es = ground (arith, blocking-append ds es)

module _ {N : Type 0} where
  -- The derivations that gave no value.
  abbrev pub underived : List (DerivedResult N) → ℕ
  underived results = length (filter (λ d. is_some (derivation_severity d.status)) results)

  length-derivation_drafts :
      (id : Text) (rows : List (DerivedResult N))
      → (length (derivation_drafts id rows) ≡ underived rows)
        × (blocking_drafts (derivation_drafts id rows) ≡ 0)
  unfolding derivation_drafts
  length-derivation_drafts id [] = (refl, refl)
  length-derivation_drafts id (row ∷ rows) = ground (arith, length-derivation_drafts id rows)

module _ {N : Type 0} ⦃numbers : Numbers N⦄ where
  assess_ok :
      (services : Services) (evidence : ApprovedEvidence N) (runtime : Dict (Value N))
      (projection : Projection N) (r : RunResult N)
      → assess services evidence runtime projection ≡ ok r
      → (r.gap_records
          ≡ make_records services.uuid5 services.clock 2 (
              gap_drafts projection.engagement_id r.completeness_result r.derivations
                r.verification_result))
        × (r.summary
            ≡ summarize projection r.completeness_result r.verification_result r.gap_records)
        × (r.completeness_result.status_counts
            ≡ sorted_counts (statuses_of r.completeness_result.results))
        × (r.verification_result.status_counts
            ≡ sorted_counts (Engine.statuses_of r.verification_result.results))
  unfolding assess track verify
  assess_ok services evidence runtime projection r h = ground arith

  module _ (services : Services) (evidence : ApprovedEvidence N) (runtime : Dict (Value N))
      (projection : Projection N) (r : RunResult N)
      (returned : assess services evidence runtime projection ≡ ok r) where
    abbrev tracked : CompletenessStatus → ℕ
    tracked s = occurrences s (statuses_of r.completeness_result.results)

    abbrev verified : VerificationStatus → ℕ
    verified s = occurrences s (Engine.statuses_of r.verification_result.results)

    gap_count :
        length r.gap_records
        ≡ (tracked missing_required + tracked provisional_condition_unknown)
          + (underived r.derivations
              + (verified Engine.failed
                  + verified Engine.cannot_verify
                  + verified Engine.provisional
                  + verified Engine.unsupported))
    unfolding gap_drafts
    gap_count = rw ((assess_ok services evidence runtime projection r returned).0) (
        rw length-make_records (
          rw (length-append {0}) (
            rw (length-append {0}) (
              omega (
                arith,
                length-completeness_drafts _ r.completeness_result.results,
                length-derivation_drafts _ r.derivations,
                length-verification_drafts _ r.verification_result.results,
              )))))

    blocking_count : blocking r.gap_records ≡ tracked missing_required + verified Engine.failed
    unfolding gap_drafts
    blocking_count = rw ((assess_ok services evidence runtime projection r returned).0) (
        rw blocking-make_records (
          rw blocking-append (
            rw blocking-append (
              omega (
                arith,
                length-completeness_drafts _ r.completeness_result.results,
                length-derivation_drafts _ r.derivations,
                length-verification_drafts _ r.verification_result.results,
              )))))

    missing_count : r.summary.missing_required_count ≡ tracked missing_required
    unfolding summarize
    missing_count =
        let parts = assess_ok services evidence runtime projection r returned in
        rw (parts.1) (rw (parts.2) (count_status-sorted_counts missing_required _))

    gap_field : r.summary.gap_record_count ≡ length r.gap_records
    unfolding summarize
    gap_field = rw ((assess_ok services evidence runtime projection r returned).1)

    -- The summary of a run that returns: its count of gap records is the number of missing rows, of
    -- rows left for review, of fields that are not derived, and of rules that failed, cannot be
    -- verified, are provisional or unsupported; the gap records that block what comes after are as
    -- many as its missing rows and the rules that failed.
    pub summary_counts :
        (r.summary.gap_record_count
          ≡ (tracked missing_required + tracked provisional_condition_unknown)
            + (underived r.derivations
                + (verified Engine.failed
                    + verified Engine.cannot_verify
                    + verified Engine.provisional
                    + verified Engine.unsupported)))
        × (r.summary.missing_required_count ≡ tracked missing_required)
        × (blocking r.gap_records ≡ r.summary.missing_required_count + verified Engine.failed)
    summary_counts = (rw gap_field gap_count, missing_count, rw missing_count blocking_count)
