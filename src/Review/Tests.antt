-- ===== src/Review/Tests.antt =====
-- Runs of the review of a candidate, and the theorems at inputs that meet their hypotheses.
use sustentra_platform.Prelude.{
  Bool, ℕ, ◌≡◌, ◌≤◌, ◌≢◌, ◌↔◌, refl, false, true, false, some, List, [], ◌∷◌, length, all, any, inr,
  inl,
}
use sustentra_platform.Prelude.Outcomes.{Result, ok, error}
use sustentra_platform.Text.{Text, lit, ◌==◌, has_content}
use sustentra_platform.Value.{number}
use sustentra_platform.Review.Types.{accepted, rejected, edited, ReviewDecision}
use sustentra_platform.Review.Decisions.{
  list_by_evidence, value_changed, submit_decision, resolve_value_unit, get_latest_by_field,
  get_latest_by_candidate,
}
use sustentra_platform.Review.Aggregate.{
  ProjectError, Entry, Call, Aggregate, partially_approved, in_review, approved, no_approved_fields,
  is_approved, parse_reviewed_at,
}
use sustentra_platform.Review.Evidence.{
  project_by_evidence, build_aggregate, project_from_review_decisions, read_entries,
}
use sustentra_platform.Review.Submit.{IsSubmission, record_of, submit_iff, submit_stores}
use sustentra_platform.Review.Status.{status_iff}
use sustentra_platform.Review.Approval.{IsProjectable, ProjectsTo, project_iff, projected_fields}
use sustentra_platform.Review.Samples.{
  whole_equality, digit_dates, candidate, submission, decision_at, decisions, call,
}

changed_test :
    submit_decision candidate (record submission { reviewed_value = number 13 }) []
    ≡ error value_changed
unfolding submit_decision ◌==◌ has_content resolve_value_unit
changed_test = refl

goes_with : IsSubmission candidate submission
unfolding ◌==◌ has_content
goes_with = (accepted, refl, refl, (inr refl, inl refl))

submit_iff_example :
    ((r : List (ReviewDecision ℕ Text) × ReviewDecision ℕ Text) × (submit_decision candidate
          submission []
        ≡ ok r))
    ↔ IsSubmission candidate submission
submit_iff_example = submit_iff candidate submission []

submit_stores_example :
    let after = record_of candidate submission goes_with ∷ [] in
    (submit_decision candidate submission [] ≡ ok (after, record_of candidate submission goes_with))
    × (get_latest_by_field (lit "ev") (lit "fuel") after
        ≡ some (record_of candidate submission goes_with))
    × (get_latest_by_candidate (lit "c1") after ≡ some (record_of candidate submission goes_with))
submit_stores_example = submit_stores candidate submission [] goes_with

abbrev entries : List (Entry ℕ Text)
entries =
    record {
      time = 12;
      index = 0;
      decision = decision_at (lit "d1") (lit "fuel") rejected (lit "12");
    }
    ∷ record {
      time = 30;
      index = 1;
      decision = decision_at (lit "d2") (lit "site") rejected (lit "30");
    }
    ∷ record {
      time = 12;
      index = 2;
      decision = decision_at (lit "d3") (lit "fuel") edited (lit "12");
    }
    ∷ []

projectable : IsProjectable call decisions
unfolding read_entries parse_reviewed_at has_content ◌==◌
projectable = (entries, refl, refl, refl, refl, refl)

project_iff_example :
    ((r : List (Aggregate ℕ Text) × Aggregate ℕ Text) × (project_from_review_decisions call
          decisions []
        ≡ ok r))
    ↔ IsProjectable call decisions
project_iff_example = project_iff call [] decisions

projected_fields_example :
    (made : Aggregate ℕ Text) × (project_from_review_decisions call decisions []
      ≡ ok (made ∷ [], made))
    × ProjectsTo call projectable.0 made
projected_fields_example = projected_fields call [] decisions projectable

status_iff_example :
    let made = build_aggregate call (lit "ev") (lit "doc") decisions in
    ((made.review_status ≡ in_review) ↔ (length decisions ≡ 0))
    × ((made.review_status ≡ no_approved_fields)
        ↔ ((length decisions ≢ 0) × (any (λ d. is_approved d.decision) decisions ≡ false)))
    × ((made.review_status ≡ approved)
        ↔ ((length decisions ≢ 0) × (all (λ d. is_approved d.decision) decisions ≡ true)))
    × ((made.review_status ≡ partially_approved) ↔ (
        (any (λ d. is_approved d.decision) decisions ≡ true)
        × (all (λ d. is_approved d.decision) decisions ≡ false)))
    × (made.approved_field_count ≤ made.field_count)
status_iff_example = status_iff call (lit "ev") (lit "doc") decisions

abbrev blank_call : Call
blank_call = record call { engagement_id = [] }

abbrev is_ok : Result ProjectError (List (Aggregate ℕ Text) × Aggregate ℕ Text) → Bool
is_ok (ok r) = true
is_ok (error e) = false

-- A blank engagement is refused where there is a decision, and taken where there is none.
blank_test :
    (is_ok (project_by_evidence blank_call (lit "ev") [] []) ≡ true)
    × (is_ok (project_by_evidence blank_call (lit "ev") decisions []) ≡ false)
unfolding project_by_evidence list_by_evidence project_from_review_decisions has_content ◌==◌
blank_test = (refl, refl)
