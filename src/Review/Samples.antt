-- ===== src/Review/Samples.antt =====
-- A candidate, decisions on it, and a reading of times, to run the review on.
use sustentra_platform.Prelude.{ℕ, Option, none, some, List, [], ◌∷◌, ◌++◌, nat_eq, if◌then◌else◌}
use sustentra_platform.Text.{Text, lit}
use sustentra_platform.Value.{number}
use sustentra_platform.Samples.{parse_digits}
use sustentra_platform.Review.Types.{
  Equality, DecisionType, rejected, edited, Candidate, ReviewDecision,
}
use sustentra_platform.Review.Decisions.{Submission}
use sustentra_platform.Review.Aggregate.{DateTime, aware, Dates, Call}

instance abbrev pub whole_equality : Equality ℕ
whole_equality = record { same = nat_eq; of_bool = λ b. if b then 1 else 0 }

abbrev pub read_digits : Text → Option DateTime
read_digits s = elim (parse_digits s) [ none ↦ none | some n ↦ some (aware n) ]

instance abbrev pub digit_dates : Dates
digit_dates = record { from_iso_format = read_digits }

abbrev pub candidate : Candidate ℕ Text
candidate = record {
  candidate_id = lit "c1";
  evidence_id = lit "ev";
  document_id = lit "doc";
  field_name = lit "fuel";
  display_label = some (lit "Fuel");
  raw_value = number 12;
  normalized_value = number 12;
  unit = some (lit "kWh");
  confidence = none;
  source_reference = lit "A1";
  validation_flags = some [];
}

abbrev pub submission : Submission ℕ
submission = record {
  decision = lit "accepted";
  reviewer_id = lit "r";
  reviewed_value = number 12;
  reviewed_unit = none;
  reviewer_note = none;
  new_id = lit "d1";
  now = lit "12";
}

abbrev pub decision_at : Text → Text → DecisionType → Text → ReviewDecision ℕ Text
decision_at id name decision time = record {
  review_decision_id = id;
  candidate_id = lit "c1";
  evidence_id = lit "ev";
  document_id = lit "doc";
  field_name = name;
  decision = decision;
  reviewed_value = number 12;
  reviewed_unit = none;
  reviewer_id = lit "r";
  reviewed_at = time;
  reviewer_note = none;
  candidate_snapshot = candidate;
  source_reference = lit "A1";
}

-- The third decision is on the field of the first at the same time, so it is the latest.
abbrev pub decisions : List (ReviewDecision ℕ Text)
decisions =
    decision_at (lit "d1") (lit "fuel") rejected (lit "12")
    ∷ decision_at (lit "d2") (lit "site") rejected (lit "30")
    ∷ decision_at (lit "d3") (lit "fuel") edited (lit "12")
    ∷ []

abbrev pub call : Call
call = record {
  engagement_id = lit "e";
  evidence_type = lit "bill";
  now = lit "40";
  new_id = λ engagement evidence. engagement ++ evidence;
}
