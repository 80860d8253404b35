-- ===== src/Review/Submit.antt =====
-- When `submit_decision` stores a decision, and which one is found afterwards.
use sustentra_platform.Prelude.{
  ◌≡◌, ◌↔◌, ◌⊎◌, inl, inr, refl, sym, ◌∙◌, Bool, true, false, ◌&&◌, not, is_some, Option, none,
  some, List, [], ◌∷◌, ◌++◌, arith, Bool-cases, Option-cases,
}
use sustentra_platform.Prelude.Outcomes.{Result, ok, error}
use sustentra_platform.Text.{Text, eq_refl, has_content}
use sustentra_platform.Value.{Value, null}
use sustentra_platform.Review.Types.{
  Equality, DecisionType, accepted, rejected, edited, needs_more_evidence, Candidate,
  ReviewDecision, is_null, same_value, same_unit,
}
use sustentra_platform.Review.Decisions.{
  SubmitError, invalid_decision, reviewer_required, value_changed, unit_changed, value_required,
  value_not_allowed, no_value, Submission, read_decision, resolve_value_unit, submit_decision,
  last_match, get_latest_by_candidate, get_latest_by_field,
}

ok-error : {E A : Type 0} {a : A} {e : E} → ¬ (ok a ≡ error e)
ok-error p = cc

module _ {A : Type 0} where
  last_match-append :
      (p : A → Bool) (xs : List A) (x : A) → p x ≡ true → last_match p (xs ++ x ∷ []) ≡ some x
  unfolding last_match
  last_match-append p [] x h = ground arith
  last_match-append p (y ∷ xs) x h = rw (last_match-append p xs x h)

-- A guard that refuses when two tests fail.
either_lem :
    (a b : Bool)
    → (((a ≡ true) ⊎ (b ≡ true)) × ((not a && not b) ≡ false))
      ⊎ ((((a ≡ true) ⊎ (b ≡ true)) → ⊥) × ((not a && not b) ≡ true))
either_lem true b = inl (inl refl, refl)
either_lem false true = inl (inr refl, refl)
either_lem false false = inr (λ h. ground arith, refl)

unit_lem :
    (unit expected : Option Text)
    → (((unit ≡ none) ⊎ (same_unit unit expected ≡ true))
        × ((is_some unit && not (same_unit unit expected)) ≡ false))
      ⊎ ((((unit ≡ none) ⊎ (same_unit unit expected ≡ true)) → ⊥)
          × ((is_some unit && not (same_unit unit expected)) ≡ true))
unit_lem none expected = inl (inl refl, refl)
unit_lem (some u) expected = elim (Bool-cases (same_unit (some u) expected)) [
  | inl e ↦ inl (inr e, rw e)
  | inr e ↦ inr (λ h. ground arith, rw e)
]

module _ {N R : Type 0} ⦃equality : Equality N⦄ where
  -- What a reviewer may send along with a decision.
  abbrev pub Allowed : DecisionType → Candidate N R → Value N → Option Text → Type 0
  Allowed accepted candidate value unit =
      ((is_null value ≡ true) ⊎ (same_value value candidate.normalized_value ≡ true))
      × ((unit ≡ none) ⊎ (same_unit unit candidate.unit ≡ true))
  Allowed edited candidate value unit = is_null value ≡ false
  Allowed rejected candidate value unit = (is_null value ≡ true) × (unit ≡ none)
  Allowed needs_more_evidence candidate value unit = (is_null value ≡ true) × (unit ≡ none)

  -- The value and the unit that the decision then stands for.
  abbrev pub decided : DecisionType → Candidate N R → Value N → Option Text → Value N × Option Text
  decided accepted candidate value unit = (candidate.normalized_value, candidate.unit)
  decided edited candidate value unit = (value, unit)
  decided rejected candidate value unit = (null, none)
  decided needs_more_evidence candidate value unit = (null, none)

  -- An answer of `_resolve_value_unit`: the value and unit decided on, or a refusal.
  abbrev IsAnswer :
      DecisionType
      → Candidate N R
      → Value N
      → Option Text
      → Result SubmitError (Value N × Option Text)
      → Type 0
  IsAnswer d candidate value unit answer =
      (Allowed d candidate value unit × (answer ≡ ok (decided d candidate value unit)))
      ⊎ ((Allowed d candidate value unit → ⊥) × ((e : SubmitError) × (answer ≡ error e)))

  no_value-IsAnswer :
      (candidate : Candidate N R) (value : Value N) (unit : Option Text)
      → IsAnswer rejected candidate value unit (no_value value unit)
  no_value-IsAnswer candidate null none = inl ((refl, refl), refl)
  no_value-IsAnswer candidate null (some u) =
      inr (λ (e, f). ground arith, (value_not_allowed, refl))
  no_value-IsAnswer candidate (Value.bool b) unit =
      inr (λ (e, f). ground arith, (value_not_allowed, refl))
  no_value-IsAnswer candidate (Value.text s) unit =
      inr (λ (e, f). ground arith, (value_not_allowed, refl))
  no_value-IsAnswer candidate (Value.number n) unit =
      inr (λ (e, f). ground arith, (value_not_allowed, refl))

  accepted-IsAnswer :
      (candidate : Candidate N R) (value : Value N) (unit : Option Text)
      → IsAnswer accepted candidate value unit (resolve_value_unit accepted candidate value unit)
  unfolding resolve_value_unit
  accepted-IsAnswer candidate value unit =
      elim (either_lem (is_null value) (same_value value candidate.normalized_value)) [
        | inr (bad, e) ↦ inr (λ allowed. bad allowed.0, (value_changed, rw e))
        | inl (good, e) ↦ elim (unit_lem unit candidate.unit) [
          | inr (bad, f) ↦ inr (λ allowed. bad allowed.1, (unit_changed, rw e (rw f)))
          | inl (same, f) ↦ inl ((good, same), rw e (rw f))
        ]
      ]

  resolve-IsAnswer :
      (d : DecisionType) (candidate : Candidate N R) (value : Value N) (unit : Option Text)
      → IsAnswer d candidate value unit (resolve_value_unit d candidate value unit)
  unfolding resolve_value_unit
  resolve-IsAnswer accepted candidate value unit = accepted-IsAnswer candidate value unit
  resolve-IsAnswer edited candidate value unit = elim (Bool-cases (is_null value)) [
    | inl e ↦ inr (λ f. ground arith, (value_required, rw e))
    | inr e ↦ inl (e, rw e)
  ]
  resolve-IsAnswer rejected candidate value unit = no_value-IsAnswer candidate value unit
  resolve-IsAnswer needs_more_evidence candidate value unit = no_value-IsAnswer candidate value unit

module _ {N R : Type 0} ⦃equality : Equality N⦄ (candidate : Candidate N R)
    (submission : Submission N) where
  -- The word is a decision, the reviewer has an id, and the value and unit go with the decision.
  abbrev pub IsSubmission : Type 0
  IsSubmission =
      (d : DecisionType) × (read_decision submission.decision ≡ some d)
      × (has_content submission.reviewer_id ≡ true)
      × Allowed d candidate submission.reviewed_value submission.reviewed_unit

  -- The record that is to come of it.
  abbrev pub record_of : IsSubmission → ReviewDecision N R
  record_of m =
      let result = decided m.0 candidate submission.reviewed_value submission.reviewed_unit in
      record {
        review_decision_id = submission.new_id;
        candidate_id = candidate.candidate_id;
        evidence_id = candidate.evidence_id;
        document_id = candidate.document_id;
        field_name = candidate.field_name;
        decision = m.0;
        reviewed_value = result.0;
        reviewed_unit = result.1;
        reviewer_id = submission.reviewer_id;
        reviewed_at = submission.now;
        reviewer_note = submission.reviewer_note;
        candidate_snapshot = candidate;
        source_reference = candidate.source_reference;
      }

module _ {N R : Type 0} ⦃equality : Equality N⦄ (candidate : Candidate N R)
    (submission : Submission N) (records : List (ReviewDecision N R)) where
  submitted :
      (m : IsSubmission candidate submission)
      → submit_decision candidate submission records
        ≡ ok (records ++ record_of candidate submission m ∷ [], record_of candidate submission m)
  unfolding submit_decision
  submitted (d, word, reviewer, allowed) =
      elim (resolve-IsAnswer d candidate submission.reviewed_value submission.reviewed_unit) [
        | inl (_, e) ↦ rw (word, submit_decision) (rw reviewer (rw e))
        | inr (bad, _) ↦ absurd (bad allowed)
      ]

  answered :
      IsSubmission candidate submission
      ⊎ ((e : SubmitError) × (submit_decision candidate submission records ≡ error e))
  unfolding submit_decision
  answered = elim (Option-cases (read_decision submission.decision)) [
    | inl word ↦ inr (invalid_decision, rw (word, submit_decision))
    | inr (d, word) ↦ elim (Bool-cases (has_content submission.reviewer_id)) [
      | inr missing ↦ inr (reviewer_required, rw (word, submit_decision) (rw missing))
      | inl reviewer ↦
          elim (resolve-IsAnswer d candidate submission.reviewed_value submission.reviewed_unit) [
            | inl (allowed, _) ↦ inl (d, word, reviewer, allowed)
            | inr (_, (e, f)) ↦ inr (e, rw (word, submit_decision) (rw reviewer (rw f)))
          ]
    ]
  ]

  -- A decision is stored exactly when its word is one of the four, the reviewer's id is not blank, and
  -- the value and unit go with it: those of the candidate or none for an accepted one, a value for an
  -- edited one, and neither for the others.
  pub submit_iff :
      ((r : List (ReviewDecision N R) × ReviewDecision N R) × (submit_decision candidate submission
            records
          ≡ ok r))
      ↔ IsSubmission candidate submission
  submit_iff = (
    λ (r, e). elim answered [ inl m ↦ m | inr (err, f) ↦ absurd (ok-error (sym e ∙ f)) ],
    λ m. (_, submitted m),
  )

  -- A submission that may be stored goes behind the records there are, as a record with its decision,
  -- its reviewer, the candidate that it is about, and the value and unit that the decision stands for:
  -- those of the candidate for an accepted one, those that were sent for an edited one, and none for the
  -- others. It is from then on the latest decision of its candidate and of its field.
  pub submit_stores :
      (m : IsSubmission candidate submission)
      → let after = records ++ record_of candidate submission m ∷ [] in
        (submit_decision candidate submission records
          ≡ ok (after, record_of candidate submission m))
        × (get_latest_by_field candidate.evidence_id candidate.field_name after
            ≡ some (record_of candidate submission m))
        × (get_latest_by_candidate candidate.candidate_id after
            ≡ some (record_of candidate submission m))
  unfolding get_latest_by_field get_latest_by_candidate
  submit_stores m = (
    submitted m,
    last_match-append _ records (record_of candidate submission m)
        (rw (eq_refl candidate.evidence_id) (eq_refl candidate.field_name)),
    last_match-append _ records (record_of candidate submission m) (eq_refl candidate.candidate_id),
  )
