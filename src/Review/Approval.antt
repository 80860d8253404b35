-- ===== src/Review/Approval.antt =====
-- When decisions are projected to approved evidence, and which fields it has.
use mathlib.Core.Path.{subst}
use mathlib.Core.Option.{some_inj}
use sustentra_platform.Prelude.{
  ℕ, ◌+◌, ◌≡◌, ◌↔◌, ◌⊎◌, refl, sym, ◌∙◌, not, Bool, true, false, some, List, [], ◌∷◌, ◌++◌, map,
  filter, length, all, arith, Bool-cases, Option-cases, inl, inr,
}
use sustentra_platform.Prelude.Outcomes.{Result, ok, error}
use sustentra_platform.Text.{Text, ◌==◌, has_content}
use sustentra_platform.Review.Types.{ReviewDecision}
use sustentra_platform.Review.Aggregate.{
  Dates, Entry, Call, Aggregate, ProjectError, invalid_timestamp, mixed_evidence, mixed_documents,
  engagement_required, evidence_type_required, is_approved, parse_reviewed_at,
}
use sustentra_platform.Review.Evidence.{
  make_field, approved_fields, build_aggregate, read_entries, head_or, latest_per_field,
  project_from_review_decisions, project_group,
}
use sustentra_platform.Review.Latest.{has_newer}
use sustentra_platform.Review.Latest.Exact.{Counts, latest_per_field-filter}
use sustentra_platform.Review.Latest.Sorting.{some-none}

module _ {N R : Type 0} where
  approved_fields-filter :
      (ds : List (ReviewDecision N R))
      → approved_fields ds ≡ map make_field (filter (λ d. is_approved d.decision) ds)
  unfolding approved_fields
  approved_fields-filter [] = refl
  approved_fields-filter (d ∷ ds) = ground (arith, approved_fields-filter ds)

  -- All decisions have the same id of a kind.
  abbrev pub agree : (ReviewDecision N R → Text) → List (ReviewDecision N R) → Bool
  agree id [] = true
  agree id (d ∷ ds) = all (λ e. id e == id d) (d ∷ ds)

  -- The decisions with no newer one on their field.
  abbrev pub latest_decisions : List (Entry N R) → List (ReviewDecision N R)
  latest_decisions es = map (λ e. e.decision) (filter (λ e. not (has_newer es e)) es)

module _ {N R : Type 0} ⦃dates : Dates⦄ where
  pub read_entries-Counts :
      (n : ℕ) (ds : List (ReviewDecision N R)) (es : List (Entry N R))
      → read_entries n ds ≡ some es
      → Counts n es
  unfolding read_entries
  read_entries-Counts n [] es e = subst (Counts n) (some_inj.0 e) tt
  read_entries-Counts n (d ∷ ds) es e = elim (Option-cases (parse_reviewed_at d.reviewed_at)) [
    | inl bad ↦ absurd (some-none (sym (rw (bad, read_entries) at e)))
    | inr (t, time) ↦ elim (Option-cases (read_entries (n + 1) ds)) [
      | inl bad ↦ absurd (some-none (sym (rw bad at (rw (time, read_entries) at e))))
      | inr (rest, read) ↦
          subst (Counts n) (some_inj.0 (rw read at (rw (time, read_entries) at e)))
            (refl, read_entries-Counts (n + 1) ds rest read)
    ]
  ]

module _ {N R : Type 0} ⦃dates : Dates⦄ (call : Call) (ds : List (ReviewDecision N R)) where
  -- The engagement and the type are not blank, the times can be read, and the decisions are of one
  -- evidence and one document.
  abbrev pub IsProjectable : Type 0
  IsProjectable =
      (entries : List (Entry N R)) × (read_entries 0 ds ≡ some entries)
      × (has_content call.engagement_id ≡ true)
      × (has_content call.evidence_type ≡ true)
      × (agree (λ d. d.evidence_id) ds ≡ true)
      × (agree (λ d. d.document_id) ds ≡ true)

module _ {N R : Type 0} (call : Call) where
  -- The aggregate of the projection, from the latest decisions.
  abbrev pub ProjectsTo : List (Entry N R) → Aggregate N R → Type 0
  ProjectsTo entries made =
      (made.fields
        ≡ map make_field (filter (λ d. is_approved d.decision) (latest_decisions entries)))
      × (made.source_review_decision_ids
          ≡ map (λ d. d.review_decision_id) (latest_decisions entries))
      × (made.field_count ≡ length (latest_decisions entries))
      × (made.engagement_id ≡ call.engagement_id)

  outcome :
      (evidence_id document_id : Text) (entries : List (Entry N R))
      → Counts 0 entries
      → ProjectsTo entries (
          build_aggregate call evidence_id document_id
            (map (λ e. e.decision) (latest_per_field entries)))
  unfolding build_aggregate
  outcome evidence_id document_id entries counts =
      rw (latest_per_field-filter entries counts)
        (approved_fields-filter (latest_decisions entries), refl, refl, refl)

module _ {N R : Type 0} ⦃dates : Dates⦄ (call : Call) (store : List (Aggregate N R)) where
  -- What the group of decisions is projected to, or why it is not.
  abbrev Answers :
      List (ReviewDecision N R)
      → Result ProjectError (List (Aggregate N R) × Aggregate N R)
      → Type 0
  Answers ds answer =
      ((entries : List (Entry N R)) × (read_entries 0 ds ≡ some entries)
        × (agree (λ d. d.evidence_id) ds ≡ true)
        × (agree (λ d. d.document_id) ds ≡ true)
        × ((made : Aggregate N R) × (answer ≡ ok (store ++ made ∷ [], made))
            × ProjectsTo call entries made))
      ⊎ (((IsProjectable call ds) → ⊥) × ((e : ProjectError) × (answer ≡ error e)))

  empty_answers : Answers [] (project_group call [] store)
  unfolding read_entries build_aggregate approved_fields
  empty_answers = inl ([], refl, refl, refl, (_, refl, (refl, refl, refl, refl)))

  made_of : ReviewDecision N R → List (Entry N R) → Aggregate N R
  made_of d entries =
      let latest = map (λ e. e.decision) (latest_per_field entries) in
      let head = head_or d latest in build_aggregate call head.evidence_id head.document_id latest

  group_answers : (ds : List (ReviewDecision N R)) → Answers ds (project_group call ds store)
  unfolding made_of
  group_answers [] = empty_answers
  group_answers (d ∷ ds) = elim (Option-cases (read_entries 0 (d ∷ ds))) [
    | inl bad ↦
        inr (λ m. absurd (some-none (sym m.1 ∙ bad)), (invalid_timestamp, rw (bad, project_group)))
    | inr (entries, read) ↦ elim (Bool-cases (agree (λ d. d.evidence_id) (d ∷ ds))) [
      | inr mixed ↦ inr (λ m. ground arith, (mixed_evidence, rw (read, project_group) (rw mixed)))
      | inl evidence ↦ elim (Bool-cases (agree (λ d. d.document_id) (d ∷ ds))) [
        | inr mixed ↦ inr (
          λ m. ground arith,
          (mixed_documents, rw (read, project_group) (rw evidence (rw mixed))),
        )
        | inl document ↦ inl (
          entries,
          read,
          evidence,
          document,
          (
            made_of d entries,
            rw (read, project_group) (rw evidence (rw document)),
            outcome call _ _ entries (read_entries-Counts 0 (d ∷ ds) entries read),
          ),
        )
      ]
    ]
  ]

  opened :
      (ds : List (ReviewDecision N R))
      → has_content call.engagement_id ≡ true
      → has_content call.evidence_type ≡ true
      → project_from_review_decisions call ds store ≡ project_group call ds store
  unfolding project_from_review_decisions
  opened ds engagement evidence_type = rw engagement (rw evidence_type)

  answers :
      (ds : List (ReviewDecision N R))
      → (has_content call.engagement_id ≡ true)
      → (has_content call.evidence_type ≡ true)
      → Answers ds (project_from_review_decisions call ds store)
  answers ds engagement evidence_type =
      subst (Answers ds) (sym (opened ds engagement evidence_type)) (group_answers ds)

  blank_engagement :
      (ds : List (ReviewDecision N R))
      → has_content call.engagement_id ≡ false
      → project_from_review_decisions call ds store ≡ error engagement_required
  unfolding project_from_review_decisions
  blank_engagement ds blank = rw blank

  blank_type :
      (ds : List (ReviewDecision N R))
      → has_content call.engagement_id ≡ true
      → has_content call.evidence_type ≡ false
      → project_from_review_decisions call ds store ≡ error evidence_type_required
  unfolding project_from_review_decisions
  blank_type ds engagement blank = rw engagement (rw blank)

  ok-error : {E A : Type 0} {a : A} {e : E} → ¬ (ok a ≡ error e)
  ok-error p = cc

  accepted_only :
      (ds : List (ReviewDecision N R)) (r : List (Aggregate N R) × Aggregate N R)
      → project_from_review_decisions call ds store ≡ ok r
      → IsProjectable call ds
  accepted_only ds r e = elim (Bool-cases (has_content call.engagement_id)) [
    | inr blank ↦ absurd (ok-error (sym e ∙ blank_engagement ds blank))
    | inl engagement ↦ elim (Bool-cases (has_content call.evidence_type)) [
      | inr blank ↦ absurd (ok-error (sym e ∙ blank_type ds engagement blank))
      | inl evidence_type ↦ elim (answers ds engagement evidence_type) [
        | inl (entries, read, evidence, document, _) ↦
            (entries, read, engagement, evidence_type, evidence, document)
        | inr (_, (err, f)) ↦ absurd (ok-error (sym e ∙ f))
      ]
    ]
  ]

  -- Decisions that can be projected are: the new aggregate goes behind the stored ones, and its fields
  -- are those of the accepted and edited decisions with no newer decision on the same field, in the
  -- order of the decisions. It counts the decisions with no newer one on their field, and names them.
  pub projected_fields :
      (ds : List (ReviewDecision N R)) (m : IsProjectable call ds)
      → (made : Aggregate N R) × (project_from_review_decisions call ds store
          ≡ ok (store ++ made ∷ [], made))
        × ProjectsTo call m.0 made
  projected_fields ds m = elim (answers ds m.2 m.3) [
    | inr (bad, _) ↦ absurd (bad m)
    | inl (entries, read, _, _, (made, e, result)) ↦
        (made, e, subst (λ es. ProjectsTo call es made) (some_inj.0 (sym read ∙ m.1)) result)
  ]

  -- Decisions are projected exactly when the engagement and the type of the evidence are not blank,
  -- the times of all decisions can be read, and all are of one evidence and one document.
  pub project_iff :
      (ds : List (ReviewDecision N R))
      → ((r : List (Aggregate N R) × Aggregate N R) × (project_from_review_decisions call ds store
            ≡ ok r))
        ↔ IsProjectable call ds
  project_iff ds = (λ (r, e). accepted_only ds r e, λ m. (_, (projected_fields ds m).1))
