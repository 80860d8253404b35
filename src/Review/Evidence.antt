-- ===== src/Review/Evidence.antt =====
-- `ApprovedEvidenceService` (backend/app/services/approved_evidence_service.py); the repository in memory of
-- backend/app/repositories/evidence_repository.py is the list of its records.
use sustentra_platform.Prelude.{
  ℕ, ◌+◌, Bool, true, ◌&&◌, ◌||◌, Option, none, some, List, [], ◌∷◌, ◌++◌, map, length, all,
  if◌then◌else◌, is_empty, ltb, nat_eq,
}
use sustentra_platform.Prelude.Outcomes.{Result, ok, error, require, ◌>>◌}
use sustentra_platform.Text.{Text, lit, ◌==◌, has_content}
use sustentra_platform.Dict.{Dict, text_key, get, put}
use sustentra_platform.Review.Types.{ReviewDecision}
use sustentra_platform.Review.Decisions.{list_by_evidence}
use sustentra_platform.Review.Aggregate.{
  Dates, parse_reviewed_at, is_approved, EvidenceField, ReviewStatus, in_review, partially_approved,
  approved, no_approved_fields, Aggregate, ProjectError, engagement_required,
  evidence_type_required, invalid_timestamp, mixed_evidence, mixed_documents, Entry, Call,
}

abbrev pub label : Option Text → Text → Text
label none name = name
label (some s) name = if is_empty s then name else s

-- The first of a list that has one.
abbrev pub head_or : {A : Type 0} → A → List A → A
head_or a [] = a
head_or a (x ∷ xs) = x

abbrev pub flags : Option (List Text) → List Text
flags none = []
flags (some xs) = xs

abbrev pub review_status : ℕ → ℕ → ReviewStatus
review_status fields approved_fields =
    if nat_eq fields 0
    then in_review
    else if nat_eq approved_fields 0
    then no_approved_fields
    else if nat_eq approved_fields fields
    then approved
    else partially_approved

module _ {N R : Type 0} where
  -- One field of `_build_aggregate`.
  abbrev pub make_field : ReviewDecision N R → EvidenceField N R
  make_field decision = record {
    field_name = decision.field_name;
    display_label = label decision.candidate_snapshot.display_label decision.field_name;
    extracted_value = decision.candidate_snapshot.raw_value;
    approved_value = decision.reviewed_value;
    approved_unit = decision.reviewed_unit;
    decision = decision.decision;
    source_reference = decision.source_reference;
    review_decision_id = decision.review_decision_id;
    candidate_id = decision.candidate_id;
    reviewer_id = decision.reviewer_id;
    reviewed_at = decision.reviewed_at;
    confidence = decision.candidate_snapshot.confidence;
    validation_flags = flags decision.candidate_snapshot.validation_flags;
  }

  -- The loop of `_build_aggregate`.
  unfoldable pub approved_fields : List (ReviewDecision N R) → List (EvidenceField N R)
  approved_fields [] = []
  approved_fields (d ∷ ds) =
      let rest = approved_fields ds in if is_approved d.decision then make_field d ∷ rest else rest

  -- `_build_aggregate`
  unfoldable pub build_aggregate : Call → Text → Text → List (ReviewDecision N R) → Aggregate N R
  build_aggregate call evidence_id document_id latest = record {
    approved_evidence_id = call.new_id call.engagement_id evidence_id;
    evidence_id = evidence_id;
    engagement_id = call.engagement_id;
    document_id = document_id;
    evidence_type = call.evidence_type;
    review_status = review_status (length latest) (length (approved_fields latest));
    field_count = length latest;
    approved_field_count = length (approved_fields latest);
    fields = approved_fields latest;
    created_at = call.now;
    source_review_decision_ids = map (λ d. d.review_decision_id) latest;
  }

  -- `reviewed_at > previous[0] or (reviewed_at == previous[0] and index > previous[1])`
  abbrev pub is_later : Entry N R → Entry N R → Bool
  is_later e previous =
      ltb previous.time e.time || (nat_eq e.time previous.time && ltb previous.index e.index)

  abbrev pub replaces : Entry N R → Option (Entry N R) → Bool
  replaces e none = true
  replaces e (some previous) = is_later e previous

  -- One turn of the loop of `_latest_decision_per_field`.
  unfoldable pub keep_latest : Entry N R → Dict (Entry N R) → Dict (Entry N R)
  keep_latest e latest =
      if replaces e (get e.decision.field_name latest)
      then put e.decision.field_name e latest
      else latest

  unfoldable pub latest_by_field : List (Entry N R) → Dict (Entry N R) → Dict (Entry N R)
  latest_by_field [] latest = latest
  latest_by_field (e ∷ es) latest = latest_by_field es (keep_latest e latest)

  -- `sorted(entries, key=lambda item: item[1])`, by insertion
  abbrev pub insert : Entry N R → List (Entry N R) → List (Entry N R)
  insert e [] = e ∷ []
  insert e (f ∷ es) = let rest = insert e es in if ltb f.index e.index then f ∷ rest else e ∷ f ∷ es

  abbrev pub sort : List (Entry N R) → List (Entry N R)
  sort [] = []
  sort (e ∷ es) = insert e (sort es)

  -- `_latest_decision_per_field`
  unfoldable pub latest_per_field : List (Entry N R) → List (Entry N R)
  latest_per_field es = sort (map (λ p. p.1) (latest_by_field es []))

module _ {N R : Type 0} ⦃dates : Dates⦄ where
  -- The decisions with their instants, from an index on; the loop of `_latest_decision_per_field` reads
  -- them again from the same texts.
  unfoldable pub read_entries : ℕ → List (ReviewDecision N R) → Option (List (Entry N R))
  read_entries n [] = some []
  read_entries n (d ∷ ds) =
      let rest = read_entries (n + 1) ds in
      elim (parse_reviewed_at d.reviewed_at) [
        | none ↦ none
        | some t ↦ elim rest [
          | none ↦ none
          | some es ↦ some (record { time = t; index = n; decision = d } ∷ es)
        ]
      ]

  abbrev pub project_entries :
      Call
      → ReviewDecision N R
      → List (ReviewDecision N R)
      → List (Entry N R)
      → List (Aggregate N R)
      → Result ProjectError (List (Aggregate N R) × Aggregate N R)
  project_entries call first decisions entries store =
      let latest = map (λ e. e.decision) (latest_per_field entries) in
      let head = head_or first latest in
      let made = build_aggregate call head.evidence_id head.document_id latest in
      require (all (λ d. d.evidence_id == first.evidence_id) decisions) mixed_evidence
      >> (require (all (λ d. d.document_id == first.document_id) decisions) mixed_documents
          >> ok (store ++ made ∷ [], made))

  -- `_validate_decision_group` and what follows it.
  abbrev pub project_group :
      Call
      → List (ReviewDecision N R)
      → List (Aggregate N R)
      → Result ProjectError (List (Aggregate N R) × Aggregate N R)
  project_group call [] store =
      let made = build_aggregate call (lit "evidence-unknown") (lit "document-unknown") [] in
      ok (store ++ made ∷ [], made)
  project_group call (d ∷ ds) store = elim (read_entries 0 (d ∷ ds)) [
    | none ↦ error invalid_timestamp
    | some entries ↦ project_entries call d (d ∷ ds) entries store
  ]

  -- `project_from_review_decisions`
  unfoldable pub project_from_review_decisions :
      Call
      → List (ReviewDecision N R)
      → List (Aggregate N R)
      → Result ProjectError (List (Aggregate N R) × Aggregate N R)
  project_from_review_decisions call decisions store =
      require (has_content call.engagement_id) engagement_required
      >> (require (has_content call.evidence_type) evidence_type_required
          >> project_group call decisions store)

  abbrev pub project_found :
      Call
      → Text
      → List (ReviewDecision N R)
      → List (Aggregate N R)
      → Result ProjectError (List (Aggregate N R) × Aggregate N R)
  project_found call evidence_id [] store =
      let made = build_aggregate call evidence_id (lit "document-unknown") [] in
      ok (store ++ made ∷ [], made)
  project_found call evidence_id (d ∷ ds) store = project_from_review_decisions call (d ∷ ds) store

  -- `project_by_evidence`
  unfoldable pub project_by_evidence :
      Call
      → Text
      → List (ReviewDecision N R)
      → List (Aggregate N R)
      → Result ProjectError (List (Aggregate N R) × Aggregate N R)
  project_by_evidence call evidence_id decisions store =
      project_found call evidence_id (list_by_evidence evidence_id decisions) store
