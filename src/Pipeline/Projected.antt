-- ===== src/Pipeline/Projected.antt =====
-- The status of an evidence after its decisions were projected.
use mathlib.Core.Path.{subst}
use mathlib.Core.Option.{some_inj}
use sustentra_platform.Prelude.{
  ℕ, ◌+◌, ◌≡◌, refl, sym, Bool, true, some, List, [], ◌∷◌, ◌++◌, map, filter-All, All, length,
  Bool-cases, Option-cases, inl, inr,
}
use sustentra_platform.Prelude.Outcomes.{ok, error, ok_inj}
use sustentra_platform.Text.{Text, ◌==◌, eq_refl, has_content}
use sustentra_platform.Review.Types.{ReviewDecision}
use sustentra_platform.Review.Aggregate.{Dates, Entry, Call, Aggregate, parse_reviewed_at}
use sustentra_platform.Review.Decisions.{list_by_evidence, last_match}
use sustentra_platform.Review.Evidence.{
  build_aggregate, read_entries, head_or, latest_per_field, project_from_review_decisions,
  project_group, project_found, project_by_evidence,
}
use sustentra_platform.Review.Latest.Exact.{latest_per_field-filter}
use sustentra_platform.Review.Latest.Sorting.{some-none}
use sustentra_platform.Review.Approval.{agree, read_entries-Counts}
use sustentra_platform.Pipeline.Runs.{PipelineRun}
use sustentra_platform.Pipeline.EvidenceStatus.{get_latest_approved, get_evidence_status}

ok-error : {E A : Type 0} {e : E} {a : A} → ¬ (error e ≡ ok a)
ok-error p = cc

head_or-All :
    {A : Type 0} (P : A → Type 0) (a : A) (xs : List A) → P a → All P xs → P (head_or a xs)
head_or-All P a [] h k = h
head_or-All P a (x ∷ xs) h k = k.0

map-All :
    {A B : Type 0} (f : A → B) (P : B → Type 0) (xs : List A)
    → All (λ x. P (f x)) xs
    → All P (map f xs)
map-All f P [] h = tt
map-All f P (x ∷ xs) h = (h.0, map-All f P xs h.1)

last_match-append :
    {A : Type 0} (p : A → Bool) (xs : List A) (x : A)
    → p x ≡ true
    → last_match p (xs ++ x ∷ []) ≡ some x
unfolding last_match
last_match-append p [] x h = rw h refl
last_match-append p (y ∷ xs) x h = rw (last_match-append p xs x h) refl

module _ {N R : Type 0} where
  abbrev IsOf : Text → ReviewDecision N R → Type 0
  IsOf k d = (d.evidence_id == k) ≡ true

  list_by_evidence-All :
      (k : Text) (ds : List (ReviewDecision N R)) → All (IsOf k) (list_by_evidence k ds)
  unfolding list_by_evidence
  list_by_evidence-All k [] = tt
  list_by_evidence-All k (d ∷ ds) = elim (Bool-cases (d.evidence_id == k)) [
    | inl e ↦ rw e (e, list_by_evidence-All k ds)
    | inr e ↦ rw e (list_by_evidence-All k ds)
  ]

  -- The aggregate goes behind the stored ones, and is of this evidence.
  abbrev IsAppended : Text → List (Aggregate N R) → List (Aggregate N R) × Aggregate N R → Type 0
  IsAppended k store r = (r.0 ≡ store ++ r.1 ∷ []) × ((r.1.evidence_id == k) ≡ true)

module _ {N R : Type 0} ⦃dates : Dates⦄ where
  read_entries-All :
      (P : ReviewDecision N R → Type 0) (n : ℕ) (ds : List (ReviewDecision N R))
      (es : List (Entry N R))
      → read_entries n ds ≡ some es
      → All P ds
      → All (λ e. P e.decision) es
  unfolding read_entries
  read_entries-All P n [] es e h = subst (All (λ x. P x.decision)) (some_inj.0 e) tt
  read_entries-All P n (d ∷ ds) es e h = elim (Option-cases (parse_reviewed_at d.reviewed_at)) [
    | inl bad ↦ absurd (some-none (sym (rw (bad, read_entries) at e)))
    | inr (t, time) ↦ elim (Option-cases (read_entries (n + 1) ds)) [
      | inl bad ↦ absurd (some-none (sym (rw bad at (rw (time, read_entries) at e))))
      | inr (rest, read) ↦
          subst (All (λ x. P x.decision)) (some_inj.0 (rw read at (rw (time, read_entries) at e)))
            (h.0, read_entries-All P (n + 1) ds rest read h.1)
    ]
  ]

  head-IsOf :
      (k : Text) (d : ReviewDecision N R) (ds : List (ReviewDecision N R)) (es : List (Entry N R))
      → read_entries 0 (d ∷ ds) ≡ some es
      → All (IsOf k) (d ∷ ds)
      → IsOf k (head_or d (map (λ e. e.decision) (latest_per_field es)))
  head-IsOf k d ds es read h =
      let latest =
        subst (All (λ e. IsOf k e.decision))
          (sym (latest_per_field-filter es (read_entries-Counts 0 (d ∷ ds) es read)))
          (filter-All _ _ es (read_entries-All (IsOf k) 0 (d ∷ ds) es read h)) in
      head_or-All (IsOf k) d _ h.0
        (map-All (λ (e : Entry N R). e.decision) (IsOf k) (latest_per_field es) latest)

  project_group-IsAppended :
      (call : Call) (k : Text) (d : ReviewDecision N R) (ds : List (ReviewDecision N R))
      (store : List (Aggregate N R)) (r : List (Aggregate N R) × Aggregate N R)
      → All (IsOf k) (d ∷ ds)
      → project_group call (d ∷ ds) store ≡ ok r
      → IsAppended k store r
  unfolding build_aggregate
  project_group-IsAppended call k d ds store r h e = elim (Option-cases (read_entries 0 (d ∷ ds))) [
    | inl bad ↦ absurd (ok-error (rw (bad, project_group) at e))
    | inr (entries, read) ↦ elim (Bool-cases (agree (λ d. d.evidence_id) (d ∷ ds))) [
      | inr mixed ↦ absurd (ok-error (rw mixed at (rw (read, project_group) at e)))
      | inl evidence ↦ elim (Bool-cases (agree (λ d. d.document_id) (d ∷ ds))) [
        | inr mixed ↦
            absurd (ok-error (rw mixed at (rw evidence at (rw (read, project_group) at e))))
        | inl document ↦
            subst (IsAppended k store)
              (ok_inj (rw document at (rw evidence at (rw (read, project_group) at e))))
              (refl, head-IsOf k d ds entries read h)
      ]
    ]
  ]

  project_found-IsAppended :
      (call : Call) (k : Text) (ds : List (ReviewDecision N R)) (store : List (Aggregate N R))
      (r : List (Aggregate N R) × Aggregate N R)
      → All (IsOf k) ds
      → project_found call k ds store ≡ ok r
      → IsAppended k store r
  unfolding project_from_review_decisions build_aggregate
  project_found-IsAppended call k [] store r h e =
      subst (IsAppended k store) (ok_inj e) (refl, eq_refl k)
  project_found-IsAppended call k (d ∷ ds) store r h e =
      elim (Bool-cases (has_content call.engagement_id)) [
        | inr blank ↦ absurd (ok-error (rw (blank, project_from_review_decisions) at e))
        | inl engagement ↦ elim (Bool-cases (has_content call.evidence_type)) [
          | inr blank ↦
              absurd (ok-error (rw blank at (rw (engagement, project_from_review_decisions) at e)))
          | inl evidence_type ↦
              project_group-IsAppended call k d ds store r h
                (rw evidence_type at (rw (engagement, project_from_review_decisions) at e))
        ]
      ]

  -- Once the decisions on an evidence were projected, the status of the evidence shows the aggregate that
  -- was made, with its count of approved fields and its review status, and the number of the decisions.
  pub status_shows_projection :
      (call : Call) (evidence_id : Text) (runs : List PipelineRun)
      (decisions : List (ReviewDecision N R)) (store after : List (Aggregate N R))
      (made : Aggregate N R)
      → project_by_evidence call evidence_id decisions store ≡ ok (after, made)
      → let s = get_evidence_status evidence_id runs decisions after in
        (s.latest_approved_evidence ≡ some made)
        × (s.approved_field_count ≡ made.approved_field_count)
        × (s.review_status ≡ made.review_status)
        × (s.review_decision_count ≡ length (list_by_evidence evidence_id decisions))
  unfolding project_by_evidence get_evidence_status get_latest_approved
  status_shows_projection call evidence_id runs decisions store after made e =
      let (appended, own) =
        project_found-IsAppended call evidence_id (list_by_evidence evidence_id decisions) store
          (after, made) (list_by_evidence-All evidence_id decisions) e in
      let shown = last_match-append (λ a. a.evidence_id == evidence_id) store made own in
      rw appended (rw shown (refl, refl, refl, refl))
