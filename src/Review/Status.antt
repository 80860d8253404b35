-- ===== src/Review/Status.antt =====
-- The review status of an aggregate, and its counts.
use sustentra_platform.Prelude.{
  ◌≡◌, ◌≤◌, ◌≢◌, ◌↔◌, Bool, true, false, List, [], ◌∷◌, length, all, any, arith,
}
use sustentra_platform.Text.{Text}
use sustentra_platform.Review.Types.{ReviewDecision}
use sustentra_platform.Review.Aggregate.{
  Call, in_review, partially_approved, approved, no_approved_fields, is_approved,
}
use sustentra_platform.Review.Evidence.{approved_fields, build_aggregate}

module _ {N R : Type 0} where
  abbrev is_good : ReviewDecision N R → Bool
  is_good d = is_approved d.decision

  approved_at_most : (ds : List (ReviewDecision N R)) → length (approved_fields ds) ≤ length ds
  unfolding approved_fields
  approved_at_most [] = omega arith
  approved_at_most (d ∷ ds) = ground (arith, approved_at_most ds)

  approved_all :
      (ds : List (ReviewDecision N R))
      → (length (approved_fields ds) ≡ length ds) ↔ (all is_good ds ≡ true)
  unfolding approved_fields
  approved_all [] = ground arith
  approved_all (d ∷ ds) = ground (arith, approved_all ds, approved_at_most ds)

  approved_none :
      (ds : List (ReviewDecision N R))
      → (length (approved_fields ds) ≡ 0) ↔ (any is_good ds ≡ false)
  unfolding approved_fields
  approved_none [] = ground arith
  approved_none (d ∷ ds) = ground (arith, approved_none ds)

  -- The status of an aggregate says of the latest decisions that there are none, that none of them
  -- approves its field, that all of them do, or that only some do. It has at most as many approved
  -- fields as fields.
  pub status_iff :
      (call : Call) (evidence_id document_id : Text) (ds : List (ReviewDecision N R))
      → let made = build_aggregate call evidence_id document_id ds in
        ((made.review_status ≡ in_review) ↔ (length ds ≡ 0))
        × ((made.review_status ≡ no_approved_fields) ↔ ((length ds ≢ 0) × (any is_good ds ≡ false)))
        × ((made.review_status ≡ approved) ↔ ((length ds ≢ 0) × (all is_good ds ≡ true)))
        × ((made.review_status ≡ partially_approved)
            ↔ ((any is_good ds ≡ true) × (all is_good ds ≡ false)))
        × (made.approved_field_count ≤ made.field_count)
  unfolding build_aggregate
  status_iff call evidence_id document_id ds =
      ground (arith, approved_all ds, approved_none ds, approved_at_most ds)
