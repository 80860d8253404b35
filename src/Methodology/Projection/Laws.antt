-- ===== src/Methodology/Projection/Laws.antt =====
-- What a projection holds, and what persisting it does to the stored values.
use sustentra_platform.Prelude.{
  ◌≡◌, ◌≢◌, refl, Bool, true, false, not, List, [], ◌∷◌, ◌++◌, map, filter, is_empty, concat_map,
  arith, append_assoc, append-nil, filter-append, if◌then◌else◌, All,
}
use sustentra_platform.Text.{Text, ◌==◌, eq_iff}
use sustentra_platform.Methodology.Types.{MethodologyValue}
use sustentra_platform.Methodology.Registry.{Registry}
use sustentra_platform.Methodology.Mapping.{MappingService}
use sustentra_platform.Methodology.Projection.{
  ApprovedField, ApprovedEvidence, mappings_of, make_value, project_fields, project, replace_values,
  list_by_approved_evidence,
}

module _ {N : Type 0} (uuid5 : Text → Text) (service : MappingService) (registry : Registry)
    (now : Text) (evidence : ApprovedEvidence N) where
  abbrev pub values_of_field : ApprovedField N → List (MethodologyValue N)
  values_of_field field =
      map (make_value uuid5 registry now evidence field) (mappings_of service evidence field)

  abbrev pub is_unmapped : ApprovedField N → Bool
  is_unmapped field = is_empty (mappings_of service evidence field)

  add_unmapped :
      (b : Bool) (name : Text) (unmapped rest : List Text)
      → (if b then unmapped ++ name ∷ [] else unmapped) ++ rest
        ≡ unmapped ++ (if b then name ∷ rest else rest)
  add_unmapped true name unmapped rest = rw append_assoc
  add_unmapped false name unmapped rest = refl

  map-if :
      (b : Bool) (field : ApprovedField N) (rest : List (ApprovedField N))
      → map (λ f. f.field_name) (if b then field ∷ rest else rest) ≡ (
          if b
          then field.field_name ∷ map (λ f. f.field_name) rest
          else map (λ f. f.field_name) rest)
  map-if true field rest = refl
  map-if false field rest = refl

  project_fields-eq :
      (fields : List (ApprovedField N)) (values : List (MethodologyValue N)) (unmapped : List Text)
      → project_fields uuid5 service registry now evidence fields values unmapped ≡ (
        values ++ concat_map values_of_field fields,
        unmapped ++ map (λ f. f.field_name) (filter is_unmapped fields),
      )
  unfolding project_fields
  project_fields-eq [] values unmapped = simp append-nil
  project_fields-eq (field ∷ fields) values unmapped =
      rw (project_fields-eq fields) (simp (append_assoc, add_unmapped, map-if))

  -- A projection has one value for each mapping of each field, field by field, and names as unmapped
  -- exactly the fields with no mapping.
  pub project_values :
      (persist : Bool) (store : List (MethodologyValue N))
      → let result = (project uuid5 service registry now evidence persist store).0 in
        (result.values ≡ concat_map values_of_field evidence.fields)
        × (result.unmapped_fields ≡ map (λ f. f.field_name) (filter is_unmapped evidence.fields))
  unfolding project
  project_values persist store = rw (project_fields-eq evidence.fields [] []) (refl, refl)

module _ {N : Type 0} where
  filter-none :
      (id : Text) (vs : List (MethodologyValue N))
      → All (λ v. v.approved_evidence_id ≡ id) vs
      → filter (λ v. not (v.approved_evidence_id == id)) vs ≡ []
  filter-none id [] h = refl
  filter-none id (v ∷ vs) h =
      ground (arith, eq_iff v.approved_evidence_id id, filter-none id vs h.1)

  filter-again :
      (id : Text) (vs : List (MethodologyValue N))
      → filter
          (λ v. not (v.approved_evidence_id == id))
          (filter (λ v. not (v.approved_evidence_id == id)) vs)
        ≡ filter (λ v. not (v.approved_evidence_id == id)) vs
  filter-again id [] = refl
  filter-again id (v ∷ vs) = ground (arith, filter-again id vs)

  -- Storing the values of one approved evidence a second time leaves the store as it was.
  pub replace_idempotent :
      (id : Text) (vs store : List (MethodologyValue N))
      → All (λ v. v.approved_evidence_id ≡ id) vs
      → replace_values id vs (replace_values id vs store) ≡ replace_values id vs store
  unfolding replace_values
  replace_idempotent id vs store h =
      simp (filter-append, filter-none id vs h, filter-again, append-nil)

  filter_own :
      (id : Text) (vs : List (MethodologyValue N))
      → All (λ v. v.approved_evidence_id ≡ id) vs
      → filter (λ v. v.approved_evidence_id == id) vs ≡ vs
  filter_own id [] h = refl
  filter_own id (v ∷ vs) h = ground (arith, eq_iff v.approved_evidence_id id, filter_own id vs h.1)

  none_of_other :
      (id other : Text) (vs : List (MethodologyValue N))
      → other ≢ id
      → All (λ v. v.approved_evidence_id ≡ id) vs
      → filter (λ v. v.approved_evidence_id == other) vs ≡ []
  none_of_other id other [] n h = refl
  none_of_other id other (v ∷ vs) n h =
      ground (arith, eq_iff v.approved_evidence_id other, none_of_other id other vs n h.1)

  kept_same :
      (id other : Text) (vs : List (MethodologyValue N))
      → other ≢ id
      → filter
          (λ v. v.approved_evidence_id == other)
          (filter (λ v. not (v.approved_evidence_id == id)) vs)
        ≡ filter (λ v. v.approved_evidence_id == other) vs
  kept_same id other [] n = refl
  kept_same id other (v ∷ vs) n = ground (
    arith,
    eq_iff v.approved_evidence_id other,
    eq_iff v.approved_evidence_id id,
    kept_same id other vs n,
  )

  dropped :
      (id : Text) (vs : List (MethodologyValue N))
      → filter
          (λ v. v.approved_evidence_id == id)
          (filter (λ v. not (v.approved_evidence_id == id)) vs)
        ≡ []
  dropped id [] = refl
  dropped id (v ∷ vs) = ground (arith, dropped id vs)

  -- After the values of an approved evidence are replaced, it has the new values and no other, and
  -- every other approved evidence has the values that it had.
  pub replace_isolated :
      (id other : Text) (vs store : List (MethodologyValue N))
      → All (λ v. v.approved_evidence_id ≡ id) vs
      → other ≢ id
      → (list_by_approved_evidence (replace_values id vs store) id ≡ vs)
        × (list_by_approved_evidence (replace_values id vs store) other
            ≡ list_by_approved_evidence store other)
  unfolding replace_values list_by_approved_evidence
  replace_isolated id other vs store h n = (
    simp (filter-append, dropped, filter_own id vs h),
    simp (filter-append, kept_same id other store n, none_of_other id other vs n h, append-nil),
  )
