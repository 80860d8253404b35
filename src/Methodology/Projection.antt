-- ===== src/Methodology/Projection.antt =====
-- `MethodologyValueService` (backend/app/services/methodology_value_service.py) and the repository
-- in memory (backend/app/repositories/methodology_value_repository.py). That the keys of the
-- aggregate are there (`_validate_approved_evidence`) is in the type of `ApprovedEvidence`.
pub mod Laws
mod Tests
use sustentra_platform.Prelude.{
  ℕ, ◌+◌, ◌≡◌, ◌≢◌, refl, ap, Bool, true, false, not, Option, none, some, List, [], ◌∷◌, ◌++◌, map,
  filter, length, is_empty, concat_map, arith, append_assoc, append-nil, filter-append,
  if◌then◌else◌, Bool-cases, inl, inr,
}
use sustentra_platform.Text.{Text, lit, ◌==◌, eq_iff, eq_refl, strip, has_content}
use sustentra_platform.Value.{Value}
use sustentra_platform.Methodology.Types.{SchemaRow, MethodologyValue}
use sustentra_platform.Methodology.Registry.{Registry, get_row}
use sustentra_platform.Methodology.Mapping.{FieldMapping, MappingService, list_by_approved_field}

-- The keys of a source reference that `_record_key` tries, in its order.
pub record SourceReference : Type 0 where
  pub record_key : Option Text
  pub record_id : Option Text
  pub row_id : Option Text
  pub line_item_id : Option Text

pub record ApprovedField (N : Type 0) : Type 0 where
  pub field_name : Text
  pub approved_value : Value N
  pub approved_unit : Option Text
  pub source_reference : SourceReference
  pub review_decision_id : Text

pub record ApprovedEvidence (N : Type 0) : Type 0 where
  pub approved_evidence_id : Text
  pub engagement_id : Text
  pub evidence_id : Text
  pub document_id : Text
  pub evidence_type : Text
  pub fields : List (ApprovedField N)

-- `"::".join(parts)`
unfoldable pub join : List Text → Text
join [] = []
join (s ∷ []) = s
join (s ∷ parts) = s ++ (lit "::" ++ join parts)

-- The first of some keys that is there and not blank, stripped.
unfoldable pub first_key : List (Option Text) → Option Text
first_key [] = none
first_key (none ∷ keys) = first_key keys
first_key (some s ∷ keys) =
    let rest = first_key keys in if has_content s then some (strip s) else rest

abbrev pub grain_of : Option SchemaRow → Option Text
grain_of none = none
grain_of (some row) = row.grain

-- `MethodologyValueProjectionResult`
pub record Projection (N : Type 0) : Type 0 where
  pub approved_evidence_id : Text
  pub engagement_id : Text
  pub evidence_id : Text
  pub document_id : Text
  pub value_count : ℕ
  pub unmapped_fields : List Text
  pub values : List (MethodologyValue N)

module _ {N : Type 0} where
  -- `_record_key`
  unfoldable pub record_key : ApprovedEvidence N → ApprovedField N → Text
  record_key evidence field =
      let reference = field.source_reference in
      elim (first_key (
        reference.record_key ∷ reference.record_id ∷ reference.row_id ∷ reference.line_item_id
        ∷ [])) [
          | some key ↦ key
          | none ↦ join (evidence.evidence_id ∷ evidence.document_id ∷ field.field_name ∷ [])
        ]

  -- `_methodology_value_id`, for the `uuid5` of the URL name space.
  unfoldable pub value_id :
      (Text → Text) → ApprovedEvidence N → ApprovedField N → FieldMapping → Text
  value_id uuid5 evidence field m =
      lit "methodology-value::"
      ++ uuid5 (
          join (
            evidence.approved_evidence_id ∷ field.review_decision_id ∷ m.methodology_field_id
            ∷ m.data_schema_field ∷ []))

  -- The value of one mapping of one field.
  unfoldable pub make_value :
      (Text → Text)
      → Registry
      → Text
      → ApprovedEvidence N
      → ApprovedField N
      → FieldMapping
      → MethodologyValue N
  make_value uuid5 registry created_at evidence field m = record {
    methodology_value_id = value_id uuid5 evidence field m;
    engagement_id = evidence.engagement_id;
    evidence_id = evidence.evidence_id;
    document_id = evidence.document_id;
    methodology_field_id = m.methodology_field_id;
    data_schema_field = m.data_schema_field;
    grain = grain_of (get_row registry m.methodology_field_id);
    record_key = record_key evidence field;
    approved_value = field.approved_value;
    approved_unit = field.approved_unit;
    approved_evidence_id = evidence.approved_evidence_id;
    review_decision_id = field.review_decision_id;
    created_at = created_at;
  }

  -- The mappings of a field.
  abbrev pub mappings_of : MappingService → ApprovedEvidence N → ApprovedField N → List FieldMapping
  mappings_of service evidence field =
      list_by_approved_field service evidence.evidence_type field.field_name false

  -- The loop of `project_approved_evidence` over the fields, with the values and the unmapped fields
  -- so far.
  unfoldable pub project_fields :
      (Text → Text)
      → MappingService
      → Registry
      → Text
      → ApprovedEvidence N
      → List (ApprovedField N)
      → List (MethodologyValue N)
      → List Text
      → List (MethodologyValue N) × List Text
  project_fields uuid5 service registry now evidence [] values unmapped = (values, unmapped)
  project_fields uuid5 service registry now evidence (field ∷ fields) values unmapped =
      let ms = mappings_of service evidence field in
      project_fields uuid5 service registry now evidence fields
        (values ++ map (make_value uuid5 registry now evidence field) ms)
        (if is_empty ms then unmapped ++ field.field_name ∷ [] else unmapped)

  -- `replace_for_approved_evidence` of the repository in memory.
  unfoldable pub replace_values :
      Text → List (MethodologyValue N) → List (MethodologyValue N) → List (MethodologyValue N)
  replace_values id values store = filter (λ v. not (v.approved_evidence_id == id)) store ++ values

  -- `list_by_approved_evidence`
  unfoldable pub list_by_approved_evidence :
      List (MethodologyValue N) → Text → List (MethodologyValue N)
  list_by_approved_evidence store id = filter (λ v. v.approved_evidence_id == id) store

  -- `project_approved_evidence`: the result, and the repository behind the call.
  unfoldable pub project :
      (Text → Text)
      → MappingService
      → Registry
      → Text
      → ApprovedEvidence N
      → Bool
      → List (MethodologyValue N)
      → Projection N × List (MethodologyValue N)
  project uuid5 service registry now evidence persist store =
      let (values, unmapped) =
        project_fields uuid5 service registry now evidence evidence.fields [] [] in
      (
        record {
          approved_evidence_id = evidence.approved_evidence_id;
          engagement_id = evidence.engagement_id;
          evidence_id = evidence.evidence_id;
          document_id = evidence.document_id;
          value_count = length values;
          unmapped_fields = unmapped;
          values = values;
        },
        if persist then replace_values evidence.approved_evidence_id values store else store,
      )
