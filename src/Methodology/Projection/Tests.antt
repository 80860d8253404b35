-- ===== src/Methodology/Projection/Tests.antt =====
-- The registry, the mappings and the projection on concrete rows.
use sustentra_platform.Prelude.{
  ℕ, ◌≡◌, refl, true, none, some, List, [], ◌∷◌, filter, map, concat_map,
}
use sustentra_platform.Text.{Text, lit, ◌==◌, normalize}
use sustentra_platform.Value.{text}
use sustentra_platform.Dict.{text_key, pair_key, get, put, index}
use sustentra_platform.Samples.{whole, row, value}
use sustentra_platform.Methodology.Types.{SchemaRow, MethodologyValue}
use sustentra_platform.Methodology.Registry.{Registry, make_registry, by_field_id, get_row}
use sustentra_platform.Methodology.Mapping.{
  confirmed, deprecated, FieldMapping, MappingService, built, construct, field_key,
  make_mapping_service, first_unresolved,
}
use sustentra_platform.Methodology.Projection.{
  ApprovedField, ApprovedEvidence, project, replace_values, list_by_approved_evidence,
}
use sustentra_platform.Methodology.Projection.Laws.{
  values_of_field, is_unmapped, project_values, replace_isolated,
}

-- A later row with the same id.
abbrev later : SchemaRow
later = record row { requirement_level = some (lit "Optional") }

abbrev fuel_mapping : FieldMapping
fuel_mapping = record {
  canonical_type_id = lit "Fuel_Bill";
  approved_field_name = lit "quantity";
  methodology_field_id = lit "S1-STC-010";
  data_schema_field = lit "fuel_quantity";
  mapping_status = confirmed;
}

abbrev old_mapping : FieldMapping
old_mapping = record fuel_mapping { mapping_status = deprecated }

abbrev mappings : List FieldMapping
mappings = old_mapping ∷ fuel_mapping ∷ []

abbrev registry : Registry
registry = make_registry (row ∷ [])

abbrev service : MappingService
service = record {
  mappings = mappings;
  by_canonical_type = index (λ m. some (normalize m.canonical_type_id)) mappings;
  by_approved_field = index field_key mappings;
  by_methodology_field = index (λ m. some m.methodology_field_id) mappings;
}

service_is_built : make_mapping_service mappings registry ≡ built service
unfolding make_mapping_service construct first_unresolved get_row make_registry by_field_id put get
    ◌==◌
service_is_built = refl

abbrev approved : Text → ApprovedField ℕ
approved name = record {
  field_name = name;
  approved_value = text (lit "12");
  approved_unit = some (lit "L");
  source_reference = record {
    record_key = none;
    record_id = some (lit " r1 ");
    row_id = none;
    line_item_id = none;
  };
  review_decision_id = lit "rd";
}

abbrev evidence : ApprovedEvidence ℕ
evidence = record {
  approved_evidence_id = lit "ae";
  engagement_id = lit "e";
  evidence_id = lit "ev";
  document_id = lit "d";
  evidence_type = lit "fuel_bill";
  fields = approved (lit "Quantity") ∷ approved (lit "Supplier") ∷ [];
}

project_values_example :
    let result = (project (λ s. s) service registry (lit "now") evidence true []).0 in
    (result.values
      ≡ concat_map (values_of_field (λ s. s) service registry (lit "now") evidence) evidence.fields)
    × (result.unmapped_fields
        ≡ map
            (λ f. f.field_name)
            (filter (is_unmapped (λ s. s) service registry (lit "now") evidence) evidence.fields))
project_values_example = project_values (λ s. s) service registry (lit "now") evidence true []

abbrev other_value : MethodologyValue ℕ
other_value = record value { approved_evidence_id = lit "other" }

replace_isolated_example :
    (list_by_approved_evidence
        (replace_values (lit "ae") (value ∷ []) (other_value ∷ value ∷ []))
        (lit "ae")
      ≡ value ∷ [])
    × (list_by_approved_evidence
          (replace_values (lit "ae") (value ∷ []) (other_value ∷ value ∷ []))
          (lit "other")
        ≡ list_by_approved_evidence (other_value ∷ value ∷ []) (lit "other"))
replace_isolated_example =
    replace_isolated (lit "ae") (lit "other") (value ∷ []) (other_value ∷ value ∷ []) (refl, tt)
      (λ h. cc)
