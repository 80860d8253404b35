-- ===== src/Methodology/Mapping.antt =====
-- `ApprovedEvidenceMappingService` (backend/app/services/approved_evidence_mapping_service.py): the
-- mappings from approved fields to methodology fields.
use sustentra_platform.Prelude.{
  ◌≡◌, Bool, true, false, not, ◌&&◌, ◌||◌, Option, none, some, List, [], ◌∷◌, filter, any, arith,
  All, if◌then◌else◌,
}
use sustentra_platform.Text.{Text, ◌==◌, normalize}
use sustentra_platform.Dict.{text_key, pair_key, Map, Dict, get_list, index, get_list-index}
use sustentra_platform.Methodology.Registry.{Registry, get_row}

-- `MappingStatus`
pub data MappingStatus : Type 0 where
  confirmed provisional needs_domain_review deprecated : MappingStatus

-- `ApprovedEvidenceFieldMapping`, with the fields that the services read.
pub record FieldMapping : Type 0 where
  pub canonical_type_id : Text
  pub approved_field_name : Text
  pub methodology_field_id : Text
  pub data_schema_field : Text
  pub mapping_status : MappingStatus

abbrev pub is_deprecated : FieldMapping → Bool
is_deprecated m = elim m.mapping_status [
  | confirmed ↦ false
  | provisional ↦ false
  | needs_domain_review ↦ false
  | deprecated ↦ true
]

-- `(_normalize_key(canonical_type_id), _normalize_key(approved_field_name))`
abbrev pub field_key : FieldMapping → Option (Text × Text)
field_key m = some (normalize m.canonical_type_id, normalize m.approved_field_name)

pub record MappingService : Type 0 where
  pub mappings : List FieldMapping
  pub by_canonical_type : Dict (List FieldMapping)
  pub by_approved_field : Map (Text × Text) (List FieldMapping)
  pub by_methodology_field : Dict (List FieldMapping)

-- `x in xs`
abbrev pub in_list : Text → List Text → Bool
in_list x xs = any (λ y. y == x) xs

-- One turn of `_validate_methodology_references`: the row is there and has the schema field.
abbrev pub resolves : Registry → FieldMapping → Bool
resolves registry m = elim (get_row registry m.methodology_field_id) [
  | none ↦ false
  | some row ↦ in_list m.data_schema_field row.data_schema_fields
]

-- `_validate_methodology_references`: the first mapping that it raises for.
unfoldable pub first_unresolved : Registry → List FieldMapping → Option FieldMapping
first_unresolved registry [] = none
first_unresolved registry (m ∷ ms) =
    let rest = first_unresolved registry ms in if resolves registry m then rest else some m

-- `__init__`: the service, or the mapping that its validation error names.
pub data Construction : Type 0 where
  built : MappingService → Construction
  unresolved : FieldMapping → Construction

unfoldable pub construct : List FieldMapping → Option FieldMapping → Construction
construct mappings (some m) = unresolved m
construct mappings none = built (record {
  mappings = mappings;
  by_canonical_type = index (λ m. some (normalize m.canonical_type_id)) mappings;
  by_approved_field = index field_key mappings;
  by_methodology_field = index (λ m. some m.methodology_field_id) mappings;
})

unfoldable pub make_mapping_service : List FieldMapping → Registry → Construction
unfolding construct
make_mapping_service mappings registry = construct mappings (first_unresolved registry mappings)

-- `_filter_deprecated`
unfoldable pub filter_deprecated : Bool → List FieldMapping → List FieldMapping
filter_deprecated true ms = ms
filter_deprecated false ms = filter (λ m. not (is_deprecated m)) ms

-- `list_mappings`
unfoldable pub list_mappings : MappingService → Bool → List FieldMapping
list_mappings service include_deprecated =
    filter (λ m. include_deprecated || not (is_deprecated m)) service.mappings

-- `list_by_canonical_type`
unfoldable pub list_by_canonical_type : MappingService → Text → Bool → List FieldMapping
list_by_canonical_type service type_id include_deprecated =
    filter_deprecated include_deprecated (get_list (normalize type_id) service.by_canonical_type)

-- `list_by_approved_field`
unfoldable pub list_by_approved_field : MappingService → Text → Text → Bool → List FieldMapping
list_by_approved_field service type_id field_name include_deprecated =
    filter_deprecated include_deprecated
      (get_list (normalize type_id, normalize field_name) service.by_approved_field)

-- `list_by_methodology_field`
unfoldable pub list_by_methodology_field : MappingService → Text → Bool → List FieldMapping
list_by_methodology_field service field_id include_deprecated =
    filter_deprecated include_deprecated (get_list field_id service.by_methodology_field)

-- The first mapping of a list to a target.
unfoldable pub find_target : Text → Text → List FieldMapping → Option FieldMapping
find_target field_id schema_field [] = none
find_target field_id schema_field (m ∷ ms) =
    let rest = find_target field_id schema_field ms in
    if m.methodology_field_id == field_id && m.data_schema_field == schema_field
    then some m
    else rest

-- `get_mapping`
unfoldable pub get_mapping : MappingService → Text → Text → Text → Text → Option FieldMapping
get_mapping service type_id field_name field_id schema_field =
    find_target field_id schema_field (list_by_approved_field service type_id field_name true)

-- `list_unconfirmed`
unfoldable pub list_unconfirmed : MappingService → List FieldMapping
list_unconfirmed service =
    filter
      (λ m. elim m.mapping_status [
        | confirmed ↦ false
        | provisional ↦ true
        | needs_domain_review ↦ true
        | deprecated ↦ false
      ])
      service.mappings

mappings_resolve :
    (registry : Registry) (ms : List FieldMapping)
    → first_unresolved registry ms ≡ none
    → All (λ m. resolves registry m ≡ true) ms
unfolding first_unresolved
mappings_resolve registry [] h = tt
mappings_resolve registry (m ∷ ms) h = (ground arith, mappings_resolve registry ms (ground arith))

-- Unconfirmed, deprecated or not: the mappings of one approved field.
abbrev pub maps_field : Text → Text → FieldMapping → Bool
maps_field type_id field_name m =
    normalize m.canonical_type_id == normalize type_id
    && normalize m.approved_field_name == normalize field_name

construct-built :
    (mappings : List FieldMapping) (o : Option FieldMapping) (service : MappingService)
    → construct mappings o ≡ built service
    → (o ≡ none) × (service.by_approved_field ≡ index field_key mappings)
unfolding construct
construct-built mappings o service h = ground arith

-- A service that is built lists for an approved field the mappings of its evidence type and name,
-- up to case and white space at the ends, that are not deprecated, in their order; and every
-- mapping it was built from has its methodology row, with its schema field.
pub built_service :
    (mappings : List FieldMapping) (registry : Registry) (service : MappingService)
    (type_id field_name : Text)
    → make_mapping_service mappings registry ≡ built service
    → (list_by_approved_field service type_id field_name false
        ≡ filter (λ m. not (is_deprecated m)) (filter (maps_field type_id field_name) mappings))
      × All (λ m. resolves registry m ≡ true) mappings
unfolding make_mapping_service list_by_approved_field filter_deprecated
built_service mappings registry service type_id field_name h =
    let made = construct-built mappings (first_unresolved registry mappings) service h in
    (
      rw made.1 (rw (get_list-index field_key (normalize type_id, normalize field_name) mappings)),
      mappings_resolve registry mappings made.0,
    )
