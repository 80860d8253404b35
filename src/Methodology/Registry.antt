-- ===== src/Methodology/Registry.antt =====
-- `MethodologyRegistryService`: the lookups over the rows of a bundle, by the indexes that its
-- constructor builds, and what each lookup answers in terms of the rows.
use sustentra_platform.Prelude.{
  ◌≡◌, refl, Option, none, some, List, [], ◌∷◌, filter, is_empty, not, if◌then◌else◌,
}
use sustentra_platform.Text.{Text, ◌==◌, normalize, is_truthy, or_empty}
use sustentra_platform.Dict.{
  text_key, Dict, get, put, get-put, get_list, index, has_key, get_list-index,
}
use sustentra_platform.Methodology.Types.{SchemaRow}

-- `{row.field_id: row for row in self.schema_rows}`, from a dict that is there already.
unfoldable pub by_field_id : List SchemaRow → Dict SchemaRow → Dict SchemaRow
by_field_id [] d = d
by_field_id (row ∷ rows) d = by_field_id rows (put row.field_id row d)

-- The key of `_index_rows_by_normalized_attr`: rows with no value are left out.
abbrev pub normalized_key : (SchemaRow → Option Text) → SchemaRow → Option Text
normalized_key attr row =
    if is_truthy (attr row) then some (normalize (or_empty (attr row))) else none

pub record Registry : Type 0 where
  pub schema_rows : List SchemaRow
  pub rows_by_field_id : Dict SchemaRow
  pub rows_by_value_origin : Dict (List SchemaRow)
  pub rows_by_requirement_level : Dict (List SchemaRow)

-- `__init__`
unfoldable pub make_registry : List SchemaRow → Registry
make_registry rows = record {
  schema_rows = rows;
  rows_by_field_id = by_field_id rows [];
  rows_by_value_origin = index (normalized_key λ r. r.value_origin) rows;
  rows_by_requirement_level = index (normalized_key λ r. r.requirement_level) rows;
}

unfoldable pub get_row : Registry → Text → Option SchemaRow
get_row r field_id = get field_id r.rows_by_field_id

unfoldable pub list_by_value_origin : Registry → Text → List SchemaRow
list_by_value_origin r origin = get_list (normalize origin) r.rows_by_value_origin

unfoldable pub list_required_rows : Registry → Text → List SchemaRow
list_required_rows r level = get_list (normalize level) r.rows_by_requirement_level

unfoldable pub list_conditions : Registry → List SchemaRow
list_conditions r = filter (λ row. is_truthy row.condition) r.schema_rows

unfoldable pub list_derived_rows : Registry → List SchemaRow
list_derived_rows r = filter (λ row. not (is_empty row.derived_from)) r.schema_rows

-- The last row of a list that has an id.
abbrev pub last_row : Text → List SchemaRow → Option SchemaRow → Option SchemaRow
last_row k [] found = found
last_row k (row ∷ rows) found = last_row k rows (if row.field_id == k then some row else found)

get-by_field_id :
    (k : Text) (rows : List SchemaRow) (d : Dict SchemaRow)
    → get k (by_field_id rows d) ≡ last_row k rows (get k d)
unfolding by_field_id
get-by_field_id k [] d = refl
get-by_field_id k (row ∷ rows) d =
    rw (get-by_field_id k rows (put row.field_id row d)) (rw (get-put row.field_id k row d))

-- A field id finds the last row of the bundle that has it, and nothing where no row has it.
pub get_row-last :
    (rows : List SchemaRow) (k : Text) → get_row (make_registry rows) k ≡ last_row k rows none
unfolding get_row make_registry get
get_row-last rows k = get-by_field_id k rows []

-- The required rows of a level are the rows of the bundle, in its order, whose requirement level
-- is there and is the same up to case and white space at the ends.
pub list_required_rows-filter :
    (rows : List SchemaRow) (level : Text)
    → list_required_rows (make_registry rows) level
      ≡ filter (has_key (normalized_key λ r. r.requirement_level) (normalize level)) rows
unfolding list_required_rows make_registry
list_required_rows-filter rows level =
    get_list-index (normalized_key λ r. r.requirement_level) (normalize level) rows
