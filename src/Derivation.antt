-- ===== src/Derivation.antt =====
-- The derivation of fields from other fields (backend/app/services/derivation_service.py).
mod Numeric
pub mod Exact
pub mod Units
mod Tests
unfoldable pub use Numeric.{as_number, without_commas}
use sustentra_platform.Prelude.{
  ℕ, Bool, true, false, not, ◌&&◌, ◌||◌, Option, none, some, List, [], ◌∷◌, ◌++◌, map, filter,
  is_empty, any, all, is_some, concat_map, if◌then◌else◌,
}
use sustentra_platform.Text.{Text, ◌==◌}
use sustentra_platform.Value.{Numbers, Value, null, number}
use sustentra_platform.Dict.{text_key, Dict, get, get_list, append_at}
use sustentra_platform.Methodology.Types.{SchemaRow, same_layer, MethodologyValue}
use sustentra_platform.Methodology.Registry.{Registry, get_row, list_derived_rows}

-- `DerivationStatus`
pub data DerivationStatus : Type 0 where
  derived missing_dependency cross_layer_unsupported unsupported_derivation : DerivationStatus

-- The texts of `reason`.
pub data DerivationReason : Type 0 where
  no_dependencies self_dependency unresolved cross_layer : DerivationReason
  values_missing : List Text → DerivationReason
  copy_derivation sum_derivation not_supported : DerivationReason

-- `DerivedValueResult`
pub record DerivedResult (N : Type 0) : Type 0 where
  pub field_id : Text
  pub status : DerivationStatus
  pub derived_value : Value N
  pub derived_unit : Option Text
  pub dependency_field_ids : List Text
  pub source_ids : List Text
  pub reason : DerivationReason

-- `x in xs` for a tuple of field ids
abbrev pub contains : List Text → Text → Bool
contains xs x = any (λ y. y == x) xs

module _ {N : Type 0} where
  -- A result with no value.
  abbrev pub no_value :
      SchemaRow → DerivationStatus → List Text → List Text → DerivationReason → DerivedResult N
  no_value row status dependencies ids reason = record {
    field_id = row.field_id;
    status = status;
    derived_value = null;
    derived_unit = none;
    dependency_field_ids = dependencies;
    source_ids = ids;
    reason = reason;
  }

  -- The loop of `_values_for_dependencies`.
  unfoldable pub collect :
      List Text
      → List (MethodologyValue N)
      → Dict (List (MethodologyValue N))
      → Dict (List (MethodologyValue N))
  collect dependencies [] d = d
  collect dependencies (v ∷ vs) d = collect dependencies vs (
      if contains dependencies v.methodology_field_id
      then append_at v.methodology_field_id v d
      else d)

  -- `_values_for_dependencies`
  unfoldable pub values_for_dependencies :
      List (MethodologyValue N) → List Text → Dict (List (MethodologyValue N))
  values_for_dependencies values dependencies = collect dependencies values []

  -- `field_id not in dependency_values`
  unfoldable pub missing_values : List Text → Dict (List (MethodologyValue N)) → List Text
  missing_values dependencies d = filter (λ k. not (is_some (get k d))) dependencies

  -- The values of the dependencies, dependency by dependency.
  unfoldable pub source_values :
      List Text → Dict (List (MethodologyValue N)) → List (MethodologyValue N)
  source_values dependencies d = concat_map (λ k. get_list k d) dependencies

  abbrev pub ids_of : List (MethodologyValue N) → List Text
  ids_of values = map (λ v. v.methodology_value_id) values

  -- The ids in `dependency_values.values()`.
  abbrev pub all_ids : Dict (List (MethodologyValue N)) → List Text
  all_ids [] = []
  all_ids ((k, vs) ∷ d) = ids_of vs ++ all_ids d

-- A set, as a list without repetitions.
abbrev pub add_unit : Option Text → List Text → List Text
add_unit none units = units
add_unit (some u) units = if contains units u then units else u ∷ units

-- `next(iter(units)) if units else None`
abbrev pub first_unit : List Text → Option Text
first_unit [] = none
first_unit (u ∷ units) = some u

-- `len(units) <= 1`
abbrev pub at_most_one : List Text → Bool
at_most_one [] = true
at_most_one (u ∷ []) = true
at_most_one _ = false

-- `numeric_values`, if none of them is `None`.
abbrev pub all_some : {A : Type 0} → List (Option A) → Option (List A)
all_some [] = some []
all_some (none ∷ os) = none
all_some (some a ∷ os) = elim (all_some os) [ none ↦ none | some rest ↦ some (a ∷ rest) ]

abbrev pub is_unresolved : Registry → Text → Bool
is_unresolved registry k = not (is_some (get_row registry k))

-- `dependency.layer != row.layer`
abbrev pub other_layer : SchemaRow → Option SchemaRow → Bool
other_layer row none = false
other_layer row (some dependency) = not (same_layer dependency.layer row.layer)

module _ {N : Type 0} where
  unfoldable pub distinct_units : List (MethodologyValue N) → List Text
  distinct_units [] = []
  distinct_units (v ∷ vs) = add_unit v.approved_unit (distinct_units vs)

module _ {N : Type 0} ⦃numbers : Numbers N⦄ where
  -- `sum(...)`, from the left.
  unfoldable pub sum_from : N → List N → N
  sum_from acc [] = acc
  sum_from acc (n ∷ ns) = sum_from (numbers.add acc n) ns

  -- The sum, behind the test that every value is a number.
  unfoldable pub derive_sum :
      SchemaRow → List (MethodologyValue N) → Option (List N) → DerivedResult N
  derive_sum row sources none =
      no_value row unsupported_derivation row.derived_from (ids_of sources) not_supported
  derive_sum row sources (some ns) =
      let units = distinct_units sources in
      if at_most_one units
      then record {
        field_id = row.field_id;
        status = derived;
        derived_value = number (sum_from numbers.zero ns);
        derived_unit = first_unit units;
        dependency_field_ids = row.derived_from;
        source_ids = ids_of sources;
        reason = sum_derivation;
      }
      else no_value row unsupported_derivation row.derived_from (ids_of sources) not_supported

  -- The end of `_derive_row`: a copy of the one value, or a sum.
  unfoldable pub combine : SchemaRow → List (MethodologyValue N) → DerivedResult N
  combine row (v ∷ []) = record {
    field_id = row.field_id;
    status = derived;
    derived_value = v.approved_value;
    derived_unit = v.approved_unit;
    dependency_field_ids = row.derived_from;
    source_ids = ids_of (v ∷ []);
    reason = copy_derivation;
  }
  combine row sources =
      derive_sum row sources (all_some (map (λ v. as_number v.approved_value) sources))

  -- `_derive_row`
  unfoldable pub derive_row : Registry → SchemaRow → List (MethodologyValue N) → DerivedResult N
  derive_row registry row values =
      let found = values_for_dependencies values row.derived_from in
      let missing = missing_values row.derived_from found in
      if is_empty row.derived_from
      then no_value row unsupported_derivation [] [] no_dependencies
      else if contains row.derived_from row.field_id
      then no_value row unsupported_derivation row.derived_from [] self_dependency
      else if any (is_unresolved registry) row.derived_from
      then no_value row missing_dependency row.derived_from [] unresolved
      else if any (λ k. other_layer row (get_row registry k)) row.derived_from
      then no_value row cross_layer_unsupported row.derived_from [] cross_layer
      else if not (is_empty missing)
      then no_value row missing_dependency row.derived_from (all_ids found) (values_missing missing)
      else combine row (source_values row.derived_from found)

  -- `derive_field`; `none` is its ValueError for an unknown field.
  unfoldable pub derive_field :
      Registry → Text → List (MethodologyValue N) → Option (DerivedResult N)
  derive_field registry field_id values = elim (get_row registry field_id) [
    | none ↦ none
    | some row ↦ some (derive_row registry row values)
  ]

  -- `derive_all`
  unfoldable pub derive_all : Registry → List (MethodologyValue N) → List (DerivedResult N)
  derive_all registry values =
      map (λ row. derive_row registry row values) (list_derived_rows registry)
