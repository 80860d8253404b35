-- ===== src/Derivation/Tests.antt =====
-- Derivations on concrete rows.
use sustentra_platform.Prelude.{ℕ, ◌≡◌, refl, false, some, List, [], ◌∷◌, All}
use sustentra_platform.Text.{lit, ◌==◌}
use sustentra_platform.Value.{text, number}
use sustentra_platform.Dict.{text_key, get, put, get_list, append_at}
use sustentra_platform.Samples.{whole, row, value}
use sustentra_platform.Methodology.Types.{SchemaRow, MethodologyValue}
use sustentra_platform.Methodology.Registry.{Registry, make_registry, by_field_id, get_row}
use sustentra_platform.Derivation.{
  derived, contains, derive_row, derive_sum, combine, collect, values_for_dependencies,
  missing_values, source_values, distinct_units, as_number, without_commas, sum_from,
}
use sustentra_platform.Derivation.Exact.{Resolves, values_of_fields, derived_from_values}
use sustentra_platform.Derivation.Units.{UnitIs, derived_unit_agrees}

abbrev total_row : SchemaRow
total_row = record row { field_id = lit "S1-STC-020"; derived_from = lit "S1-STC-010" ∷ [] }

abbrev registry : Registry
registry = make_registry (row ∷ total_row ∷ [])

-- 1,200 litres.
abbrev litres : MethodologyValue ℕ
litres = record value { approved_value = text (lit "1,200"); approved_unit = some (lit "L") }

abbrev values : List (MethodologyValue ℕ)
values = value ∷ litres ∷ []

is_derived : (derive_row registry total_row values).status ≡ derived
unfolding derive_row get_row make_registry by_field_id put get get_list append_at
    values_for_dependencies collect missing_values source_values combine derive_sum distinct_units
    as_number without_commas ◌==◌
is_derived = refl

derived_from_values_example :
    All (Resolves registry total_row) total_row.derived_from
    × (contains total_row.derived_from total_row.field_id ≡ false)
    × (derive_row registry total_row values
        ≡ combine total_row (values_of_fields total_row.derived_from values))
derived_from_values_example = derived_from_values registry total_row values is_derived

the_sum : (combine total_row values).derived_value ≡ number 1212
unfolding combine derive_sum distinct_units as_number without_commas sum_from ◌==◌
the_sum = refl

combines : (combine total_row values).status ≡ derived
unfolding combine derive_sum distinct_units as_number without_commas ◌==◌
combines = refl

derived_unit_agrees_example : All (UnitIs (combine total_row values).derived_unit) values
derived_unit_agrees_example = derived_unit_agrees total_row values combines
