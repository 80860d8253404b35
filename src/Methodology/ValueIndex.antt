-- ===== src/Methodology/ValueIndex.antt =====
-- `_index_values`, which the completeness tracker and the verification engine both have: the
-- populated values of a field, in their order.
use sustentra_platform.Prelude.{
  ◌≡◌, refl, Bool, Option, none, some, List, [], ◌∷◌, arith, filter, is_empty, not, ◌&&◌,
  if◌then◌else◌,
}
use sustentra_platform.Text.{Text, ◌==◌}
use sustentra_platform.Value.{has_populated_value}
use sustentra_platform.Dict.{text_key, Dict, get_list, index, has_key, get_list-index}
use sustentra_platform.Methodology.Types.{MethodologyValue}

module _ {N : Type 0} where
  -- `field_id and value_id and _has_populated_value(...)`
  abbrev pub is_usable : MethodologyValue N → Bool
  is_usable v =
      not (is_empty v.methodology_field_id)
      && not (is_empty v.methodology_value_id)
      && has_populated_value v.approved_value

  abbrev pub usable_field : MethodologyValue N → Option Text
  usable_field v = if is_usable v then some v.methodology_field_id else none

  unfoldable pub index_values : List (MethodologyValue N) → Dict (List (MethodologyValue N))
  index_values values = index usable_field values

  -- `values_by_field.get(field_id, [])`
  unfoldable pub values_of : List (MethodologyValue N) → Text → List (MethodologyValue N)
  values_of values field_id = get_list field_id (index_values values)

  -- The usable values of a field.
  abbrev pub evidences : Text → MethodologyValue N → Bool
  evidences field_id v = is_usable v && v.methodology_field_id == field_id

  has_key-evidences : (k : Text) (v : MethodologyValue N) → has_key usable_field k v ≡ evidences k v
  has_key-evidences k v = ground arith

  filter-same :
      (p q : MethodologyValue N → Bool) (vs : List (MethodologyValue N))
      → ((v : MethodologyValue N) → p v ≡ q v)
      → filter p vs ≡ filter q vs
  filter-same p q [] h = refl
  filter-same p q (v ∷ vs) h = ground (arith, h v, filter-same p q vs h)

  pub values_of-filter :
      (values : List (MethodologyValue N)) (k : Text)
      → values_of values k ≡ filter (evidences k) values
  unfolding values_of index_values
  values_of-filter values k =
      rw (get_list-index usable_field k values)
        (filter-same (has_key usable_field k) (evidences k) values (has_key-evidences k))
