-- ===== src/Derivation/Exact.antt =====
-- When a field is derived, and from which values.
use sustentra_platform.Prelude.{
  ◌≡◌, refl, ap, Bool, true, false, Option, none, some, List, [], ◌∷◌, ◌++◌, filter, any, arith,
  All, concat_map, if◌then◌else◌, append-nil, append_assoc, Bool-cases, inl, inr,
}
use mathlib.Core.Path.{ap₂, ◌∙◌}
use sustentra_platform.Text.{Text, ◌==◌, eq_iff, eq_refl}
use sustentra_platform.Value.{Numbers}
use sustentra_platform.Dict.{text_key, Dict, get_list, append_at, get_list-append_at}
use sustentra_platform.Methodology.Types.{SchemaRow, MethodologyValue, same_layer}
use sustentra_platform.Methodology.Registry.{Registry, get_row}
use sustentra_platform.Derivation.{
  derived, contains, collect, values_for_dependencies, source_values, is_unresolved, other_layer,
  combine, derive_row,
}

module _ {N : Type 0} where
  abbrev pub of_field : Text → MethodologyValue N → Bool
  of_field k v = v.methodology_field_id == k

  -- One turn of the loop, at a dependency.
  get_list-turn :
      (dependencies : List Text) (k f : Text) (v : MethodologyValue N)
      (d : Dict (List (MethodologyValue N)))
      → contains dependencies k ≡ true
      → get_list k (if contains dependencies f then append_at f v d else d)
        ≡ get_list k d ++ (if f == k then v ∷ [] else [])
  get_list-turn dependencies k f v d h = elim (Bool-cases (f == k)) [
    | inl e ↦
        let same : f ≡ k = (eq_iff f k).0 e in
        rw e (rw same (rw h (rw (get_list-append_at k k v d) (rw (eq_refl k)))))
    | inr e ↦ rw e (elim (Bool-cases (contains dependencies f)) [
      | inl c ↦ rw c (rw (get_list-append_at f k v d) (rw e (rw append-nil)))
      | inr c ↦ rw c (rw append-nil)
    ])
  ]

  split_head :
      (b : Bool) (v : MethodologyValue N) (xs : List (MethodologyValue N))
      → (if b then v ∷ [] else []) ++ xs ≡ (if b then v ∷ xs else xs)
  split_head true v xs = refl
  split_head false v xs = refl

  -- What the loop collects for a dependency are its values, in their order.
  get_list-collect :
      (dependencies : List Text) (k : Text) (values : List (MethodologyValue N))
      (d : Dict (List (MethodologyValue N)))
      → contains dependencies k ≡ true
      → get_list k (collect dependencies values d) ≡ get_list k d ++ filter (of_field k) values
  unfolding collect
  get_list-collect dependencies k [] d h = rw append-nil
  get_list-collect dependencies k (v ∷ vs) d h = rw (get_list-collect dependencies k vs _ h) (
      rw (get_list-turn dependencies k v.methodology_field_id v d h)
        (rw append_assoc (rw split_head)))

  -- The values of the dependencies among all values.
  abbrev pub values_of_fields : List Text → List (MethodologyValue N) → List (MethodologyValue N)
  values_of_fields ks values = concat_map (λ k. filter (of_field k) values) ks

  sources-within :
      (dependencies ks : List Text) (values : List (MethodologyValue N))
      → All (λ k. contains dependencies k ≡ true) ks
      → concat_map (λ k. get_list k (collect dependencies values [])) ks
        ≡ values_of_fields ks values
  unfolding get_list
  sources-within dependencies [] values h = refl
  sources-within dependencies (k ∷ ks) values h =
      ap₂ ◌++◌ (get_list-collect dependencies k values [] h.0)
        (sources-within dependencies ks values h.1)

contains-weaken :
    (x : Text) (xs ks : List Text)
    → All (λ k. contains xs k ≡ true) ks
    → All (λ k. contains (x ∷ xs) k ≡ true) ks
contains-weaken x xs [] h = tt
contains-weaken x xs (k ∷ ks) h = (ground arith, contains-weaken x xs ks h.1)

contains_self : (xs : List Text) → All (λ k. contains xs k ≡ true) xs
contains_self [] = tt
contains_self (x ∷ xs) = (rw (eq_refl x), contains-weaken x xs xs (contains_self xs))

module _ {N : Type 0} where
  source_values-eq :
      (dependencies : List Text) (values : List (MethodologyValue N))
      → source_values dependencies (values_for_dependencies values dependencies)
        ≡ values_of_fields dependencies values
  unfolding source_values values_for_dependencies
  source_values-eq dependencies values =
      sources-within dependencies dependencies values (contains_self dependencies)

-- What the registry says of a dependency that a row may be derived from.
abbrev pub Resolves : Registry → SchemaRow → Text → Type 0
Resolves registry row k =
    (dependency : SchemaRow) × (get_row registry k ≡ some dependency)
    × (same_layer dependency.layer row.layer ≡ true)

dependencies_resolve :
    (registry : Registry) (row : SchemaRow) (ks : List Text)
    → any (is_unresolved registry) ks ≡ false
    → any (λ k. other_layer row (get_row registry k)) ks ≡ false
    → All (Resolves registry row) ks
dependencies_resolve registry row [] h h' = tt
dependencies_resolve registry row (k ∷ ks) h h' = (
  resolves (get_row registry k) refl,
  dependencies_resolve registry row ks (ground arith) (ground arith),
)
  where
    resolves : (o : Option SchemaRow) → get_row registry k ≡ o → Resolves registry row k
    resolves none e = absurd (ground arith)
    resolves (some dependency) e = (dependency, e, ground arith)

module _ {N : Type 0} ⦃numbers : Numbers N⦄ where
  passed_guards :
      (registry : Registry) (row : SchemaRow) (values : List (MethodologyValue N))
      → (derive_row registry row values).status ≡ derived
      → (contains row.derived_from row.field_id ≡ false)
        × (any (is_unresolved registry) row.derived_from ≡ false)
        × (any (λ k. other_layer row (get_row registry k)) row.derived_from ≡ false)
        × (derive_row registry row values
            ≡ combine row
                (source_values row.derived_from (values_for_dependencies values row.derived_from)))
  unfolding derive_row
  passed_guards registry row values h = ground arith

  -- A field is derived only from fields of its own layer that the registry has, never from itself,
  -- and from all the values of these fields, field by field.
  pub derived_from_values :
      (registry : Registry) (row : SchemaRow) (values : List (MethodologyValue N))
      → (derive_row registry row values).status ≡ derived
      → All (Resolves registry row) row.derived_from
        × (contains row.derived_from row.field_id ≡ false)
        × (derive_row registry row values ≡ combine row (values_of_fields row.derived_from values))
  derived_from_values registry row values h =
      let guards = passed_guards registry row values h in
      (
        dependencies_resolve registry row row.derived_from guards.1 guards.2,
        guards.0,
        guards.3 ∙ ap (combine row) (source_values-eq row.derived_from values),
      )
