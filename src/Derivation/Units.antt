-- ===== src/Derivation/Units.antt =====
-- The unit of a derived value.
use sustentra_platform.Prelude.{
  ◌≡◌, ◌⊎◌, refl, true, Option, none, some, List, [], ◌∷◌, map, arith, All, Bool-cases, inl, inr,
}
use sustentra_platform.Text.{Text, eq_iff, eq_refl}
use sustentra_platform.Value.{Numbers}
use sustentra_platform.Dict.{text_key}
use sustentra_platform.Methodology.Types.{SchemaRow, MethodologyValue}
use sustentra_platform.Derivation.{
  derived, contains, add_unit, distinct_units, at_most_one, first_unit, combine, derive_sum,
  all_some, as_number,
}

-- What the list of the units holds of a value.
abbrev UnitListed : {N : Type 0} → List Text → MethodologyValue N → Type 0
UnitListed units v =
    (v.approved_unit ≡ none) ⊎ ((u : Text) × (v.approved_unit ≡ some u) × (contains units u ≡ true))

-- The value has no unit, or this one.
abbrev pub UnitIs : {N : Type 0} → Option Text → MethodologyValue N → Type 0
UnitIs unit v = (v.approved_unit ≡ none) ⊎ (v.approved_unit ≡ unit)

contains-add_unit :
    (o : Option Text) (us : List Text) (k : Text)
    → contains us k ≡ true
    → contains (add_unit o us) k ≡ true
contains-add_unit none us k h = h
contains-add_unit (some u) us k h = ground arith

contains_added : (u : Text) (us : List Text) → contains (add_unit (some u) us) u ≡ true
contains_added u us = ground (arith, eq_refl u)

listed_head :
    (o : Option Text) (us : List Text)
    → (o ≡ none) ⊎ ((u : Text) × (o ≡ some u) × (contains (add_unit o us) u ≡ true))
listed_head none us = inl refl
listed_head (some u) us = inr (u, refl, contains_added u us)

module _ {N : Type 0} where
  listed-weaken :
      (o : Option Text) (us : List Text) (v : MethodologyValue N)
      → UnitListed us v
      → UnitListed (add_unit o us) v
  listed-weaken o us v (inl e) = inl e
  listed-weaken o us v (inr (u, e, h)) = inr (u, e, contains-add_unit o us u h)

  each_listed-weaken :
      (o : Option Text) (us : List Text) (vs : List (MethodologyValue N))
      → All (UnitListed us) vs
      → All (UnitListed (add_unit o us)) vs
  each_listed-weaken o us [] h = tt
  each_listed-weaken o us (v ∷ vs) h = (listed-weaken o us v h.0, each_listed-weaken o us vs h.1)

  each_listed : (vs : List (MethodologyValue N)) → All (UnitListed (distinct_units vs)) vs
  unfolding distinct_units
  each_listed [] = tt
  each_listed (v ∷ vs) = (
    listed_head v.approved_unit (distinct_units vs),
    each_listed-weaken v.approved_unit (distinct_units vs) vs (each_listed vs),
  )

  one_unit :
      (us : List Text) (v : MethodologyValue N)
      → at_most_one us ≡ true
      → UnitListed us v
      → UnitIs (first_unit us) v
  one_unit us v h (inl e) = inl e
  one_unit [] v h (inr (u, e, c)) = absurd (ground arith)
  one_unit (w ∷ []) v h (inr (u, e, c)) = inr (ground (arith, eq_iff w u))
  one_unit (w ∷ x ∷ us) v h (inr l) = absurd (ground arith)

  each_one_unit :
      (us : List Text) (vs : List (MethodologyValue N))
      → at_most_one us ≡ true
      → All (UnitListed us) vs
      → All (UnitIs (first_unit us)) vs
  each_one_unit us [] h a = tt
  each_one_unit us (v ∷ vs) h a = (one_unit us v h a.0, each_one_unit us vs h a.1)

module _ {N : Type 0} ⦃numbers : Numbers N⦄ where
  sum_unit :
      (row : SchemaRow) (vs : List (MethodologyValue N)) (o : Option (List N))
      → (derive_sum row vs o).status ≡ derived
      → All (UnitIs (derive_sum row vs o).derived_unit) vs
  unfolding derive_sum
  sum_unit row vs none h = cc
  sum_unit row vs (some ns) h = elim (Bool-cases (at_most_one (distinct_units vs))) [
    | inl e ↦ rw e (each_one_unit (distinct_units vs) vs e (each_listed vs))
    | inr e ↦ cc (rw e at h)
  ]

  -- A derived value never mixes units: every value that it is made from has the unit of the result,
  -- or has none.
  pub derived_unit_agrees :
      (row : SchemaRow) (vs : List (MethodologyValue N))
      → (combine row vs).status ≡ derived
      → All (UnitIs (combine row vs).derived_unit) vs
  unfolding combine
  derived_unit_agrees row [] h = tt
  derived_unit_agrees row (v ∷ []) h = (inr refl, tt)
  derived_unit_agrees row (v ∷ w ∷ vs) h =
      sum_unit row (v ∷ w ∷ vs) (all_some (map (λ x. as_number x.approved_value) (v ∷ w ∷ vs))) h
