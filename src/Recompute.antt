-- ===== src/Recompute.antt =====
-- The recomputation of reported emissions (backend/app/services/recompute_service.py), over the
-- arithmetic of `Numbers`.
mod Tests
use sustentra_platform.Prelude.{
  ◌≡◌, ◌↔◌, ◌⊎◌, inl, inr, refl, Bool, true, false, not, Option, none, some, List, [], ◌∷◌, ◌++◌,
  String, is_some, is_empty, arith, if◌then◌else◌,
}
use sustentra_platform.Text.{Text, lit, strip}
use sustentra_platform.Value.{Numbers, Value, null, bool, text, number}
use sustentra_platform.Derivation.{without_commas}

-- `RecomputeStatus`
pub data RecomputeStatus : Type 0 where
  matched mismatch missing_input unsupported : RecomputeStatus

-- The keys that are read of an input value.
pub record Input (N : Type 0) : Type 0 where
  pub methodology_value_id : Option Text
  pub approved_value : Value N
  pub approved_unit : Option Text

-- `RecomputeResult`; the path is the one constant STATIONARY_FUEL_PATH.
pub record RecomputeResult (N : Type 0) : Type 0 where
  pub status : RecomputeStatus
  pub computed_value : Option N
  pub reported_value : Option N
  pub delta : Option N
  pub unit : Option Text
  pub input_ids : List Text
  pub missing : List Text

-- One input of `_ids`: an id that is there and not empty.
abbrev pub id_of : {N : Type 0} → Input N → List Text
id_of v = elim v.methodology_value_id [
  | none ↦ []
  | some s ↦ if not (is_empty s) then s ∷ [] else []
]

module _ {N : Type 0} ⦃numbers : Numbers N⦄ where
  -- `_number`
  unfoldable pub to_number : Value N → Option N
  unfolding strip
  to_number null = none
  to_number (bool b) = none
  to_number (number n) = some (numbers.to_float n)
  to_number (text s) = numbers.parse_float (strip (without_commas s))

  unfoldable pub compare_numbers :
      Input N → Input N → Input N → Option N → Option N → Option N → RecomputeResult N
  compare_numbers quantity factor reported (some q) (some f) (some r) =
      let computed = numbers.mul q f in
      let delta = numbers.sub r computed in
      record {
        status = if numbers.is_zero delta then matched else mismatch;
        computed_value = some computed;
        reported_value = some r;
        delta = some delta;
        unit = reported.approved_unit;
        input_ids = id_of quantity ++ (id_of factor ++ id_of reported);
        missing = [];
      }
  compare_numbers quantity factor reported q f r = record {
    status = unsupported;
    computed_value = none;
    reported_value = r;
    delta = none;
    unit = reported.approved_unit;
    input_ids = id_of quantity ++ (id_of factor ++ id_of reported);
    missing = [];
  }

  abbrev missing_name : String → Option (Input N) → List Text
  missing_name name none = lit name ∷ []
  missing_name name (some v) = []

  -- `recompute_stationary_fuel_emissions`
  unfoldable pub recompute :
      Option (Input N) → Option (Input N) → Option (Input N) → RecomputeResult N
  unfolding to_number compare_numbers
  recompute (some quantity) (some factor) (some reported) =
      compare_numbers quantity factor reported (to_number quantity.approved_value)
        (to_number factor.approved_value) (to_number reported.approved_value)
  recompute quantity factor reported = record {
    status = missing_input;
    computed_value = none;
    reported_value = none;
    delta = none;
    unit = none;
    input_ids = [];
    missing =
        missing_name "fuel_quantity" quantity
        ++ (missing_name "emission_factor" factor ++ missing_name "reported_emissions" reported);
  }

  compare_iff :
      (quantity factor reported : Input N) (a b c : Option N)
      → ((compare_numbers quantity factor reported a b c).status ≡ matched) ↔ (
          (q : N) × (f : N) × (r : N) × (a ≡ some q)
          × (b ≡ some f)
          × (c ≡ some r)
          × (numbers.is_zero (numbers.sub r (numbers.mul q f)) ≡ true))
  unfolding compare_numbers
  compare_iff quantity factor reported (some q) (some f) (some r) =
      (λ h. (q, f, r, refl, refl, refl, ground arith), λ h. ground arith)
  compare_iff quantity factor reported none b c = (λ h. cc, λ h. ground arith)
  compare_iff quantity factor reported (some q) none c = (λ h. cc, λ h. ground arith)
  compare_iff quantity factor reported (some q) (some f) none = (λ h. cc, λ h. ground arith)

  -- With all inputs there, the report is matched exactly when the three are numbers and the difference
  -- between the reported emissions and quantity times factor is zero.
  pub recompute_iff :
      (quantity factor reported : Input N)
      → ((recompute (some quantity) (some factor) (some reported)).status ≡ matched) ↔ (
          (q : N) × (f : N) × (r : N) × (to_number quantity.approved_value ≡ some q)
          × (to_number factor.approved_value ≡ some f)
          × (to_number reported.approved_value ≡ some r)
          × (numbers.is_zero (numbers.sub r (numbers.mul q f)) ≡ true))
  unfolding recompute
  recompute_iff quantity factor reported =
      compare_iff quantity factor reported (to_number quantity.approved_value)
        (to_number factor.approved_value) (to_number reported.approved_value)
