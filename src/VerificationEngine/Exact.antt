-- ===== src/VerificationEngine/Exact.antt =====
-- When a rule passes and when it fails.
use sustentra_platform.Prelude.{
  ◌≡◌, ◌≢◌, ◌↔◌, ◌⊎◌, true, false, List, [], ◌∷◌, filter, is_empty, arith, All,
}
use sustentra_platform.Text.{Text, lit, ◌==◌, eq_iff}
use sustentra_platform.Methodology.Types.{Rule, MethodologyValue}
use sustentra_platform.Methodology.ValueIndex.{values_of, evidences, values_of-filter}
use sustentra_platform.VerificationEngine.{
  passed, failed, type_name, is_limit, is_executable, missing_fields, evaluate_rule,
}

-- The types that the engine executes.
abbrev pub Executable : Rule → Type 0
Executable rule =
    (type_name rule ≡ lit "guard")
    ⊎ ((type_name rule ≡ lit "gate") ⊎ (type_name rule ≡ lit "invariant"))

is_executable_iff : (rule : Rule) → (is_executable (type_name rule) ≡ true) ↔ Executable rule
unfolding is_executable
is_executable_iff rule = ground (
  arith,
  eq_iff (type_name rule) (lit "guard"),
  eq_iff (type_name rule) (lit "gate"),
  eq_iff (type_name rule) (lit "invariant"),
)

limit_or_executable : (t : Text) → is_executable t ≡ true → is_limit t ≡ false
unfolding is_executable is_limit ◌==◌
limit_or_executable t h = ground (
  arith,
  eq_iff t (lit "guard"),
  eq_iff t (lit "gate"),
  eq_iff t (lit "invariant"),
  eq_iff t (lit "limit"),
)

-- The tests of the code in front of the look for missing fields.
abbrev Checked : Rule → Type 0
Checked rule =
    (rule.is_provisional ≡ false)
    × (rule.resolvable_applies_to ≢ [])
    × (is_executable (type_name rule) ≡ true)

module _ {N : Type 0} where
  -- Every field of the rule has a usable value.
  abbrev pub Supported : List Text → List (MethodologyValue N) → Type 0
  Supported fields values = All (λ k. filter (evidences k) values ≢ []) fields

  none_missing_iff :
      (fields : List Text) (values : List (MethodologyValue N))
      → (filter (λ k. is_empty (values_of values k)) fields ≡ []) ↔ Supported fields values
  none_missing_iff [] values = ground arith
  none_missing_iff (k ∷ ks) values =
      ground (arith, values_of-filter values k, none_missing_iff ks values)

  missing_iff :
      (rule : Rule) (values : List (MethodologyValue N))
      → (missing_fields rule values ≡ []) ↔ Supported rule.resolvable_applies_to values
  unfolding missing_fields
  missing_iff rule values = none_missing_iff rule.resolvable_applies_to values

  passed_tests :
      (rule : Rule) (values : List (MethodologyValue N))
      → ((evaluate_rule rule values).status ≡ passed)
        ↔ (Checked rule × (missing_fields rule values ≡ []))
  unfolding evaluate_rule
  passed_tests rule values = ground (arith, limit_or_executable (type_name rule))

  failed_tests :
      (rule : Rule) (values : List (MethodologyValue N))
      → ((evaluate_rule rule values).status ≡ failed)
        ↔ (Checked rule × (missing_fields rule values ≢ []))
  unfolding evaluate_rule
  failed_tests rule values = ground (arith, limit_or_executable (type_name rule))

  -- A rule passes exactly when it is confirmed, names a concrete field, is a guard, a gate or an
  -- invariant, and every concrete field of it has a usable value.
  pub passed_iff :
      (rule : Rule) (values : List (MethodologyValue N))
      → ((evaluate_rule rule values).status ≡ passed) ↔ (
          (rule.is_provisional ≡ false)
          × (rule.resolvable_applies_to ≢ [])
          × Executable rule
          × Supported rule.resolvable_applies_to values)
  passed_iff rule values = (
    λ h.
        let (checks, none_missing) = (passed_tests rule values).0 h in
        (
          checks.0,
          checks.1,
          (is_executable_iff rule).0 checks.2,
          (missing_iff rule values).0 none_missing,
        ),
    λ h.
        (passed_tests rule values).1
          ((h.0, h.1, (is_executable_iff rule).1 h.2), (missing_iff rule values).1 h.3),
  )

  -- A rule fails exactly when it is confirmed, names a concrete field, is a guard, a gate or an
  -- invariant, and some concrete field of it has no usable value.
  pub failed_iff :
      (rule : Rule) (values : List (MethodologyValue N))
      → ((evaluate_rule rule values).status ≡ failed) ↔ (
          (rule.is_provisional ≡ false)
          × (rule.resolvable_applies_to ≢ [])
          × Executable rule
          × (¬ Supported rule.resolvable_applies_to values))
  failed_iff rule values = (
    λ h.
        let (checks, missing) = (failed_tests rule values).0 h in
        (
          checks.0,
          checks.1,
          (is_executable_iff rule).0 checks.2,
          λ all. missing ((missing_iff rule values).1 all),
        ),
    λ h. (failed_tests rule values).1 (
      (h.0, h.1, (is_executable_iff rule).1 h.2),
      λ none_missing. h.3 ((missing_iff rule values).0 none_missing),
    ),
  )
