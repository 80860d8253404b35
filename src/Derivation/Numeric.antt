-- ===== src/Derivation/Numeric.antt =====
-- `_as_number`: what counts as a number in a sum.
use sustentra_platform.Prelude.{Option, none, some, [], ◌∷◌, nat_eq, if◌then◌else◌}
use sustentra_platform.Text.{Text}
use sustentra_platform.Value.{Numbers, Value, null, bool, text, number}

-- `value.replace(",", "")`
unfoldable pub without_commas : Text → Text
without_commas [] = []
without_commas (c ∷ s) = let rest = without_commas s in if nat_eq c b',' then rest else c ∷ rest

unfoldable pub as_number : {N : Type 0} ⦃numbers : Numbers N⦄ → Value N → Option N
unfolding without_commas
as_number null = none
as_number (bool b) = none
as_number (number n) = some n
as_number ⦃numbers⦄ (text s) = elim (numbers.parse_float (without_commas s)) [
  | none ↦ none
  | some x ↦ some (numbers.integral x)
]
