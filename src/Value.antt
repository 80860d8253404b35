-- ===== src/Value.antt =====
-- The scalar values that evidence carries (`str | float | int | bool | None`, for example in
-- backend/app/domain/methodology_value.py), over an abstract type of numbers.
use sustentra_platform.Prelude.{Bool, true, false, Option}
use sustentra_platform.Text.{Text, has_content}

-- Python's built-in `int` and `float`, with what the services use of them: `str`, `float(s)` (`none`
-- for a ValueError), `int(x) if x.is_integer() else x`, `float(x)`, and the arithmetic.
pub record Numbers (N : Type 0) : Type 0 where
  pub show : N → Text
  pub parse_float : Text → Option N
  pub integral : N → N
  pub to_float : N → N
  pub zero : N
  pub add : N → N → N
  pub sub : N → N → N
  pub mul : N → N → N
  pub is_zero : N → Bool

pub data Value (N : Type 0) : Type 0 where
  null : Value N
  bool : Bool → Value N
  text : Text → Value N
  number : N → Value N

-- `_has_populated_value`
unfoldable pub has_populated_value : {N : Type 0} → Value N → Bool
has_populated_value null = false
has_populated_value (text s) = has_content s
has_populated_value (bool b) = true
has_populated_value (number n) = true
