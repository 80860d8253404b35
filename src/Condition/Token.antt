-- ===== src/Condition/Token.antt =====
-- Tokens, the two exceptions and the result of a step of the evaluator.
use sustentra_platform.Prelude.{Bool, true, false}
use sustentra_platform.Text.{Text}

-- `_Token.kind`: AND, OR, IN, IDENT, VALUE, =, (, ) and the comma.
pub data Kind : Type 0 where
  conj disj membership ident value equals open_paren close_paren comma : Kind

pub record Token : Type 0 where
  pub kind : Kind
  pub text : Text

abbrev pub same_kind : Kind → Kind → Bool
same_kind conj conj = true
same_kind disj disj = true
same_kind membership membership = true
same_kind ident ident = true
same_kind value value = true
same_kind equals equals = true
same_kind open_paren open_paren = true
same_kind close_paren close_paren = true
same_kind comma comma = true
same_kind _ _ = false

-- The messages, one constructor for each format string.
pub data Reason : Type 0 where
  syntax_near : Text → Reason
  expected : Kind → Text → Reason
  expected_operator : Text → Reason
  unexpected_token : Text → Reason
  missing_value : Text → Reason

-- `unsupported` and `unknown` are the raised `_UnsupportedCondition` and `_UnknownCondition`;
-- `out_of_fuel` has no counterpart in the program.
pub data Outcome {ℓ} (A : Type ℓ) : Type ℓ where
  ok : A → Outcome A
  unsupported unknown : Reason → Outcome A
  out_of_fuel : Outcome A

abbrev pub bind {ℓ κ} : {A : Type ℓ} {B : Type κ} → Outcome A → (A → Outcome B) → Outcome B
bind (ok a) f = f a
bind (unsupported r) f = unsupported r
bind (unknown r) f = unknown r
bind out_of_fuel f = out_of_fuel

abbrev pub is_out_of_fuel {ℓ} : {A : Type ℓ} → Outcome A → Bool
is_out_of_fuel out_of_fuel = true
is_out_of_fuel (ok a) = false
is_out_of_fuel (unsupported r) = false
is_out_of_fuel (unknown r) = false
