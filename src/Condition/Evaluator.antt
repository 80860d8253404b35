-- ===== src/Condition/Evaluator.antt =====
-- `ConditionEvaluator.evaluate`: tokens, one expression, the end, and the two exceptions turned into
-- statuses.
use sustentra_platform.Prelude.{
  ℕ, ◌+◌, ◌*◌, Bool, true, false, Option, none, some, length, if◌then◌else◌,
}
use sustentra_platform.Text.{Text, has_content}
use sustentra_platform.Value.{Numbers, Value}
use sustentra_platform.Dict.{Dict}
use sustentra_platform.Condition.Token.{
  Reason, Outcome, ok, unsupported, unknown, out_of_fuel, bind,
}
use sustentra_platform.Condition.Tokenizer.{tokenize}
use sustentra_platform.Condition.Parser.{Tokens, parse_expression, expect_end}

-- `ConditionStatus`
pub data Status : Type 0 where
  applicable not_applicable unknown_value unsupported_condition : Status

pub data ResultReason : Type 0 where
  blank_condition : ResultReason
  raised : Reason → ResultReason

-- `ConditionEvaluationResult`
pub record EvaluationResult : Type 0 where
  pub status : Status
  pub condition : Option Text
  pub reason : Option ResultReason

-- Each token costs at most three calls.
abbrev pub fuel_for : Tokens → ℕ
fuel_for ts = 3 * length ts + 3

-- The end of `evaluate` and its `except` clauses. Running out of fuel does not occur
-- (`run_tokens_terminates`).
unfoldable pub conclude : Text → Outcome Bool → EvaluationResult
conclude c (ok true) = record { status = applicable; condition = some c; reason = none }
conclude c (ok false) = record { status = not_applicable; condition = some c; reason = none }
conclude c (unsupported r) = record {
  status = unsupported_condition;
  condition = some c;
  reason = some (raised r);
}
conclude c (unknown r) = record {
  status = unknown_value;
  condition = some c;
  reason = some (raised r);
}
conclude c out_of_fuel = record {
  status = unsupported_condition;
  condition = some c;
  reason = none;
}

module _ {N : Type 0} ⦃numbers : Numbers N⦄ (values : Dict (Value N)) where
  -- `parser.parse_expression()`, `parser.expect_end()`
  unfoldable pub run_tokens : Tokens → Outcome Bool
  run_tokens ts =
      bind (parse_expression values (fuel_for ts) ts) λ p. bind (expect_end p.1) λ u. ok p.0

  unfoldable pub run_text : Text → Outcome Bool
  run_text c = bind (tokenize c) λ ts. run_tokens ts

  unfoldable pub evaluate : Option Text → EvaluationResult
  evaluate none = record { status = applicable; condition = none; reason = some blank_condition }
  evaluate (some c) =
      if has_content c
      then conclude c (run_text c)
      else record { status = applicable; condition = some c; reason = some blank_condition }
