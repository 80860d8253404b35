-- ===== src/Condition/Tests.antt =====
-- Conditions run on concrete values, and the theorems at such inputs.
use sustentra_platform.Prelude.{ℕ, ◌≡◌, ◌≢◌, refl, true, some, List, [], ◌∷◌}
use sustentra_platform.Text.{lit, has_content, normalize, ◌==◌}
use sustentra_platform.Value.{Value, text}
use sustentra_platform.Dict.{text_key, Dict, get}
use sustentra_platform.Samples.{whole}
use sustentra_platform.Condition.Token.{ok, out_of_fuel}
use sustentra_platform.Condition.Tokenizer.{tokenize}
use sustentra_platform.Condition.Parser.{
  parse_expression, expect_end, peek, consume, consume_value, more_values, parse_comparison,
  equals_value, one_of_values, actual, normalize_value,
}
use sustentra_platform.Condition.Grammar.{
  name, Expression, expression, no_more, or_also, Term, term, done, field_equals, emit_expression,
  emit_term, disj_token,
}
use sustentra_platform.Condition.Meaning.{known_expression, undecided_expression, truth_expression}
use sustentra_platform.Condition.Evaluator.{
  applicable, unsupported_condition, unknown_value, run_tokens, run_text, conclude, evaluate,
}
use sustentra_platform.Condition.Exact.{evaluate_exact, run_text_terminates}
use sustentra_platform.Condition.Dangling.{dangling_or}

abbrev answers : Dict (Value ℕ)
answers =
    (lit "A", text (lit "No")) ∷ (lit "B", text (lit " YES")) ∷ (lit "C", text (lit "yes")) ∷ []

abbrev is_yes : List ℕ → Term
is_yes field = term (field_equals field (name (lit "yes"))) done

-- A = yes OR B = yes
abbrev first_false : Expression
first_false = expression (is_yes (lit "A")) (or_also (is_yes (lit "B")) no_more)

-- B = yes OR A = yes
abbrev first_true : Expression
first_true = expression (is_yes (lit "B")) (or_also (is_yes (lit "A")) no_more)

evaluate_exact_example : (evaluate answers (some (lit "A = yes OR B = yes"))).status ≡ applicable
unfolding tokenize emit_expression has_content known_expression undecided_expression
    truth_expression actual get ◌==◌ normalize normalize_value
evaluate_exact_example =
    evaluate_exact answers (lit "A = yes OR B = yes") first_false refl refl refl

-- The same two comparisons in the other order are reported as unsupported.
swapped : (evaluate answers (some (lit "B = yes OR A = yes"))).status ≡ unsupported_condition
unfolding tokenize emit_expression has_content known_expression undecided_expression
    truth_expression actual get ◌==◌ normalize normalize_value
swapped = evaluate_exact answers (lit "B = yes OR A = yes") first_true refl refl refl

-- test_and_or_precedence
and_or_precedence :
    (evaluate answers (some (lit "A = yes OR B = yes AND C = yes"))).status ≡ applicable
unfolding evaluate run_text run_tokens conclude tokenize has_content parse_expression expect_end
    peek consume consume_value parse_comparison equals_value actual get ◌==◌ normalize
    normalize_value
and_or_precedence = refl

missing_field : (evaluate answers (some (lit "D IN (yes, 'no')"))).status ≡ unknown_value
unfolding evaluate run_text run_tokens conclude tokenize has_content parse_expression expect_end
    peek consume consume_value more_values parse_comparison one_of_values actual get ◌==◌ normalize
    normalize_value
missing_field = refl

run_text_terminates_example : run_text answers (lit "A = 1 OR OR") ≢ out_of_fuel
run_text_terminates_example = run_text_terminates answers (lit "A = 1 OR OR")

dangling_or_example : run_tokens answers (emit_term (is_yes (lit "B")) (disj_token ∷ [])) ≡ ok true
unfolding known_expression undecided_expression truth_expression actual get ◌==◌ normalize
    normalize_value
dangling_or_example = dangling_or answers (is_yes (lit "B")) refl refl refl
