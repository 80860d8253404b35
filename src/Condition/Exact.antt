-- ===== src/Condition/Exact.antt =====
-- What `evaluate` answers on the conditions of the documented grammar.
use sustentra_platform.Prelude.{
  ℕ, ◌≡◌, ◌≢◌, refl, Bool, true, false, [], ◌∷◌, arith, if◌then◌else◌, some,
}
use sustentra_platform.Text.{Text, has_content}
use sustentra_platform.Value.{Numbers, Value}
use sustentra_platform.Dict.{Dict}
use sustentra_platform.Condition.Token.{Outcome, ok, unsupported, unknown, out_of_fuel, bind}
use sustentra_platform.Condition.Tokenizer.{tokenize}
use sustentra_platform.Condition.Tokenizer.Progress.{tokenize_terminates}
use sustentra_platform.Condition.Parser.{Tokens, parse_expression, expect_end, peek}
use sustentra_platform.Condition.Fuel.{Reads, parse_expression-Reads}
use sustentra_platform.Condition.Grammar.{
  Expression, Factor, group, field_equals, field_in, emit_expression, emit_factor,
}
use sustentra_platform.Condition.Reading.{Reading, clean, stopped, finish, read_expression}
use sustentra_platform.Condition.Reads.{parse_expression-emit}
use sustentra_platform.Condition.Meaning.{known_expression, truth_expression, undecided_expression}
use sustentra_platform.Condition.Agrees.{Skips, Agrees, read_expression-Agrees}
use sustentra_platform.Condition.Evaluator.{
  Status, applicable, not_applicable, unsupported_condition, run_tokens, run_text, conclude,
  evaluate, fuel_for,
}

abbrev pub answer : Bool → Bool → Status
answer undecided truth =
    if undecided then (if truth then applicable else not_applicable) else unsupported_condition

-- The end of the input, looked for behind an answer.
abbrev ended : Outcome Reading → Outcome Bool
ended o = bind (finish o []) λ p. bind (expect_end p.1) λ u. ok p.0

expect_end-factor :
    (b : Bool) (φ : Factor) (ts : Tokens) (c : Text)
    → (conclude c (bind (expect_end (emit_factor φ ts)) λ u. ok b)).status ≡ unsupported_condition
unfolding expect_end emit_factor conclude
expect_end-factor b (group e) ts c = refl
expect_end-factor b (field_equals x o) ts c = refl
expect_end-factor b (field_in x o os) ts c = refl

answer-Skips :
    (o : Outcome Reading) (c : Text)
    → Skips o
    → (conclude c (ended o)).status ≡ unsupported_condition
unfolding conclude
answer-Skips (ok (clean b)) c h = absurd h
answer-Skips (ok (stopped b φ ts)) c h = expect_end-factor b φ ts c
answer-Skips (unsupported r) c h = refl
answer-Skips (unknown r) c h = absurd h
answer-Skips out_of_fuel c h = absurd h

answer-Agrees :
    (u t : Bool) (o : Outcome Reading) (c : Text)
    → Agrees u t o
    → (conclude c (ended o)).status ≡ answer u t
unfolding conclude expect_end
answer-Agrees true true o c h = rw h
answer-Agrees true false o c h = rw h
answer-Agrees false t o c h = answer-Skips o c h

ended_within :
    (n : ℕ) (o : Outcome (Bool × Tokens))
    → Reads n o
    → (bind o λ p. bind (expect_end p.1) λ u. ok p.0) ≢ out_of_fuel
unfolding expect_end
ended_within n (ok (b, [])) r = cc
ended_within n (ok (b, t ∷ ts)) r = cc
ended_within n (unsupported m) r = cc
ended_within n (unknown m) r = cc
ended_within n out_of_fuel r = absurd r

bind_terminates :
    (o : Outcome Tokens) (k : Tokens → Outcome Bool)
    → o ≢ out_of_fuel
    → ((ts : Tokens) → k ts ≢ out_of_fuel)
    → bind o k ≢ out_of_fuel
bind_terminates (ok ts) k h g = g ts
bind_terminates (unsupported r) k h g = cc
bind_terminates (unknown r) k h g = cc
bind_terminates out_of_fuel k h g = absurd (h refl)

module _ {N : Type 0} ⦃numbers : Numbers N⦄ (values : Dict (Value N)) where
  run_tokens-emit :
      (e : Expression)
      → run_tokens values (emit_expression e []) ≡ ended (read_expression values e [])
  unfolding run_tokens
  run_tokens-emit e =
      unfold peek in
      rw (
        parse_expression-emit values e [] (fuel_for (emit_expression e [])) (omega arith) refl refl)

  -- The evaluator never runs out of fuel, on any list of tokens.
  pub run_tokens_terminates : (ts : Tokens) → run_tokens values ts ≢ out_of_fuel
  unfolding run_tokens expect_end
  run_tokens_terminates ts h =
      ended_within _ (parse_expression values (fuel_for ts) ts)
        (parse_expression-Reads values (fuel_for ts) ts (omega arith)) h

  -- Evaluating a condition ends on every text: neither the tokenizer nor the parser runs out of fuel.
  pub run_text_terminates : (c : Text) → run_text values c ≢ out_of_fuel
  unfolding run_text
  run_text_terminates c =
      bind_terminates (tokenize c) _ (tokenize_terminates c) (λ ts. run_tokens_terminates ts)

  -- A text that reads as the tokens of a tree of the grammar, all of whose fields have values, is
  -- answered with the truth value of the tree where no operand in front of another decides its OR
  -- or AND; otherwise it is reported as unsupported.
  pub evaluate_exact :
      (c : Text) (e : Expression)
      → has_content c ≡ true
      → tokenize c ≡ ok (emit_expression e [])
      → known_expression values e ≡ true
      → (evaluate values (some c)).status
        ≡ answer (undecided_expression values e) (truth_expression values e)
  unfolding evaluate run_text
  evaluate_exact c e content tokens known =
      rw (content, tokens, run_tokens-emit)
        (answer-Agrees _ _ (read_expression values e []) c
          (read_expression-Agrees values e [] known))
