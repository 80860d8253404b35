-- ===== src/Condition/Reading.antt =====
-- What the parser makes of the tokens of a tree, told along the tree: it comes to the end of the
-- tree, or it stops in front of the first operand that Python's `or` or `and` does not evaluate.
use sustentra_platform.Prelude.{Bool, true, false, ◌∷◌, map}
use sustentra_platform.Value.{Numbers, Value}
use sustentra_platform.Dict.{Dict}
use sustentra_platform.Condition.Token.{close_paren, Outcome, ok, unsupported, bind, expected}
use sustentra_platform.Condition.Parser.{Tokens, next_text, equals_value, one_of_values}
use sustentra_platform.Condition.Grammar.{
  operand_text, Expression, expression, Alternatives, no_more, or_also, Term, term, Conjuncts, done,
  and_also, Factor, group, field_equals, field_in, emit_alternatives, emit_conjuncts, emit_factor,
  close_token,
}

-- `stopped b φ ts`: the answer is `b`, and `φ` and `ts` are not read.
pub data Reading : Type 0 where
  clean : Bool → Reading
  stopped : Bool → Factor → Tokens → Reading

-- The answer and the tokens left of those that follow the tree.
abbrev pub after : Reading → Tokens → Bool × Tokens
after (clean b) rest = (b, rest)
after (stopped b φ ts) rest = (b, emit_factor φ ts)

abbrev pub finish : Outcome Reading → Tokens → Outcome (Bool × Tokens)
finish o rest = bind o λ r. ok (after r rest)

-- Go on from a clean answer.
abbrev pub resume : (Bool → Outcome Reading) → Reading → Outcome Reading
resume k (clean b) = k b
resume k (stopped b φ ts) = ok (stopped b φ ts)

-- A closing parenthesis is looked for behind the answer.
abbrev pub close : Reading → Outcome Reading
close (clean b) = ok (clean b)
close (stopped b φ ts) = unsupported (expected close_paren (next_text (emit_factor φ ts)))

module _ {N : Type 0} ⦃numbers : Numbers N⦄ (values : Dict (Value N)) where
  unfoldable mutual
    pub read_expression : Expression → Tokens → Outcome Reading
    read_expression (expression t os) rest =
        bind (read_term t (emit_alternatives os rest)) (resume λ b. read_alternatives os b rest)

    pub read_alternatives : Alternatives → Bool → Tokens → Outcome Reading
    read_alternatives no_more b rest = ok (clean b)
    read_alternatives (or_also t os) false rest =
        bind (read_term t (emit_alternatives os rest)) (resume λ b. read_alternatives os b rest)
    read_alternatives (or_also t os) true rest = skip_term t (emit_alternatives os rest)

    pub skip_term : Term → Tokens → Outcome Reading
    skip_term (term φ cs) rest = ok (stopped true φ (emit_conjuncts cs rest))

    pub read_term : Term → Tokens → Outcome Reading
    read_term (term φ cs) rest =
        bind (read_factor φ (emit_conjuncts cs rest)) (resume λ b. read_conjuncts cs b rest)

    pub read_conjuncts : Conjuncts → Bool → Tokens → Outcome Reading
    read_conjuncts done b rest = ok (clean b)
    read_conjuncts (and_also φ cs) true rest =
        bind (read_factor φ (emit_conjuncts cs rest)) (resume λ b. read_conjuncts cs b rest)
    read_conjuncts (and_also φ cs) false rest = ok (stopped false φ (emit_conjuncts cs rest))

    pub read_factor : Factor → Tokens → Outcome Reading
    read_factor (group e) rest = bind (read_expression e (close_token ∷ rest)) close
    read_factor (field_equals x o) rest =
        bind (equals_value values x (operand_text o)) λ b. ok (clean b)
    read_factor (field_in x o os) rest =
        bind (one_of_values values x (operand_text o ∷ map operand_text os)) λ b. ok (clean b)
