-- ===== src/Condition/Meaning.antt =====
-- The truth value of a condition, and which conditions the evaluator can answer: those in which no
-- operand in front of another decides the OR or the AND that it stands in.
use sustentra_platform.Prelude.{Bool, true, false, not, ◌&&◌, ◌||◌, [], ◌∷◌, map, any}
use sustentra_platform.Text.{Text, ◌==◌, normalize}
use sustentra_platform.Value.{Numbers, Value}
use sustentra_platform.Dict.{Dict}
use sustentra_platform.Condition.Token.{Outcome, ok, unsupported, unknown, out_of_fuel}
use sustentra_platform.Condition.Parser.{actual}
use sustentra_platform.Condition.Grammar.{
  operand_text, Expression, expression, Alternatives, no_more, or_also, Term, term, Conjuncts, done,
  and_also, Factor, group, field_equals, field_in,
}

-- The normalized runtime value of a field, if it has one.
abbrev pub known_text : Outcome Text → Text
known_text (ok a) = a
known_text (unsupported r) = []
known_text (unknown r) = []
known_text out_of_fuel = []

abbrev pub is_ok : {A : Type 0} → Outcome A → Bool
is_ok (ok a) = true
is_ok (unsupported r) = false
is_ok (unknown r) = false
is_ok out_of_fuel = false

module _ {N : Type 0} ⦃numbers : Numbers N⦄ (values : Dict (Value N)) where
  -- Every field that the tree names has a value.
  unfoldable mutual
    pub known_expression : Expression → Bool
    known_expression (expression t os) = known_term t && known_alternatives os

    pub known_alternatives : Alternatives → Bool
    known_alternatives no_more = true
    known_alternatives (or_also t os) = known_term t && known_alternatives os

    pub known_term : Term → Bool
    known_term (term φ cs) = known_factor φ && known_conjuncts cs

    pub known_conjuncts : Conjuncts → Bool
    known_conjuncts done = true
    known_conjuncts (and_also φ cs) = known_factor φ && known_conjuncts cs

    pub known_factor : Factor → Bool
    known_factor (group e) = known_expression e
    known_factor (field_equals x o) = is_ok (actual values x)
    known_factor (field_in x o os) = is_ok (actual values x)

  -- The usual truth value: OR and AND of all the operands.
  unfoldable mutual
    pub truth_expression : Expression → Bool
    truth_expression (expression t os) = truth_term t || truth_alternatives os

    pub truth_alternatives : Alternatives → Bool
    truth_alternatives no_more = false
    truth_alternatives (or_also t os) = truth_term t || truth_alternatives os

    pub truth_term : Term → Bool
    truth_term (term φ cs) = truth_factor φ && truth_conjuncts cs

    pub truth_conjuncts : Conjuncts → Bool
    truth_conjuncts done = true
    truth_conjuncts (and_also φ cs) = truth_factor φ && truth_conjuncts cs

    pub truth_factor : Factor → Bool
    truth_factor (group e) = truth_expression e
    truth_factor (field_equals x o) = known_text (actual values x) == normalize (operand_text o)
    truth_factor (field_in x o os) =
        any (λ e. known_text (actual values x) == normalize e)
          (operand_text o ∷ map operand_text os)

  -- No operand in front of another decides: none of an OR is true, none of an AND is false.
  unfoldable mutual
    pub undecided_expression : Expression → Bool
    undecided_expression (expression t os) =
        undecided_term t && undecided_alternatives os (truth_term t)

    pub undecided_alternatives : Alternatives → Bool → Bool
    undecided_alternatives no_more b = true
    undecided_alternatives (or_also t os) b =
        not b && (undecided_term t && undecided_alternatives os (truth_term t))

    pub undecided_term : Term → Bool
    undecided_term (term φ cs) = undecided_factor φ && undecided_conjuncts cs (truth_factor φ)

    pub undecided_conjuncts : Conjuncts → Bool → Bool
    undecided_conjuncts done b = true
    undecided_conjuncts (and_also φ cs) b =
        b && (undecided_factor φ && undecided_conjuncts cs (truth_factor φ))

    pub undecided_factor : Factor → Bool
    undecided_factor (group e) = undecided_expression e
    undecided_factor (field_equals x o) = true
    undecided_factor (field_in x o os) = true
