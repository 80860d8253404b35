-- ===== src/Condition/Grammar.antt =====
-- The grammar that the evaluator documents, as syntax trees: `FIELD = value`,
-- `FIELD IN (a, b, c)`, AND, OR and parentheses; the tokens of a tree, and its truth value.
use sustentra_platform.Prelude.{List, [], ◌∷◌}
use sustentra_platform.Text.{Text, lit}
use sustentra_platform.Condition.Token.{
  conj, disj, membership, ident, value, equals, open_paren, close_paren, comma, Token,
}
use sustentra_platform.Condition.Parser.{Tokens}

-- A value in a comparison, written like an identifier or not.
pub data Operand : Type 0 where
  name : Text → Operand
  quote : Text → Operand

abbrev pub operand_text : Operand → Text
operand_text (name s) = s
operand_text (quote s) = s

abbrev pub operand_token : Operand → Token
operand_token (name s) = record { kind = ident; text = s }
operand_token (quote s) = record { kind = value; text = s }

mutual
  pub data Expression : Type 0 where
    expression : Term → Alternatives → Expression

  -- The terms behind an OR.
  pub data Alternatives : Type 0 where
    no_more : Alternatives
    or_also : Term → Alternatives → Alternatives

  pub data Term : Type 0 where
    term : Factor → Conjuncts → Term

  -- The factors behind an AND.
  pub data Conjuncts : Type 0 where
    done : Conjuncts
    and_also : Factor → Conjuncts → Conjuncts

  pub data Factor : Type 0 where
    group : Expression → Factor
    field_equals : Text → Operand → Factor
    field_in : Text → Operand → List Operand → Factor

abbrev pub disj_token : Token
disj_token = record { kind = disj; text = lit "OR" }

abbrev pub conj_token : Token
conj_token = record { kind = conj; text = lit "AND" }

abbrev pub in_token : Token
in_token = record { kind = membership; text = lit "IN" }

abbrev pub equals_token : Token
equals_token = record { kind = equals; text = lit "=" }

abbrev pub open_token : Token
open_token = record { kind = open_paren; text = lit "(" }

abbrev pub close_token : Token
close_token = record { kind = close_paren; text = lit ")" }

abbrev pub comma_token : Token
comma_token = record { kind = comma; text = lit "," }

abbrev pub emit_operands : List Operand → Tokens → Tokens
emit_operands [] rest = rest
emit_operands (o ∷ os) rest = comma_token ∷ operand_token o ∷ emit_operands os rest

-- The tokens of a tree, in front of those that follow it.
unfoldable mutual
  pub emit_expression : Expression → Tokens → Tokens
  emit_expression (expression t os) rest = emit_term t (emit_alternatives os rest)

  pub emit_alternatives : Alternatives → Tokens → Tokens
  emit_alternatives no_more rest = rest
  emit_alternatives (or_also t os) rest = disj_token ∷ emit_term t (emit_alternatives os rest)

  pub emit_term : Term → Tokens → Tokens
  emit_term (term φ cs) rest = emit_factor φ (emit_conjuncts cs rest)

  pub emit_conjuncts : Conjuncts → Tokens → Tokens
  emit_conjuncts done rest = rest
  emit_conjuncts (and_also φ cs) rest = conj_token ∷ emit_factor φ (emit_conjuncts cs rest)

  pub emit_factor : Factor → Tokens → Tokens
  emit_factor (group e) rest = open_token ∷ emit_expression e (close_token ∷ rest)
  emit_factor (field_equals x o) rest =
      record { kind = ident; text = x } ∷ equals_token ∷ operand_token o ∷ rest
  emit_factor (field_in x o os) rest =
      record { kind = ident; text = x }
      ∷ in_token
      ∷ open_token
      ∷ operand_token o
      ∷ emit_operands os (close_token ∷ rest)
