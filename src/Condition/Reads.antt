-- ===== src/Condition/Reads.antt =====
-- The parser on the tokens of a tree does what `Reading` tells.
use sustentra_platform.Prelude.{
  ℕ, zero, suc, ◌+◌, ◌*◌, ◌≤◌, ◌<◌, ◌≡◌, refl, Bool, true, false, List, [], ◌∷◌, ◌++◌, map, length,
  arith, append_assoc, append-nil,
}
use sustentra_platform.Text.{Text}
use sustentra_platform.Value.{Numbers, Value}
use sustentra_platform.Dict.{Dict}
use sustentra_platform.Condition.Token.{
  conj, disj, close_paren, Outcome, ok, unsupported, unknown, out_of_fuel, bind,
}
use sustentra_platform.Condition.Parser.{
  Tokens, peek, consume, consume_value, more_values, parse_comparison, parse_expression, or_loop,
  parse_term, and_loop, parse_factor,
}
use sustentra_platform.Condition.Grammar.{
  Operand, name, quote, operand_text, operand_token, emit_operands, close_token, Expression,
  expression, Alternatives, no_more, or_also, Term, term, Conjuncts, done, and_also, Factor, group,
  field_equals, field_in, emit_expression, emit_alternatives, emit_term, emit_conjuncts,
  emit_factor,
}
use sustentra_platform.Condition.Reading.{
  Reading, clean, stopped, finish, close, read_expression, read_alternatives, read_term,
  read_conjuncts, read_factor,
}

length-emit_operands :
    (os : List Operand) (rest : Tokens) → length rest + length os ≤ length (emit_operands os rest)
length-emit_operands [] rest = omega arith
length-emit_operands (o ∷ os) rest = omega (arith, length-emit_operands os rest)

-- A tree has at least one token.
mutual
  unfolding emit_expression

  length-emit_expression :
      (e : Expression) (rest : Tokens) → length rest < length (emit_expression e rest)
  length-emit_expression (expression t os) rest =
      omega
        (arith, length-emit_term t (emit_alternatives os rest), length-emit_alternatives os rest)

  length-emit_alternatives :
      (os : Alternatives) (rest : Tokens) → length rest ≤ length (emit_alternatives os rest)
  length-emit_alternatives no_more rest = omega arith
  length-emit_alternatives (or_also t os) rest =
      omega
        (arith, length-emit_term t (emit_alternatives os rest), length-emit_alternatives os rest)

  length-emit_term : (t : Term) (rest : Tokens) → length rest < length (emit_term t rest)
  length-emit_term (term φ cs) rest =
      omega (arith, length-emit_factor φ (emit_conjuncts cs rest), length-emit_conjuncts cs rest)

  length-emit_conjuncts :
      (cs : Conjuncts) (rest : Tokens) → length rest ≤ length (emit_conjuncts cs rest)
  length-emit_conjuncts done rest = omega arith
  length-emit_conjuncts (and_also φ cs) rest =
      omega (arith, length-emit_factor φ (emit_conjuncts cs rest), length-emit_conjuncts cs rest)

  length-emit_factor : (φ : Factor) (rest : Tokens) → length rest < length (emit_factor φ rest)
  length-emit_factor (group e) rest = omega (arith, length-emit_expression e (close_token ∷ rest))
  length-emit_factor (field_equals x o) rest = omega arith
  length-emit_factor (field_in x o os) rest =
      omega (arith, length-emit_operands os (close_token ∷ rest))

module _ {N : Type 0} ⦃numbers : Numbers N⦄ (values : Dict (Value N)) where
  finish-bind :
      (o : Outcome Reading) (g : Reading → Outcome Reading)
      (k : Bool × Tokens → Outcome (Bool × Tokens)) (before rest : Tokens)
      → ((b : Bool) → k (b, before) ≡ finish (g (clean b)) rest)
      → ((b : Bool) (φ : Factor) (ts : Tokens)
          → k (b, emit_factor φ ts) ≡ finish (g (stopped b φ ts)) rest)
      → bind (finish o before) k ≡ finish (bind o g) rest
  finish-bind (ok (clean b)) g k before rest h h' = h b
  finish-bind (ok (stopped b φ ts)) g k before rest h h' = h' b φ ts
  finish-bind (unsupported r) g k before rest h h' = refl
  finish-bind (unknown r) g k before rest h h' = refl
  finish-bind out_of_fuel g k before rest h h' = refl

  stop_or :
      (f : ℕ) (b : Bool) (φ : Factor) (ts : Tokens)
      → 0 < f
      → or_loop values f b (emit_factor φ ts) ≡ ok (b, emit_factor φ ts)
  unfolding or_loop emit_factor peek
  stop_or zero b φ ts h = absurd (omega arith)
  stop_or (suc f) b (group e) ts h = refl
  stop_or (suc f) b (field_equals x o) ts h = refl
  stop_or (suc f) b (field_in x o os) ts h = refl

  stop_and :
      (f : ℕ) (b : Bool) (φ : Factor) (ts : Tokens)
      → 0 < f
      → and_loop values f b (emit_factor φ ts) ≡ ok (b, emit_factor φ ts)
  unfolding and_loop emit_factor peek
  stop_and zero b φ ts h = absurd (omega arith)
  stop_and (suc f) b (group e) ts h = refl
  stop_and (suc f) b (field_equals x o) ts h = refl
  stop_and (suc f) b (field_in x o os) ts h = refl

  consume_value-operand :
      (o : Operand) (rest : Tokens)
      → consume_value (operand_token o ∷ rest) ≡ ok (operand_token o, rest)
  unfolding consume_value
  consume_value-operand (name s) rest = refl
  consume_value-operand (quote s) rest = refl

  text-operand_token : (o : Operand) → (operand_token o).text ≡ operand_text o
  text-operand_token (name s) = refl
  text-operand_token (quote s) = refl

  more_values-emit :
      (f : ℕ) (acc : List Text) (os : List Operand) (rest : Tokens)
      → length os < f
      → more_values f acc (emit_operands os (close_token ∷ rest))
        ≡ ok (acc ++ map operand_text os, close_token ∷ rest)
  unfolding more_values peek consume
  more_values-emit zero acc os rest h = absurd (omega arith)
  more_values-emit (suc f) acc [] rest h = rw append-nil
  more_values-emit (suc f) acc (o ∷ os) rest h = rw consume_value-operand (
      rw text-operand_token (
        rw (more_values-emit f (acc ++ operand_text o ∷ []) os rest (omega arith))
          (rw append_assoc)))

  peek-alternatives :
      (os : Alternatives) (rest : Tokens)
      → peek conj rest ≡ false
      → peek conj (emit_alternatives os rest) ≡ false
  unfolding emit_alternatives peek
  peek-alternatives no_more rest h = h
  peek-alternatives (or_also t os) rest h = refl

  finish-value :
      (o : Outcome Bool) (rest : Tokens)
      → bind o (λ b. ok (b, rest)) ≡ finish (bind o λ b. ok (clean b)) rest
  finish-value (ok b) rest = refl
  finish-value (unsupported r) rest = refl
  finish-value (unknown r) rest = refl
  finish-value out_of_fuel rest = refl

  members-emit :
      (f : ℕ) (x : Text) (o : Operand) (os : List Operand) (rest : Tokens)
      → length os < f
      → parse_comparison values f (emit_factor (field_in x o os) rest)
        ≡ finish (read_factor values (field_in x o os) rest) rest
  unfolding parse_comparison emit_factor read_factor peek consume
  members-emit f x o os rest h = rw consume_value-operand (
      rw text-operand_token
        (rw (more_values-emit f (operand_text o ∷ []) os rest h) (finish-value _ rest)))

  equals-emit :
      (f : ℕ) (x : Text) (o : Operand) (rest : Tokens)
      → parse_comparison values f (emit_factor (field_equals x o) rest)
        ≡ finish (read_factor values (field_equals x o) rest) rest
  unfolding parse_comparison emit_factor read_factor peek consume
  equals-emit f x o rest = rw consume_value-operand (rw text-operand_token (finish-value _ rest))

  close-emit :
      (b : Bool) (φ : Factor) (ts rest : Tokens)
      → bind (consume close_paren (emit_factor φ ts)) (λ c. ok (b, c.1))
        ≡ finish (close (stopped b φ ts)) rest
  unfolding consume emit_factor
  close-emit b (group e) ts rest = refl
  close-emit b (field_equals x o) ts rest = refl
  close-emit b (field_in x o os) ts rest = refl

  mutual
    unfolding parse_expression emit_expression read_expression peek consume

    pub parse_expression-emit :
        (e : Expression) (rest : Tokens) (f : ℕ)
        → 3 * length (emit_expression e rest) + 2 < f
        → peek conj rest ≡ false
        → peek disj rest ≡ false
        → parse_expression values f (emit_expression e rest)
          ≡ finish (read_expression values e rest) rest
    parse_expression-emit (expression t os) rest zero h c d = absurd (omega arith)
    parse_expression-emit (expression t os) rest (suc f) h c d =
        rw
          (parse_term-emit t (emit_alternatives os rest) f (omega arith)
            (peek-alternatives os rest c))
          (finish-bind (read_term values t (emit_alternatives os rest)) _ _ _ rest
            (λ b.
              or_loop-emit os b rest f
                (omega (arith, length-emit_term t (emit_alternatives os rest))) c d)
            (λ b φ ts. stop_or f b φ ts (omega arith)))

    or_loop-emit :
        (os : Alternatives) (b : Bool) (rest : Tokens) (f : ℕ)
        → 3 * length (emit_alternatives os rest) < f
        → peek conj rest ≡ false
        → peek disj rest ≡ false
        → or_loop values f b (emit_alternatives os rest)
          ≡ finish (read_alternatives values os b rest) rest
    or_loop-emit os b rest zero h c d = absurd (omega arith)
    or_loop-emit no_more b rest (suc f) h c d = rw (d, or_loop)
    or_loop-emit (or_also (term φ cs) os) true rest (suc f) h c d =
        stop_or f true φ (emit_conjuncts cs (emit_alternatives os rest)) (omega arith)
    or_loop-emit (or_also t os) false rest (suc f) h c d =
        rw
          (parse_term-emit t (emit_alternatives os rest) f (omega arith)
            (peek-alternatives os rest c))
          (finish-bind (read_term values t (emit_alternatives os rest)) _ _ _ rest
            (λ b.
              or_loop-emit os b rest f
                (omega (arith, length-emit_term t (emit_alternatives os rest))) c d)
            (λ b φ ts. stop_or f b φ ts (omega arith)))

    pub parse_term-emit :
        (t : Term) (rest : Tokens) (f : ℕ)
        → 3 * length (emit_term t rest) + 1 < f
        → peek conj rest ≡ false
        → parse_term values f (emit_term t rest) ≡ finish (read_term values t rest) rest
    parse_term-emit (term φ cs) rest zero h c = absurd (omega arith)
    parse_term-emit (term φ cs) rest (suc f) h c =
        rw (parse_factor-emit φ (emit_conjuncts cs rest) f (omega arith)) (
          finish-bind (read_factor values φ (emit_conjuncts cs rest)) _ _ _ rest
            (λ b.
              and_loop-emit cs b rest f
                (omega (arith, length-emit_factor φ (emit_conjuncts cs rest))) c)
            (λ b ψ ts. stop_and f b ψ ts (omega arith)))

    and_loop-emit :
        (cs : Conjuncts) (b : Bool) (rest : Tokens) (f : ℕ)
        → 3 * length (emit_conjuncts cs rest) < f
        → peek conj rest ≡ false
        → and_loop values f b (emit_conjuncts cs rest)
          ≡ finish (read_conjuncts values cs b rest) rest
    and_loop-emit cs b rest zero h c = absurd (omega arith)
    and_loop-emit done b rest (suc f) h c = rw (c, and_loop)
    and_loop-emit (and_also φ cs) false rest (suc f) h c =
        stop_and f false φ (emit_conjuncts cs rest) (omega arith)
    and_loop-emit (and_also φ cs) true rest (suc f) h c =
        rw (parse_factor-emit φ (emit_conjuncts cs rest) f (omega arith)) (
          finish-bind (read_factor values φ (emit_conjuncts cs rest)) _ _ _ rest
            (λ b.
              and_loop-emit cs b rest f
                (omega (arith, length-emit_factor φ (emit_conjuncts cs rest))) c)
            (λ b ψ ts. stop_and f b ψ ts (omega arith)))

    parse_factor-emit :
        (φ : Factor) (rest : Tokens) (f : ℕ)
        → 3 * length (emit_factor φ rest) < f
        → parse_factor values f (emit_factor φ rest) ≡ finish (read_factor values φ rest) rest
    parse_factor-emit φ rest zero h = absurd (omega arith)
    parse_factor-emit (group e) rest (suc f) h =
        rw (parse_expression-emit e (close_token ∷ rest) f (omega arith) refl refl) (
          finish-bind (read_expression values e (close_token ∷ rest)) close _ _ rest (λ b. refl)
            (λ b ψ ts. close-emit b ψ ts rest))
    parse_factor-emit (field_equals x o) rest (suc f) h = equals-emit f x o rest
    parse_factor-emit (field_in x o os) rest (suc f) h =
        members-emit f x o os rest (omega (arith, length-emit_operands os (close_token ∷ rest)))
