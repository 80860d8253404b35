-- ===== src/Condition/Dangling.antt =====
-- An operator with nothing behind it, after an operand that decides.
use sustentra_platform.Prelude.{
  ℕ, zero, suc, ◌+◌, ◌*◌, ◌<◌, ◌≡◌, refl, true, [], ◌∷◌, arith, length,
}
use sustentra_platform.Value.{Numbers, Value}
use sustentra_platform.Dict.{Dict}
use sustentra_platform.Condition.Token.{ok}
use sustentra_platform.Condition.Parser.{parse_expression, expect_end, peek, consume}
use sustentra_platform.Condition.Grammar.{Term, emit_term, disj_token}
use sustentra_platform.Condition.Reading.{Reading, read_term}
use sustentra_platform.Condition.Reads.{parse_term-emit}
use sustentra_platform.Condition.Meaning.{known_term, truth_term, undecided_term}
use sustentra_platform.Condition.Agrees.{read_term-Agrees}
use sustentra_platform.Condition.Evaluator.{run_tokens, fuel_for}

module _ {N : Type 0} ⦃numbers : Numbers N⦄ (values : Dict (Value N)) where
  parse_dangling :
      (t : Term) (f : ℕ)
      → 3 * length (emit_term t (disj_token ∷ [])) + 2 < f
      → read_term values t (disj_token ∷ []) ≡ ok (Reading.clean true)
      → parse_expression values f (emit_term t (disj_token ∷ [])) ≡ ok (true, [])
  unfolding parse_expression peek consume
  parse_dangling t zero h e = absurd (omega arith)
  parse_dangling t (suc zero) h e = absurd (omega arith)
  parse_dangling t (suc (suc zero)) h e = absurd (omega arith)
  parse_dangling t (suc (suc (suc f))) h e =
      rw (parse_term-emit values t (disj_token ∷ []) (suc (suc f)) (omega arith) refl, e)

  reads_clean :
      (t : Term)
      → known_term values t ≡ true
      → undecided_term values t ≡ true
      → truth_term values t ≡ true
      → read_term values t (disj_token ∷ []) ≡ ok (Reading.clean true)
  reads_clean t known undecided truth =
      rw (undecided, truth) at (read_term-Agrees values t (disj_token ∷ []) known)

  -- A term that holds, with `OR` and nothing behind it, is answered with true: the right side that
  -- is missing is not looked for.
  pub dangling_or :
      (t : Term)
      → known_term values t ≡ true
      → undecided_term values t ≡ true
      → truth_term values t ≡ true
      → run_tokens values (emit_term t (disj_token ∷ [])) ≡ ok true
  unfolding run_tokens expect_end
  dangling_or t known undecided truth = rw (
      parse_dangling t (fuel_for (emit_term t (disj_token ∷ []))) (omega arith)
        (reads_clean t known undecided truth))
