-- ===== src/Condition/Agrees.antt =====
-- How a reading of a tree agrees with its truth value.
use sustentra_platform.Prelude.{
  ◌≡◌, refl, Bool, true, false, ◌&&◌, ◌||◌, List, ◌∷◌, map, any, arith,
}
use sustentra_platform.Text.{Text, ◌==◌, normalize}
use sustentra_platform.Value.{Numbers, Value}
use sustentra_platform.Dict.{Dict}
use sustentra_platform.Condition.Token.{Outcome, ok, unsupported, unknown, out_of_fuel, bind}
use sustentra_platform.Condition.Parser.{Tokens, actual, equals_value, one_of_values}
use sustentra_platform.Condition.Grammar.{
  operand_text, Expression, expression, Alternatives, no_more, or_also, Term, term, Conjuncts, done,
  and_also, Factor, group, field_equals, field_in, emit_alternatives, emit_conjuncts, close_token,
}
use sustentra_platform.Condition.Reading.{
  Reading, clean, stopped, resume, close, read_expression, read_alternatives, read_term,
  read_conjuncts, read_factor,
}
use sustentra_platform.Condition.Meaning.{
  known_text, is_ok, known_expression, known_alternatives, known_term, known_conjuncts,
  known_factor, truth_expression, truth_alternatives, truth_term, truth_conjuncts, truth_factor,
  undecided_expression, undecided_alternatives, undecided_term, undecided_conjuncts,
  undecided_factor,
}

bind-known :
    (o : Outcome Text) (g : Text → Bool)
    → is_ok o ≡ true
    → bind o (λ a. ok (g a)) ≡ ok (g (known_text o))
bind-known (ok a) g h = refl
bind-known (unsupported r) g h = cc
bind-known (unknown r) g h = cc
bind-known out_of_fuel g h = cc

-- The parser did not come to the end of the tree.
abbrev pub Skips : Outcome Reading → Type 0
Skips (ok (clean b)) = ⊥
Skips (ok (stopped b φ ts)) = Unit
Skips (unsupported r) = Unit
Skips (unknown r) = ⊥
Skips out_of_fuel = ⊥

abbrev pub Agrees : Bool → Bool → Outcome Reading → Type 0
Agrees true t o = o ≡ ok (clean t)
Agrees false t o = Skips o

Skips-resume :
    (o : Outcome Reading) (k : Bool → Outcome Reading) → Skips o → Skips (bind o (resume k))
Skips-resume (ok (clean b)) k h = absurd h
Skips-resume (ok (stopped b φ ts)) k h = tt
Skips-resume (unsupported r) k h = tt
Skips-resume (unknown r) k h = absurd h
Skips-resume out_of_fuel k h = absurd h

Skips-close : (o : Outcome Reading) → Skips o → Skips (bind o close)
Skips-close (ok (clean b)) h = absurd h
Skips-close (ok (stopped b φ ts)) h = tt
Skips-close (unsupported r) h = tt
Skips-close (unknown r) h = absurd h
Skips-close out_of_fuel h = absurd h

Agrees-resume :
    (u v s t : Bool) (o : Outcome Reading) (k : Bool → Outcome Reading)
    → Agrees u s o
    → Agrees v t (k s)
    → Agrees (u && v) t (bind o (resume k))
Agrees-resume true v s t o k h h' = rw h h'
Agrees-resume false v s t o k h h' = Skips-resume o k h

Agrees-close : (u t : Bool) (o : Outcome Reading) → Agrees u t o → Agrees u t (bind o close)
Agrees-close true t o h = rw h
Agrees-close false t o h = Skips-close o h

module _ {N : Type 0} ⦃numbers : Numbers N⦄ (values : Dict (Value N)) where
  equals-known :
      (x e : Text)
      → is_ok (actual values x) ≡ true
      → equals_value values x e ≡ ok (known_text (actual values x) == normalize e)
  unfolding equals_value
  equals-known x e h = bind-known (actual values x) (λ a. a == normalize e) h

  members-known :
      (x : Text) (es : List Text)
      → is_ok (actual values x) ≡ true
      → one_of_values values x es ≡ ok (any (λ e. known_text (actual values x) == normalize e) es)
  unfolding one_of_values
  members-known x es h = bind-known (actual values x) (λ a. any (λ e. a == normalize e) es) h

  and-left : (a b : Bool) → (a && b) ≡ true → a ≡ true
  and-left a b h = ground arith

  and-right : (a b : Bool) → (a && b) ≡ true → b ≡ true
  and-right a b h = ground arith

  mutual
    unfolding known_expression truth_expression undecided_expression read_expression

    pub read_expression-Agrees :
        (e : Expression) (rest : Tokens)
        → known_expression values e ≡ true
        → Agrees
            (undecided_expression values e)
            (truth_expression values e)
            (read_expression values e rest)
    read_expression-Agrees (expression t os) rest h =
        Agrees-resume _ _ (truth_term values t) _ (read_term values t (emit_alternatives os rest)) _
          (read_term-Agrees t (emit_alternatives os rest) (and-left _ _ h))
          (read_alternatives-Agrees os (truth_term values t) rest (and-right _ _ h))

    read_alternatives-Agrees :
        (os : Alternatives) (b : Bool) (rest : Tokens)
        → known_alternatives values os ≡ true
        → Agrees
            (undecided_alternatives values os b)
            (b || truth_alternatives values os)
            (read_alternatives values os b rest)
    read_alternatives-Agrees no_more true rest h = refl
    read_alternatives-Agrees no_more false rest h = refl
    read_alternatives-Agrees (or_also (term φ cs) os) true rest h = tt
    read_alternatives-Agrees (or_also t os) false rest h =
        Agrees-resume _ _ (truth_term values t) _ (read_term values t (emit_alternatives os rest)) _
          (read_term-Agrees t (emit_alternatives os rest) (and-left _ _ h))
          (read_alternatives-Agrees os (truth_term values t) rest (and-right _ _ h))

    pub read_term-Agrees :
        (t : Term) (rest : Tokens)
        → known_term values t ≡ true
        → Agrees (undecided_term values t) (truth_term values t) (read_term values t rest)
    read_term-Agrees (term φ cs) rest h =
        Agrees-resume _ _ (truth_factor values φ) _ (read_factor values φ (emit_conjuncts cs rest))
          _ (read_factor-Agrees φ (emit_conjuncts cs rest) (and-left _ _ h))
          (read_conjuncts-Agrees cs (truth_factor values φ) rest (and-right _ _ h))

    read_conjuncts-Agrees :
        (cs : Conjuncts) (b : Bool) (rest : Tokens)
        → known_conjuncts values cs ≡ true
        → Agrees
            (undecided_conjuncts values cs b)
            (b && truth_conjuncts values cs)
            (read_conjuncts values cs b rest)
    read_conjuncts-Agrees done true rest h = refl
    read_conjuncts-Agrees done false rest h = refl
    read_conjuncts-Agrees (and_also φ cs) false rest h = tt
    read_conjuncts-Agrees (and_also φ cs) true rest h =
        Agrees-resume _ _ (truth_factor values φ) _ (read_factor values φ (emit_conjuncts cs rest))
          _ (read_factor-Agrees φ (emit_conjuncts cs rest) (and-left _ _ h))
          (read_conjuncts-Agrees cs (truth_factor values φ) rest (and-right _ _ h))

    read_factor-Agrees :
        (φ : Factor) (rest : Tokens)
        → known_factor values φ ≡ true
        → Agrees (undecided_factor values φ) (truth_factor values φ) (read_factor values φ rest)
    read_factor-Agrees (group e) rest h =
        Agrees-close _ _ (read_expression values e (close_token ∷ rest))
          (read_expression-Agrees e (close_token ∷ rest) h)
    read_factor-Agrees (field_equals x o) rest h = rw (equals-known x (operand_text o) h)
    read_factor-Agrees (field_in x o os) rest h =
        rw (members-known x (operand_text o ∷ map operand_text os) h)
