-- ===== src/Condition/Fuel.antt =====
-- The fuel of the parser suffices on every list of tokens, and what it reads is never put back.
use sustentra_platform.Prelude.{
  ℕ, zero, suc, ◌+◌, ◌*◌, ◌≤◌, ◌<◌, Bool, true, false, List, [], ◌∷◌, ◌++◌, length, arith,
  if◌then◌else◌,
}
use sustentra_platform.Text.{Text}
use sustentra_platform.Value.{Numbers, Value}
use sustentra_platform.Dict.{Dict}
use sustentra_platform.Condition.Token.{
  Kind, conj, disj, membership, ident, equals, open_paren, close_paren, comma, Outcome, ok,
  unsupported, unknown, out_of_fuel, bind, same_kind,
}
use sustentra_platform.Condition.Parser.{
  Tokens, peek, consume, consume_value, more_values, parse_comparison, parse_members, parse_equals,
  equals_value, one_of_values, actual, parse_expression, or_loop, parse_term, and_loop,
  parse_factor,
}

-- The run kept within its fuel, and left fewer than `n` tokens where it returned.
abbrev pub Reads : {A : Type 0} → ℕ → Outcome (A × Tokens) → Type 0
Reads n (ok p) = length p.1 < n
Reads n (unsupported r) = Unit
Reads n (unknown r) = Unit
Reads n out_of_fuel = ⊥

-- The run kept within its fuel.
abbrev Ends : {A : Type 0} → Outcome A → Type 0
Ends (ok a) = Unit
Ends (unsupported r) = Unit
Ends (unknown r) = Unit
Ends out_of_fuel = ⊥

module _ {A B : Type 0} where
  Reads-bind :
      (n m : ℕ) (o : Outcome (A × Tokens)) (g : A × Tokens → Outcome (B × Tokens))
      → Reads n o
      → ((p : A × Tokens) → length p.1 < n → Reads m (g p))
      → Reads m (bind o g)
  Reads-bind n m (ok p) g h k = k p h
  Reads-bind n m (unsupported r) g h k = tt
  Reads-bind n m (unknown r) g h k = tt
  Reads-bind n m out_of_fuel g h k = absurd h

  Reads-value :
      (m : ℕ) (o : Outcome A) (g : A → Outcome (B × Tokens))
      → Ends o
      → ((a : A) → Reads m (g a))
      → Reads m (bind o g)
  Reads-value m (ok a) g h k = k a
  Reads-value m (unsupported r) g h k = tt
  Reads-value m (unknown r) g h k = tt
  Reads-value m out_of_fuel g h k = absurd h

module _ {A : Type 0} where
  Reads-elim :
      (n : ℕ) (b : Bool) (x y : Outcome (A × Tokens))
      → Reads n x
      → Reads n y
      → Reads n (elim b [ false ↦ y | true ↦ x ])
  Reads-elim n true x y hx hy = hx
  Reads-elim n false x y hx hy = hy

  Reads-if :
      (n : ℕ) (b : Bool) (x y : Outcome (A × Tokens))
      → Reads n x
      → Reads n y
      → Reads n (if b then x else y)
  Reads-if n true x y hx hy = hx
  Reads-if n false x y hx hy = hy

module _ {A : Type 0} where
  Reads-le : (n m : ℕ) (o : Outcome (A × Tokens)) → Reads n o → n ≤ m → Reads m o
  Reads-le n m (ok p) h l = omega arith
  Reads-le n m (unsupported r) h l = tt
  Reads-le n m (unknown r) h l = tt
  Reads-le n m out_of_fuel h l = absurd h

consume-Reads : (k : Kind) (ts : Tokens) → Reads (length ts) (consume k ts)
unfolding consume
consume-Reads k [] = tt
consume-Reads k (t ∷ ts) = Reads-if _ (same_kind t.kind k) _ _ (omega arith) tt

consume_value-Reads : (ts : Tokens) → Reads (length ts) (consume_value ts)
unfolding consume_value
consume_value-Reads ts = Reads-if _ (peek ident ts) _ _ (consume-Reads _ ts) (consume-Reads _ ts)

more_values-Reads :
    (f : ℕ) (acc : List Text) (ts : Tokens)
    → length ts < f
    → Reads (suc (length ts)) (more_values f acc ts)
unfolding more_values
more_values-Reads zero acc ts h = absurd (omega arith)
more_values-Reads (suc f) acc ts h =
    Reads-elim _ (peek comma ts) _ _
      (Reads-bind _ _ (consume comma ts) _ (consume-Reads comma ts) λ p hp.
        Reads-bind _ _ (consume_value p.1) _ (consume_value-Reads p.1) λ q hq.
          Reads-le _ _ _ (more_values-Reads f (acc ++ q.0.text ∷ []) q.1 (omega arith))
            (omega arith))
      (omega arith)

module _ {N : Type 0} ⦃numbers : Numbers N⦄ (values : Dict (Value N)) where
  actual-Ends : (field : Text) → Ends (actual values field)
  unfolding actual
  actual-Ends field = ground arith

  equals_value-Ends : (field e : Text) → Ends (equals_value values field e)
  unfolding equals_value
  equals_value-Ends field e = ground (arith, actual-Ends field)

  one_of_values-Ends : (field : Text) (es : List Text) → Ends (one_of_values values field es)
  unfolding one_of_values
  one_of_values-Ends field es = ground (arith, actual-Ends field)

  parse_equals-Reads :
      (field : Text) (ts : Tokens) → Reads (length ts) (parse_equals values field ts)
  unfolding parse_equals
  parse_equals-Reads field ts =
      Reads-bind _ _ (consume equals ts) _ (consume-Reads equals ts) λ p hp.
        Reads-bind _ _ (consume_value p.1) _ (consume_value-Reads p.1)
          λ q hq. Reads-value _ _ _ (equals_value-Ends field q.0.text) λ b. omega arith

  parse_members-Reads :
      (f : ℕ) (field : Text) (ts : Tokens)
      → length ts ≤ f
      → Reads (length ts) (parse_members values f field ts)
  unfolding parse_members
  parse_members-Reads f field ts h =
      Reads-bind _ _ (consume open_paren ts) _ (consume-Reads open_paren ts) λ p hp.
        Reads-bind _ _ (consume_value p.1) _ (consume_value-Reads p.1) λ q hq.
          Reads-bind _ _ (more_values f (q.0.text ∷ []) q.1) _
            (more_values-Reads f (q.0.text ∷ []) q.1 (omega arith))
            λ m hm.
              Reads-bind _ _ (consume close_paren m.1) _ (consume-Reads close_paren m.1)
                λ c hc. Reads-value _ _ _ (one_of_values-Ends field m.0) λ b. omega arith

  parse_comparison-Reads :
      (f : ℕ) (ts : Tokens) → length ts ≤ f → Reads (length ts) (parse_comparison values f ts)
  unfolding parse_comparison
  parse_comparison-Reads f ts h =
      Reads-bind _ _ (consume ident ts) _ (consume-Reads ident ts) λ p hp.
        Reads-if _ (peek equals p.1) _ _
          (Reads-le _ _ _ (parse_equals-Reads p.0.text p.1) (omega arith))
          (Reads-if _ (peek membership p.1) _ _
            (Reads-bind _ _ (consume membership p.1) _ (consume-Reads membership p.1) λ q hq.
              Reads-le _ _ _ (parse_members-Reads f p.0.text q.1 (omega arith)) (omega arith))
            tt)

  mutual
    unfolding parse_expression or_loop parse_term and_loop parse_factor

    pub parse_expression-Reads :
        (f : ℕ) (ts : Tokens)
        → 3 * length ts + 2 < f
        → Reads (length ts) (parse_expression values f ts)
    parse_expression-Reads zero ts h = absurd (omega arith)
    parse_expression-Reads (suc f) ts h =
        Reads-bind _ _ (parse_term values f ts) _ (parse_term-Reads f ts (omega arith))
          λ p hp. Reads-le _ _ _ (or_loop-Reads f p.0 p.1 (omega arith)) (omega arith)

    or_loop-Reads :
        (f : ℕ) (b : Bool) (ts : Tokens)
        → 3 * length ts < f
        → Reads (suc (length ts)) (or_loop values f b ts)
    or_loop-Reads zero b ts h = absurd (omega arith)
    or_loop-Reads (suc f) true ts h =
        Reads-elim _ (peek disj ts) _ _
          (Reads-bind _ _ (consume disj ts) _ (consume-Reads disj ts)
            λ p hp. Reads-le _ _ _ (or_loop-Reads f true p.1 (omega arith)) (omega arith))
          (omega arith)
    or_loop-Reads (suc f) false ts h =
        Reads-elim _ (peek disj ts) _ _
          (Reads-bind _ _ (consume disj ts) _ (consume-Reads disj ts) λ p hp.
            Reads-bind _ _ (parse_term values f p.1) _ (parse_term-Reads f p.1 (omega arith))
              λ q hq. Reads-le _ _ _ (or_loop-Reads f q.0 q.1 (omega arith)) (omega arith))
          (omega arith)

    parse_term-Reads :
        (f : ℕ) (ts : Tokens) → 3 * length ts + 1 < f → Reads (length ts) (parse_term values f ts)
    parse_term-Reads zero ts h = absurd (omega arith)
    parse_term-Reads (suc f) ts h =
        Reads-bind _ _ (parse_factor values f ts) _ (parse_factor-Reads f ts (omega arith))
          λ p hp. Reads-le _ _ _ (and_loop-Reads f p.0 p.1 (omega arith)) (omega arith)

    and_loop-Reads :
        (f : ℕ) (b : Bool) (ts : Tokens)
        → 3 * length ts < f
        → Reads (suc (length ts)) (and_loop values f b ts)
    and_loop-Reads zero b ts h = absurd (omega arith)
    and_loop-Reads (suc f) false ts h =
        Reads-elim _ (peek conj ts) _ _
          (Reads-bind _ _ (consume conj ts) _ (consume-Reads conj ts)
            λ p hp. Reads-le _ _ _ (and_loop-Reads f false p.1 (omega arith)) (omega arith))
          (omega arith)
    and_loop-Reads (suc f) true ts h =
        Reads-elim _ (peek conj ts) _ _
          (Reads-bind _ _ (consume conj ts) _ (consume-Reads conj ts) λ p hp.
            Reads-bind _ _ (parse_factor values f p.1) _ (parse_factor-Reads f p.1 (omega arith))
              λ q hq. Reads-le _ _ _ (and_loop-Reads f q.0 q.1 (omega arith)) (omega arith))
          (omega arith)

    parse_factor-Reads :
        (f : ℕ) (ts : Tokens) → 3 * length ts < f → Reads (length ts) (parse_factor values f ts)
    parse_factor-Reads zero ts h = absurd (omega arith)
    parse_factor-Reads (suc f) ts h =
        Reads-elim _ (peek open_paren ts) _ _
          (Reads-bind _ _ (consume open_paren ts) _ (consume-Reads open_paren ts) λ p hp.
            Reads-bind _ _ (parse_expression values f p.1) _
              (parse_expression-Reads f p.1 (omega arith))
              λ q hq.
                Reads-bind _ _ (consume close_paren q.1) _ (consume-Reads close_paren q.1)
                  λ c hc. omega arith)
          (parse_comparison-Reads f ts (omega arith))
