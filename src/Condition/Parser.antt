-- ===== src/Condition/Parser.antt =====
-- `_Parser`, which evaluates while it reads. Python's `or` and `and` do not call their right side
-- where the left decides, so the tokens of that side are then not read.
use sustentra_platform.Prelude.{
  ℕ, zero, suc, Bool, true, false, List, [], ◌∷◌, ◌++◌, none, some, any, if◌then◌else◌,
}
use sustentra_platform.Text.{Text, lit, ◌==◌, normalize}
use sustentra_platform.Value.{Numbers, Value, null, bool, text, number}
use sustentra_platform.Dict.{text_key, Dict, get}
use sustentra_platform.Condition.Token.{
  Kind, conj, disj, membership, ident, value, equals, open_paren, close_paren, comma, Token,
  same_kind, Outcome, ok, unsupported, unknown, out_of_fuel, bind, expected, expected_operator,
  unexpected_token, missing_value,
}

abbrev pub Tokens : Type 0
Tokens = List Token

-- The text of the next token in a message.
abbrev pub next_text : Tokens → Text
next_text [] = lit "EOF"
next_text (t ∷ ts) = t.text

-- `_peek`
unfoldable pub peek : Kind → Tokens → Bool
peek k [] = false
peek k (t ∷ ts) = same_kind t.kind k

-- `_consume`
unfoldable pub consume : Kind → Tokens → Outcome (Token × Tokens)
consume k [] = unsupported (expected k (lit "EOF"))
consume k (t ∷ ts) = if same_kind t.kind k then ok (t, ts) else unsupported (expected k t.text)

-- `_consume_value`
unfoldable pub consume_value : Tokens → Outcome (Token × Tokens)
unfolding peek consume
consume_value ts = if peek ident ts then consume ident ts else consume value ts

-- `while self._peek(","): ...` of an `IN` list; the values read so far come first.
unfoldable pub more_values : ℕ → List Text → Tokens → Outcome (List Text × Tokens)
more_values zero acc ts = out_of_fuel
more_values (suc f) acc ts = elim (peek comma ts) [
  | false ↦ ok (acc, ts)
  | true ↦
      bind (consume comma ts)
        λ p. bind (consume_value p.1) λ q. more_values f (acc ++ q.0.text ∷ []) q.1
]

-- `expect_end`
unfoldable pub expect_end : Tokens → Outcome (Unit {0})
expect_end [] = ok tt
expect_end (t ∷ ts) = unsupported (unexpected_token t.text)

module _ {N : Type 0} ⦃numbers : Numbers N⦄ where
  -- `_normalize_value`
  unfoldable pub normalize_value : Value N → Text
  normalize_value (bool true) = lit "true"
  normalize_value (bool false) = lit "false"
  normalize_value null = normalize (lit "None")
  normalize_value (text s) = normalize s
  normalize_value (number n) = normalize (numbers.show n)

  module _ (values : Dict (Value N)) where
    -- `_lookup`: a missing key and a `None` are unknown.
    unfoldable pub lookup_value : Text → Outcome (Value N)
    lookup_value field = elim (get field values) [
      | none ↦ unknown (missing_value field)
      | some v ↦ elim v [
        | null ↦ unknown (missing_value field)
        | bool b ↦ ok (bool b)
        | text s ↦ ok (text s)
        | number n ↦ ok (number n)
      ]
    ]

    -- `_normalize_value(self._lookup(field))`
    unfoldable pub actual : Text → Outcome Text
    unfolding lookup_value
    actual field = bind (lookup_value field) λ v. ok (normalize_value v)

    -- `_normalize_value(self._lookup(field)) == _normalize_value(expected)`
    unfoldable pub equals_value : Text → Text → Outcome Bool
    equals_value field expected_text = bind (actual field) λ a. ok (a == normalize expected_text)

    -- `actual in {_normalize_value(value) for value in expected_values}`
    unfoldable pub one_of_values : Text → List Text → Outcome Bool
    one_of_values field expected_texts =
        bind (actual field) λ a. ok (any (λ e. a == normalize e) expected_texts)

    -- The rest of `parse_comparison` behind `IN`.
    unfoldable pub parse_members : ℕ → Text → Tokens → Outcome (Bool × Tokens)
    parse_members f field ts = bind (consume open_paren ts) λ p. bind (consume_value p.1) λ q.
        bind (more_values f (q.0.text ∷ []) q.1)
          λ m. bind (consume close_paren m.1) λ c. bind (one_of_values field m.0) λ b. ok (b, c.1)

    unfoldable pub parse_equals : Text → Tokens → Outcome (Bool × Tokens)
    parse_equals field ts =
        bind (consume equals ts)
          λ p. bind (consume_value p.1) λ q. bind (equals_value field q.0.text) λ b. ok (b, q.1)

    -- `parse_comparison`
    unfoldable pub parse_comparison : ℕ → Tokens → Outcome (Bool × Tokens)
    unfolding parse_members parse_equals
    parse_comparison f ts = bind (consume ident ts) λ p.
        if peek equals p.1
        then parse_equals p.0.text p.1
        else if peek membership p.1
        then (bind (consume membership p.1) λ q. parse_members f p.0.text q.1)
        else unsupported (expected_operator p.0.text)

    unfoldable mutual
      pub parse_expression : ℕ → Tokens → Outcome (Bool × Tokens)
      parse_expression zero ts = out_of_fuel
      parse_expression (suc f) ts = bind (parse_term f ts) λ p. or_loop f p.0 p.1

      -- `while self._peek("OR")`: with `result` true the right side is not called.
      pub or_loop : ℕ → Bool → Tokens → Outcome (Bool × Tokens)
      or_loop zero result ts = out_of_fuel
      or_loop (suc f) result ts = elim (peek disj ts) [
        | false ↦ ok (result, ts)
        | true ↦ bind (consume disj ts) λ p. elim result [
          | true ↦ or_loop f true p.1
          | false ↦ bind (parse_term f p.1) λ q. or_loop f q.0 q.1
        ]
      ]

      pub parse_term : ℕ → Tokens → Outcome (Bool × Tokens)
      parse_term zero ts = out_of_fuel
      parse_term (suc f) ts = bind (parse_factor f ts) λ p. and_loop f p.0 p.1

      -- `while self._peek("AND")`: with `result` false the right side is not called.
      pub and_loop : ℕ → Bool → Tokens → Outcome (Bool × Tokens)
      and_loop zero result ts = out_of_fuel
      and_loop (suc f) result ts = elim (peek conj ts) [
        | false ↦ ok (result, ts)
        | true ↦ bind (consume conj ts) λ p. elim result [
          | false ↦ and_loop f false p.1
          | true ↦ bind (parse_factor f p.1) λ q. and_loop f q.0 q.1
        ]
      ]

      pub parse_factor : ℕ → Tokens → Outcome (Bool × Tokens)
      parse_factor zero ts = out_of_fuel
      parse_factor (suc f) ts = elim (peek open_paren ts) [
        | false ↦ parse_comparison f ts
        | true ↦ bind (consume open_paren ts) λ p.
            bind (parse_expression f p.1) λ q. bind (consume close_paren q.1) λ c. ok (q.0, c.1)
      ]
