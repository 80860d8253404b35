-- ===== src/Condition/Tokenizer/Progress.antt =====
-- Every match of the token pattern takes a character, so `_tokenize` ends.
use sustentra_platform.Prelude.{
  ℕ, zero, suc, ◌≤◌, ◌<◌, ◌≢◌, refl, Bool, true, false, not, List, [], ◌∷◌, Option, none, some,
  length, arith, nat_eq, if◌then◌else◌,
}
use sustentra_platform.Text.{Text, lit, drop_space}
use sustentra_platform.Condition.Token.{
  Kind, conj, disj, membership, Token, Reason, Outcome, ok, unsupported, unknown, out_of_fuel, bind,
}
use sustentra_platform.Condition.Tokenizer.{
  upper, span, after_word, at_boundary, keyword, identifier, quoted, bare, or_else, literal,
  punctuation, match_token, after_keyword, value_token, some_characters, tokenize_from, tokenize,
  is_ident_char, is_literal_char, is_letter,
}

abbrev Shorter : {A : Type 0} → ℕ → Option (A × Text) → Type 0
Shorter n none = Unit
Shorter n (some p) = length p.1 < n

Shorter-if :
    {A : Type 0} (n : ℕ) (b : Bool) (o : Option (A × Text))
    → Shorter n o
    → Shorter n (if b then o else none)
Shorter-if n true o h = h
Shorter-if n false o h = tt

Shorter-or_else :
    {A : Type 0} (n : ℕ) (o p : Option (A × Text))
    → Shorter n o
    → Shorter n p
    → Shorter n (or_else o p)
unfolding or_else
Shorter-or_else n none p h h' = h'
Shorter-or_else n (some a) p h h' = h

length-drop_space : (s : Text) → length (drop_space s) ≤ length s
unfolding drop_space
length-drop_space [] = omega arith
length-drop_space (c ∷ s) = ground (arith, length-drop_space s)

length-span : (p : ℕ → Bool) (s : Text) → length (span p s).1 ≤ length s
unfolding span
length-span p [] = omega arith
length-span p (c ∷ s) = ground (arith, length-span p s)

abbrev Within : ℕ → Option Text → Type 0
Within n none = Unit
Within n (some r) = length r ≤ n

Within-if : (n : ℕ) (b : Bool) (o : Option Text) → Within n o → Within n (if b then o else none)
Within-if n true o h = h
Within-if n false o h = tt

Within-le : (n m : ℕ) (o : Option Text) → n ≤ m → Within n o → Within m o
Within-le n m none l h = tt
Within-le n m (some r) l h = omega arith

after_word-Within : (k s : Text) → Within (length s) (after_word k s)
unfolding after_word
after_word-Within [] s = omega arith
after_word-Within (k ∷ ks) [] = tt
after_word-Within (k ∷ ks) (c ∷ s) =
    Within-if _ (nat_eq k (upper c)) _
      (Within-le (length s) _ _ (omega arith) (after_word-Within ks s))

after_keyword-Shorter :
    (kind : Kind) (word : Text) (n : ℕ) (o : Option Text)
    → Within n o
    → Shorter (suc n) (after_keyword kind word o)
unfolding after_keyword
after_keyword-Shorter kind word n none h = tt
after_keyword-Shorter kind word n (some r) h = Shorter-if _ (at_boundary r) _ (omega arith)

value_token-Shorter : (n : ℕ) (o : Option (Text × Text)) → Shorter n o → Shorter n (value_token o)
unfolding value_token
value_token-Shorter n none h = tt
value_token-Shorter n (some p) h = h

bare_head :
    (b : Bool) (c : ℕ) (s taken rest : Text)
    → length rest ≤ length s
    → let p : Text × Text = if b then (c ∷ taken, rest) else ([], c ∷ s) in
      Shorter (suc (length s)) (some_characters p.0 p.1)
unfolding some_characters
bare_head true c s taken rest h = omega arith
bare_head false c s taken rest h = tt

bind-ok :
    (o : Outcome (List Token)) (t : Token)
    → o ≢ out_of_fuel
    → bind o (λ ts. ok (t ∷ ts)) ≢ out_of_fuel
bind-ok (ok ts) t h = cc
bind-ok (unsupported r) t h = cc
bind-ok (unknown r) t h = cc
bind-ok out_of_fuel t h = absurd (h refl)

next_token :
    (n : ℕ) (r : Reason) (o : Option (Token × Text)) (k : Text → Outcome (List Token))
    → Shorter n o
    → ((rest : Text) → length rest < n → k rest ≢ out_of_fuel)
    → elim o [ none ↦ unsupported r | some (t, rest) ↦ bind (k rest) (λ ts. ok (t ∷ ts)) ]
      ≢ out_of_fuel
next_token n r none k h g = cc
next_token n r (some (t, rest)) k h g = bind-ok (k rest) t (g rest h)

keyword-Shorter : (kind : Kind) (k : ℕ) (ks s : Text) → Shorter (length s) (keyword kind (k ∷ ks) s)
unfolding keyword
keyword-Shorter kind k ks [] = tt
keyword-Shorter kind k ks (c ∷ s) =
    after_keyword-Shorter kind (k ∷ ks) (length s) _
      (Within-if (length s) (nat_eq k (upper c)) (after_word ks s) (after_word-Within ks s))

identifier-Shorter : (s : Text) → Shorter (length s) (identifier s)
unfolding identifier
identifier-Shorter [] = tt
identifier-Shorter (c ∷ s) =
    Shorter-if _ (is_letter c) _ (omega (arith, length-span is_ident_char s))

quoted-Shorter : (q : ℕ) (s : Text) → Shorter (length s) (quoted q s)
unfolding quoted
quoted-Shorter q [] = tt
quoted-Shorter q (c ∷ s) = ground (arith, length-span (λ d. not (nat_eq d q)) s)

bare-Shorter : (s : Text) → Shorter (length s) (bare s)
unfolding bare span
bare-Shorter [] = tt
bare-Shorter (c ∷ s) = bare_head (is_literal_char c) c s _ _ (length-span is_literal_char s)

literal-Shorter : (s : Text) → Shorter (length s) (literal s)
unfolding literal
literal-Shorter s = value_token-Shorter _ _ (
    Shorter-or_else _ _ _ (quoted-Shorter b'\'' s)
      (Shorter-or_else _ _ _ (quoted-Shorter b'"' s) (bare-Shorter s)))

punctuation-Shorter : (s : Text) → Shorter (length s) (punctuation s)
unfolding punctuation
punctuation-Shorter [] = tt
punctuation-Shorter (c ∷ s) = ground arith

match_token-Shorter : (s : Text) → Shorter (length s) (match_token s)
unfolding match_token
match_token-Shorter s = Shorter-or_else _ _ _ (keyword-Shorter conj b'A' (lit "ND") s) (
    Shorter-or_else _ _ _ (keyword-Shorter disj b'O' (lit "R") s) (
      Shorter-or_else _ _ _ (keyword-Shorter membership b'I' (lit "N") s) (
        Shorter-or_else _ _ _ (identifier-Shorter s)
          (Shorter-or_else _ _ _ (literal-Shorter s) (punctuation-Shorter s)))))

tokenize_from_terminates : (f : ℕ) (s : Text) → length s < f → tokenize_from f s ≢ out_of_fuel
unfolding tokenize_from
tokenize_from_terminates zero s h = absurd (omega arith)
tokenize_from_terminates (suc f) [] h = cc
tokenize_from_terminates (suc f) (c ∷ s) h =
    next_token _ _ (match_token (drop_space (c ∷ s))) _ (match_token-Shorter (drop_space (c ∷ s)))
      λ rest l. tokenize_from_terminates f rest (omega (arith, length-drop_space (c ∷ s)))

-- The tokenizer never runs out of fuel, on any text.
pub tokenize_terminates : (s : Text) → tokenize s ≢ out_of_fuel
unfolding tokenize
tokenize_terminates s = tokenize_from_terminates (suc (length s)) s (omega arith)
