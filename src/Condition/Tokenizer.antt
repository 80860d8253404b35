-- ===== src/Condition/Tokenizer.antt =====
-- `_tokenize`: the alternatives of TOKEN_PATTERN in their order. Word characters and letters are
-- those of ASCII.
pub mod Progress
use sustentra_platform.Prelude.{
  ℕ, zero, suc, ◌-◌, ◌≡◌, refl, Bool, true, false, not, ◌&&◌, ◌||◌, List, [], ◌∷◌, ◌++◌, Option,
  none, some, leb, nat_eq, length, if◌then◌else◌,
}
use sustentra_platform.Text.{Text, lit, is_space, drop_space}
use sustentra_platform.Condition.Token.{
  Kind, conj, disj, membership, ident, value, equals, open_paren, close_paren, comma, Token,
  syntax_near, Outcome, ok, unsupported, out_of_fuel, bind,
}

upper : ℕ → ℕ
upper c = if leb b'a' c && leb c b'z' then c - 32 else c

is_letter : ℕ → Bool
is_letter c = (leb b'A' c && leb c b'Z') || (leb b'a' c && leb c b'z')

is_digit : ℕ → Bool
is_digit c = leb b'0' c && leb c b'9'

-- `\w`
is_word : ℕ → Bool
unfolding is_letter is_digit
is_word c = is_letter c || is_digit c || nat_eq c b'_'

-- `[A-Za-z0-9_-]`
is_ident_char : ℕ → Bool
unfolding is_word
is_ident_char c = is_word c || nat_eq c b'-'

-- `[^(),=\s]`
is_literal_char : ℕ → Bool
is_literal_char c =
    not (nat_eq c b'(' || nat_eq c b')' || nat_eq c b',' || nat_eq c b'=' || is_space c)

-- A greedy `[...]*`: what it takes and what is left.
span : (ℕ → Bool) → Text → Text × Text
span p [] = ([], [])
span p (c ∷ s) = let (taken, rest) = span p s in if p c then (c ∷ taken, rest) else ([], c ∷ s)

-- `\b` behind a letter.
at_boundary : Text → Bool
unfolding is_word
at_boundary [] = true
at_boundary (c ∷ s) = not (is_word c)

-- What is left behind the letters of a keyword, in either case.
after_word : Text → Text → Option Text
unfolding upper
after_word [] s = some s
after_word (k ∷ ks) [] = none
after_word (k ∷ ks) (c ∷ s) =
    let rest = after_word ks s in if nat_eq k (upper c) then rest else none

after_keyword : Kind → Text → Option Text → Option (Token × Text)
unfolding at_boundary
after_keyword k word none = none
after_keyword k word (some rest) =
    if at_boundary rest then some (record { kind = k; text = word }, rest) else none

-- One alternative of `(AND|OR|IN)\b`.
keyword : Kind → Text → Text → Option (Token × Text)
unfolding after_word after_keyword
keyword k word s = after_keyword k word (after_word word s)

identifier : Text → Option (Token × Text)
unfolding is_letter is_ident_char span
identifier [] = none
identifier (c ∷ s) =
    let (taken, rest) = span is_ident_char s in
    if is_letter c then some (record { kind = ident; text = c ∷ taken }, rest) else none

-- `'[^']*'` for the quote `q`: the text with its quotes.
quoted : ℕ → Text → Option (Text × Text)
unfolding span
quoted q [] = none
quoted q (c ∷ s) =
    let (taken, rest) = span (λ d. not (nat_eq d q)) s in
    if nat_eq c q then (elim rest [ [] ↦ none | d ∷ r ↦ some (c ∷ taken ++ d ∷ [], r) ]) else none

-- `s[0] == q and s[-1] == q`
last_is : ℕ → Text → Bool
last_is q [] = false
last_is q (c ∷ []) = nat_eq c q
last_is q (c ∷ s) = last_is q s

-- `s[:-1]`
drop_last : Text → Text
drop_last [] = []
drop_last (c ∷ []) = []
drop_last (c ∷ s) = c ∷ drop_last s

-- `_strip_quotes`
strip_quotes : Text → Text
unfolding last_is drop_last
strip_quotes [] = []
strip_quotes (c ∷ s) =
    if (nat_eq c b'\'' && last_is b'\'' (c ∷ s)) || (nat_eq c b'"' && last_is b'"' (c ∷ s))
    then drop_last s
    else c ∷ s

some_characters : Text → Text → Option (Text × Text)
some_characters [] rest = none
some_characters (c ∷ taken) rest = some (c ∷ taken, rest)

bare : Text → Option (Text × Text)
unfolding span is_literal_char some_characters
bare s = let (taken, rest) = span is_literal_char s in some_characters taken rest

or_else {ℓ} : {A : Type ℓ} → Option A → Option A → Option A
or_else none o = o
or_else (some a) o = some a

value_token : Option (Text × Text) → Option (Token × Text)
unfolding strip_quotes
value_token none = none
value_token (some (raw, rest)) = some (record { kind = value; text = strip_quotes raw }, rest)

-- `('[^']*'|"[^"]*"|[^(),=\s]+)`
literal : Text → Option (Token × Text)
unfolding or_else quoted bare value_token
literal s = value_token (or_else (quoted b'\'' s) (or_else (quoted b'"' s) (bare s)))

punctuation : Text → Option (Token × Text)
punctuation [] = none
punctuation (c ∷ s) =
    if nat_eq c b'='
    then some (record { kind = equals; text = lit "=" }, s)
    else if nat_eq c b'('
    then some (record { kind = open_paren; text = lit "(" }, s)
    else if nat_eq c b')'
    then some (record { kind = close_paren; text = lit ")" }, s)
    else if nat_eq c b','
    then some (record { kind = comma; text = lit "," }, s)
    else none

-- One match of TOKEN_PATTERN behind its leading `\s*`.
match_token : Text → Option (Token × Text)
unfolding or_else keyword identifier literal punctuation
match_token s = or_else (keyword conj (lit "AND") s) (
    or_else (keyword disj (lit "OR") s) (
      or_else (keyword membership (lit "IN") s)
        (or_else (identifier s) (or_else (literal s) (punctuation s)))))

-- The loop of `_tokenize`, which reads at least one character in each round.
tokenize_from : ℕ → Text → Outcome (List Token)
tokenize_from zero s = out_of_fuel
tokenize_from (suc f) [] = ok []
tokenize_from (suc f) (c ∷ s) = elim (match_token (drop_space (c ∷ s))) [
  | none ↦ unsupported (syntax_near (c ∷ s))
  | some (t, rest) ↦ bind (tokenize_from f rest) (λ ts. ok (t ∷ ts))
]

unfoldable pub tokenize : Text → Outcome (List Token)
unfolding tokenize_from match_token drop_space
tokenize s = tokenize_from (suc (length s)) s

tok : Kind → Text → Token
tok k s = record { kind = k; text = s }

tokenize_test :
    tokenize (lit "S1-STC-010 in ('natural gas', Diesel)")
    ≡ ok (
        tok ident (lit "S1-STC-010")
        ∷ tok membership (lit "IN")
        ∷ tok open_paren (lit "(")
        ∷ tok value (lit "natural gas")
        ∷ tok comma (lit ",")
        ∷ tok ident (lit "Diesel")
        ∷ tok close_paren (lit ")")
        ∷ [])
unfolding tokenize tok
tokenize_test = refl

-- `OR` in front of a dash is a keyword.
tokenize_dash : tokenize (lit "OR-1") ≡ ok (tok disj (lit "OR") ∷ tok value (lit "-1") ∷ [])
unfolding tokenize tok
tokenize_dash = refl

tokenize_trailing_space : tokenize (lit "A = 1 ") ≡ unsupported (syntax_near (lit " "))
unfolding tokenize
tokenize_trailing_space = refl
