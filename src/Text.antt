-- ===== src/Text.antt =====
-- Python's `str` as a list of code points, with the operations that the services use of it:
-- `==`, `strip`, `casefold` and truth. Letters are ASCII for `casefold`; the white space is all of
-- `str.isspace`.
use Prim.Native.Char.{code}
use Prim.Native.String.{String}
use sustentra_platform.Prelude.{
  ℕ, ◌+◌, ◌≡◌, refl, ◌↔◌, Bool, true, false, not, ◌&&◌, ◌||◌, List, [], ◌∷◌, map, Option, none,
  some, arith, leb, nat_eq, is_empty, if◌then◌else◌,
}
use mathlib.Core.List.{reverse}

abbrev pub Text : Type 0
Text = List ℕ

-- The text of a literal.
abbrev pub lit : String → Text
lit String.[] = []
lit (String.◌∷◌ c s) = code c ∷ lit s

infix 50 ◌==◌
unfoldable pub ◌==◌ : Text → Text → Bool
[] == [] = true
[] == (d ∷ t) = false
(c ∷ s) == [] = false
(c ∷ s) == (d ∷ t) = nat_eq c d && s == t

pub eq_iff : (s t : Text) → ((s == t) ≡ true) ↔ (s ≡ t)
unfolding ◌==◌
eq_iff [] [] = ground arith
eq_iff [] (d ∷ t) = ground arith
eq_iff (c ∷ s) [] = ground arith
eq_iff (c ∷ s) (d ∷ t) = ground (arith, eq_iff s t)

pub eq_refl : (s : Text) → (s == s) ≡ true
eq_refl s = (eq_iff s s).1 refl

-- `c.isspace()`
unfoldable pub is_space : ℕ → Bool
is_space c =
    (leb 9 c && leb c 13)
    || (leb 28 c && leb c 32)
    || nat_eq c 0x85
    || nat_eq c 0xA0
    || nat_eq c 0x1680
    || (leb 0x2000 c && leb c 0x200A)
    || nat_eq c 0x2028
    || nat_eq c 0x2029
    || nat_eq c 0x202F
    || nat_eq c 0x205F
    || nat_eq c 0x3000

unfoldable pub drop_space : Text → Text
unfolding is_space
drop_space [] = []
drop_space (c ∷ s) = let rest = drop_space s in if is_space c then rest else c ∷ s

-- `s.strip()`
unfoldable pub strip : Text → Text
unfolding drop_space
strip s = reverse (drop_space (reverse (drop_space s)))

to_lower : ℕ → ℕ
to_lower c = if leb b'A' c && leb c b'Z' then c + 32 else c

-- `s.casefold()`
unfoldable pub casefold : Text → Text
unfolding to_lower
casefold s = map to_lower s

-- `s.strip().casefold()`, which the services call `_normalize_key` or write out.
unfoldable pub normalize : Text → Text
unfolding strip casefold
normalize s = casefold (strip s)

-- `bool(s.strip())`
unfoldable pub has_content : Text → Bool
unfolding strip
has_content s = not (is_empty (strip s))

-- `s or ""`
abbrev pub or_empty : Option Text → Text
or_empty none = []
or_empty (some s) = s

-- `bool(s)` of a `str | None`
abbrev pub is_truthy : Option Text → Bool
is_truthy none = false
is_truthy (some s) = not (is_empty s)

normalize_test : normalize (lit "  Core\n") ≡ lit "core"
unfolding normalize
normalize_test = refl
