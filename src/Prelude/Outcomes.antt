-- ===== src/Prelude/Outcomes.antt =====
-- A call that may raise.
use mathlib.Core.Bool.{Bool, true, false}
use mathlib.Core.Path.{◌≡◌}

pub data Result (E A : Type 0) : Type 0 where
  ok : A → Result E A
  error : E → Result E A

module _ {E : Type 0} where
  pub ok_inj : {A : Type 0} {a b : A} → (let r : Result E A = ok a in r ≡ ok b) → a ≡ b
  ok_inj e = cc

  infixl 5 ◌>>=◌ ◌>>◌
  abbrev pub ◌>>=◌ : {A B : Type 0} → Result E A → (A → Result E B) → Result E B
  ok a >>= f = f a
  error e >>= f = error e

  abbrev pub ◌>>◌ : {B : Type 0} → Result E (Unit {0}) → Result E B → Result E B
  m >> k = m >>= λ _. k

  -- `if not test: raise e`
  abbrev pub require : Bool → E → Result E (Unit {0})
  require true e = ok tt
  require false e = error e
