-- ===== src/Auth/Otp.antt =====
-- The codes that `new_otp` makes.
use sustentra_platform.Prelude.{ℕ, ◌+◌, ◌-◌, ◌*◌, ◌<◌, ◌≡◌, refl, false, [], ◌∷◌, arith, length}
use sustentra_platform.Text.{Text, is_space, drop_space, strip}
use sustentra_platform.Auth.Primitives.{digit, new_otp}

digit-is_space : (n : ℕ) → is_space (digit n) ≡ false
unfolding is_space
digit-is_space n = ground arith

-- A code survives `strip`.
pub strip-new_otp : (n : ℕ) → strip (new_otp n) ≡ new_otp n
unfolding new_otp strip drop_space
strip-new_otp n = simp digit-is_space

-- The number that a code of six digits stands for.
abbrev pub value_of : Text → ℕ → ℕ
value_of [] n = n
value_of (c ∷ s) n = value_of s (n * 10 + (c - 48))

-- Six digits, and the number back: numbers below a million have different codes.
pub new_otp-value : (n : ℕ) → n < 1000000 → (length (new_otp n) ≡ 6) × (value_of (new_otp n) 0 ≡ n)
unfolding new_otp
new_otp-value n h = (refl, omega arith)
