-- ===== src/Identity/Hex.antt =====
-- A password is verified against its own hash.
use Prim.Native.Nat.{◌%◌}
use sustentra_platform.Prelude.{ℕ, ◌/◌, ◌<◌, ◌≡◌, refl, ap, true, some, List, [], ◌∷◌, All, arith}
use sustentra_platform.Text.{Text, eq_refl}
use sustentra_platform.Identity.Passwords.{
  Hashing, hex_digit, to_hex, hex_value, from_hex, hash_password, verify_password,
}

abbrev pub AreBytes : List ℕ → Type 0
AreBytes bs = All (λ b. b < 256) bs

hex_value-hex_digit : (n : ℕ) → n < 16 → hex_value (hex_digit n) ≡ some n
hex_value-hex_digit n h = ground arith

from_hex-to_hex : (bs : List ℕ) → AreBytes bs → from_hex (to_hex bs) ≡ some bs
unfolding to_hex from_hex
from_hex-to_hex [] h = refl
from_hex-to_hex (b ∷ bs) h = rw (hex_value-hex_digit (b / 16) (omega arith)) (
    rw (hex_value-hex_digit (b % 16) (omega arith))
      (rw (from_hex-to_hex bs h.1) (ap (λ n. some (n ∷ bs)) (omega arith))))

pub verify_password-hash :
    ⦃hashing : Hashing⦄ (salt : List ℕ) (password : Text)
    → AreBytes salt
    → AreBytes (hashing.pbkdf2 password salt)
    → let hashed = hash_password salt password in verify_password password hashed.0 hashed.1 ≡ true
unfolding hash_password verify_password
verify_password-hash ⦃hashing⦄ salt password h k =
    rw (from_hex-to_hex salt h) (rw (from_hex-to_hex _ k) (eq_refl (hashing.pbkdf2 password salt)))
