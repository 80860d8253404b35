-- ===== src/Identity/Totp.antt =====
-- backend/app/security/totp.py over HMAC-SHA1, which is a parameter.
use Prim.Native.Nat.{◌%◌}
use sustentra_platform.Prelude.{
  ℕ, ◌+◌, ◌-◌, ◌*◌, ◌/◌, Bool, false, not, ◌||◌, List, [], ◌∷◌, all, nat_eq, length, if◌then◌else◌,
}
use sustentra_platform.Text.{Text, ◌==◌, strip}
use sustentra_platform.Auth.Primitives.{new_otp}
use sustentra_platform.Identity.Passwords.{is_digit}

-- `hmac.new(_normalize_secret(secret), struct.pack(">Q", counter), hashlib.sha1).digest()`
pub record Mac : Type 0 where
  pub digest : Text → ℕ → List ℕ

abbrev pub totp_digits : ℕ
totp_digits = 6

abbrev pub totp_period : ℕ
totp_period = 30

-- `digest[i]`; a digest has twenty bytes, so that the places asked for are there.
abbrev pub byte_at : List ℕ → ℕ → ℕ
byte_at [] i = 0
byte_at (b ∷ bs) i = let rest = byte_at bs (i - 1) in if nat_eq i 0 then b else rest

-- `digest[-1]`
abbrev pub last_byte : List ℕ → ℕ
last_byte [] = 0
last_byte (b ∷ []) = b
last_byte (b ∷ c ∷ bs) = last_byte (c ∷ bs)

-- `struct.unpack(">I", digest[offset : offset + 4])[0] & 0x7FFFFFFF`, with `offset` the low four bits
-- of the last byte
unfoldable pub truncate : List ℕ → ℕ
truncate digest =
    let offset = last_byte digest % 16 in
    (byte_at digest offset * 16777216
      + byte_at digest (offset + 1) * 65536
      + byte_at digest (offset + 2) * 256
      + byte_at digest (offset + 3))
    % 2147483648

-- `s.replace(" ", "")`
unfoldable pub drop_blanks : Text → Text
drop_blanks [] = []
drop_blanks (c ∷ s) = let rest = drop_blanks s in if nat_eq c 32 then rest else c ∷ rest

module _ ⦃mac : Mac⦄ where
  -- `hotp`; the six digits are those of `str(n).zfill(6)`.
  unfoldable pub hotp : Text → ℕ → Text
  hotp secret counter = new_otp (truncate (mac.digest secret counter) % 1000000)

  -- `totp`
  unfoldable pub totp : Text → ℕ → Text
  totp secret at = hotp secret (at / totp_period)

  -- `verify_totp`, from the first thirty seconds of 1970 on
  unfoldable pub verify_totp : Text → Text → ℕ → Bool
  verify_totp secret code at =
      let candidate = drop_blanks (strip code) in
      let counter = at / totp_period in
      if not (all is_digit candidate) || not (nat_eq (length candidate) totp_digits)
      then false
      else hotp secret (counter - 1) == candidate
        || (hotp secret counter == candidate || hotp secret (counter + 1) == candidate)
