-- ===== src/Auth/Primitives.antt =====
-- backend/app/core/security_primitives.py, over bcrypt, SHA-256, HMAC, UUIDs and the bundled list of
-- common passwords, which are parameters.
use sustentra_platform.Prelude.{
  ℕ, ◌+◌, ◌/◌, Bool, true, false, ◌||◌, Option, none, some, List, [], ◌∷◌, ◌++◌, any, ltb, length,
  if◌then◌else◌,
}
use Prim.Native.Nat.{◌%◌}
use sustentra_platform.Text.{Text, lit, ◌==◌, normalize, is_truthy}
use sustentra_platform.Auth.Database.{Uuid}

-- The third-party code. Bytes are numbers.
pub record Crypto : Type 0 where
  pub encode_utf8 : Text → List ℕ
  -- `base64.b64encode(hashlib.sha256(raw).digest())`
  pub prehash : List ℕ → List ℕ
  -- `bcrypt.hashpw(raw, salt).decode("ascii")`
  pub hashpw : List ℕ → List ℕ → Text
  -- `bcrypt.checkpw(raw, hash)`; `none` for a ValueError
  pub checkpw : List ℕ → Text → Option Bool
  pub sha256_hex : Text → Text
  -- `hmac.new(key, message, sha256).hexdigest()` under the configured secret
  pub hmac_hex : Text → Text
  pub show_uuid : Uuid → Text
  -- `uuid.UUID(s)`; `none` for a ValueError
  pub parse_uuid : Text → Option Uuid
  -- The lines of data/common_passwords.txt that are not blank, stripped and in lower case.
  pub common_passwords : List Text

abbrev pub bcrypt_max_bytes : ℕ
bcrypt_max_bytes = 72

abbrev pub password_min_length : ℕ
password_min_length = 12

abbrev pub password_max_length : ℕ
password_max_length = 128

-- `_BUILTIN_COMMON`
abbrev builtin_common : List Text
builtin_common =
    lit "password"
    ∷ lit "password1"
    ∷ lit "password123"
    ∷ lit "passw0rd"
    ∷ lit "123456"
    ∷ lit "12345678"
    ∷ lit "123456789"
    ∷ lit "1234567890"
    ∷ lit "123456789012"
    ∷ lit "qwerty"
    ∷ lit "qwertyuiop"
    ∷ lit "qwerty123"
    ∷ lit "letmein"
    ∷ lit "welcome"
    ∷ lit "welcome123"
    ∷ lit "admin"
    ∷ lit "admin123"
    ∷ lit "iloveyou"
    ∷ lit "abc123"
    ∷ lit "111111"
    ∷ lit "000000"
    ∷ lit "changeme"
    ∷ lit "passwordpassword"
    ∷ lit "sustentra"
    ∷ lit "sustentra123"
    ∷ []

-- The texts `VIOLATION_…`
pub data Violation : Type 0 where
  too_short too_long common equals_email : Violation

-- `s in words`
abbrev pub contains_text : List Text → Text → Bool
contains_text words s = any (λ w. w == s) words

abbrev pub violation_if : Bool → Violation → List Violation
violation_if true v = v ∷ []
violation_if false v = []

abbrev pub is_same_email : Text → Option Text → Bool
is_same_email plain none = false
is_same_email plain (some email) =
    if is_truthy (some email) then normalize plain == normalize email else false

module _ ⦃crypto : Crypto⦄ where
  -- `_bcrypt_input`
  unfoldable pub bcrypt_input : Text → List ℕ
  bcrypt_input plain =
      let raw = crypto.encode_utf8 plain in
      if ltb bcrypt_max_bytes (length raw) then crypto.prehash raw else raw

  -- `hash_password`, with the salt that `gensalt` draws
  unfoldable pub hash_password : List ℕ → Text → Text
  hash_password salt plain = crypto.hashpw (bcrypt_input plain) salt

  -- `verify_password`; the check against the dummy hash answers nothing.
  unfoldable pub verify_password : Text → Option Text → Bool
  verify_password plain none = false
  verify_password plain (some hash) =
      if is_truthy (some hash)
      then elim (crypto.checkpw (bcrypt_input plain) hash) [ none ↦ false | some b ↦ b ]
      else false

  -- `plain.strip().lower() in _common_passwords()`
  unfoldable pub is_common : Text → Bool
  is_common plain =
      contains_text builtin_common (normalize plain)
      || contains_text crypto.common_passwords (normalize plain)

  -- `validate_password`
  unfoldable pub validate_password : Text → Option Text → List Violation
  validate_password plain email =
      violation_if (ltb (length plain) password_min_length) too_short
      ++ (violation_if (ltb password_max_length (length plain)) too_long
          ++ (violation_if (is_common plain) common
              ++ violation_if (is_same_email plain email) equals_email))

  -- `hash_token`
  unfoldable pub hash_token : Text → Text
  hash_token token = crypto.sha256_hex token

  -- `hash_otp`
  unfoldable pub hash_otp : Text → Text → Text
  hash_otp challenge_id code = crypto.hmac_hex (challenge_id ++ (b':' ∷ code))

  -- `verify_otp`
  unfoldable pub verify_otp : Text → Text → Text → Bool
  verify_otp challenge_id code expected_hash = hash_otp challenge_id code == expected_hash

abbrev pub digit : ℕ → ℕ
digit n = b'0' + n % 10

-- `new_otp`: `f"{n:06d}"` for the number below 10 ** 6 that `randbelow` draws
unfoldable pub new_otp : ℕ → Text
new_otp n =
    digit (n / 100000)
    ∷ digit (n / 10000)
    ∷ digit (n / 1000)
    ∷ digit (n / 100)
    ∷ digit (n / 10)
    ∷ digit n
    ∷ []
