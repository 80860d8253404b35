-- ===== src/Identity/Passwords.antt =====
-- backend/app/security/passwords.py, over PBKDF2 and SHA-256, which are parameters.
use Prim.Native.Nat.{◌%◌}
use sustentra_platform.Prelude.{
  ℕ, ◌+◌, ◌-◌, ◌*◌, ◌/◌, Bool, false, not, ◌&&◌, ◌||◌, Option, none, some, List, [], ◌∷◌, all, leb,
  ltb, nat_eq, length, is_empty, if◌then◌else◌,
}
use sustentra_platform.Text.{Text, ◌==◌, is_space, strip, casefold}

-- Bytes are numbers.
pub record Hashing : Type 0 where
  -- `hashlib.pbkdf2_hmac("sha256", password.encode("utf-8"), salt, PBKDF2_ITERATIONS, dklen=HASH_BYTES)`
  pub pbkdf2 : Text → List ℕ → List ℕ
  -- `hashlib.sha256(token.encode("utf-8")).hexdigest()`
  pub sha256_hex : Text → Text

abbrev pub min_password_length : ℕ
min_password_length = 8

abbrev pub hex_digit : ℕ → ℕ
hex_digit n = if ltb n 10 then n + b'0' else n + 87

-- `raw.hex()`
unfoldable pub to_hex : List ℕ → Text
to_hex [] = []
to_hex (b ∷ bs) = hex_digit (b / 16) ∷ hex_digit (b % 16) ∷ to_hex bs

abbrev pub hex_value : ℕ → Option ℕ
hex_value c =
    if leb b'0' c && leb c b'9'
    then some (c - b'0')
    else if leb b'a' c && leb c b'f'
    then some (c - 87)
    else if leb b'A' c && leb c b'F'
    then some (c - 55)
    else none

abbrev pub add_byte : Option ℕ → Option ℕ → Option (List ℕ) → Option (List ℕ)
add_byte none low rest = none
add_byte (some high) none rest = none
add_byte (some high) (some low) none = none
add_byte (some high) (some low) (some bs) = some ((high * 16 + low) ∷ bs)

-- `bytes.fromhex(s)` of digits with no white space between them; `none` for a ValueError
unfoldable pub from_hex : Text → Option (List ℕ)
from_hex [] = some []
from_hex (c ∷ []) = none
from_hex (c ∷ d ∷ s) = add_byte (hex_value c) (hex_value d) (from_hex s)

-- `hmac.compare_digest` on bytes
abbrev pub same_bytes : List ℕ → List ℕ → Bool
same_bytes xs ys = xs == ys

abbrev pub verify_bytes : ⦃hashing : Hashing⦄ → Text → Option (List ℕ) → Option (List ℕ) → Bool
verify_bytes ⦃hashing⦄ password none expected = false
verify_bytes ⦃hashing⦄ password (some salt) none = false
verify_bytes ⦃hashing⦄ password (some salt) (some expected) =
    same_bytes (hashing.pbkdf2 password salt) expected

module _ ⦃hashing : Hashing⦄ where
  -- `hash_password`, with the salt that `os.urandom` draws
  unfoldable pub hash_password : List ℕ → Text → Text × Text
  hash_password salt password = (to_hex salt, to_hex (hashing.pbkdf2 password salt))

  -- `verify_password`
  unfoldable pub verify_password : Text → Text → Text → Bool
  verify_password password salt_hex hash_hex =
      verify_bytes password (from_hex salt_hex) (from_hex hash_hex)

  -- `hash_token`
  unfoldable pub hash_token : Text → Text
  hash_token token = hashing.sha256_hex token

abbrev pub is_digit : ℕ → Bool
is_digit c = leb b'0' c && leb c b'9'

abbrev pub is_alphanumeric : ℕ → Bool
is_alphanumeric c = (leb b'A' c && leb c b'Z') || ((leb b'a' c && leb c b'z') || is_digit c)

-- `[A-Za-z0-9._-]`
abbrev pub is_username_char : ℕ → Bool
is_username_char c = is_alphanumeric c || (nat_eq c b'.' || (nat_eq c b'_' || nat_eq c b'-'))

-- `[A-Za-z0-9_-]`
abbrev pub is_code_char : ℕ → Bool
is_code_char c = is_alphanumeric c || (nat_eq c b'_' || nat_eq c b'-')

-- `USERNAME_RE.fullmatch`
unfoldable pub matches_username : Text → Bool
matches_username s = leb 3 (length s) && (leb (length s) 64 && all is_username_char s)

-- `CLIENT_CODE_RE.fullmatch`
unfoldable pub matches_client_code : Text → Bool
matches_client_code [] = false
matches_client_code (c ∷ s) =
    is_alphanumeric c && (leb 1 (length s) && (leb (length s) 31 && all is_code_char s))

-- `[^@\s]`
abbrev pub is_email_char : ℕ → Bool
is_email_char c = not (nat_eq c b'@') && not (is_space c)

-- `[^@\s]*\.[^@\s]+` in full
unfoldable pub matches_dotted : Text → Bool
matches_dotted [] = false
matches_dotted (c ∷ s) =
    let rest = matches_dotted s in
    (nat_eq c b'.' && (not (is_empty s) && all is_email_char s)) || (is_email_char c && rest)

-- `[^@\s]+\.[^@\s]+` in full
abbrev pub matches_domain : Text → Bool
matches_domain [] = false
matches_domain (c ∷ s) = is_email_char c && matches_dotted s

-- `[^@\s]*@[^@\s]+\.[^@\s]+` in full
unfoldable pub matches_address : Text → Bool
matches_address [] = false
matches_address (c ∷ s) =
    let rest = matches_address s in
    if nat_eq c b'@' then matches_domain s else is_email_char c && rest

-- `EMAIL_RE.fullmatch`
unfoldable pub matches_email : Text → Bool
matches_email [] = false
matches_email (c ∷ s) = is_email_char c && matches_address s

-- `validate_username`; `none` for a ValueError, here and below
unfoldable pub validate_username : Text → Option Text
validate_username username =
    if matches_username (strip username) then some (casefold (strip username)) else none

-- `validate_email`
unfoldable pub validate_email : Text → Option Text
validate_email email =
    let value = casefold (strip email) in if matches_email value then some value else none

-- `validate_password`
unfoldable pub validate_password : Text → Option Text
validate_password password =
    if ltb (length password) min_password_length then none else some password

-- `validate_client_code`
unfoldable pub validate_client_code : Text → Option Text
validate_client_code code =
    if matches_client_code (strip code) then some (casefold (strip code)) else none
