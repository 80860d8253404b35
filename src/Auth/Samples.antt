-- ===== src/Auth/Samples.antt =====
-- An organization with a user, and stand-ins for the third-party code, to run the auth flows on.
use sustentra_platform.Prelude.{Option, none, some, [], ◌∷◌}
use sustentra_platform.Text.{Text, lit, ◌==◌}
use sustentra_platform.Auth.Database.{
  Uuid, Time, minutes, days, Organization, OrganizationStatus, User, UserStatus, org_member,
  AuthToken, login_otp, password_reset, Session, Database,
}
use sustentra_platform.Auth.Primitives.{Crypto}
use sustentra_platform.Auth.Outcome.{Request}

-- A UUID is written as one character.
abbrev pub read_uuid : Text → Option Uuid
read_uuid [] = none
read_uuid (k ∷ []) = some k
read_uuid (k ∷ c ∷ s) = none

instance abbrev pub plain : Crypto
plain = record {
  encode_utf8 = λ s. s;
  prehash = λ raw. raw;
  hashpw = λ raw salt. raw;
  checkpw = λ raw hash. some (raw == hash);
  sha256_hex = λ s. b'#' ∷ s;
  hmac_hex = λ s. s;
  show_uuid = λ k. k ∷ [];
  parse_uuid = read_uuid;
  common_passwords = [];
}

abbrev pub organization : Organization
organization = record { id = 1; slug = lit "acme"; status = OrganizationStatus.active }

abbrev pub user : User
user = record {
  id = 7;
  org_id = some 1;
  email = lit "ann@acme.test";
  role = org_member;
  status = UserStatus.active;
  password_hash = some (lit "correct horse");
  failed_login_count = 3;
  locked_until = none;
  last_login_at = none;
  updated_at = 0;
}

-- A challenge with the code 000042.
abbrev pub challenge : AuthToken
challenge = record {
  id = 100;
  user_id = 7;
  org_id = some 1;
  token_type = login_otp;
  token_hash = 100 ∷ lit ":000042";
  attempt_count = 1;
  resend_count = 0;
  created_at = 0;
  expires_at = minutes 10;
  consumed_at = none;
  last_sent_at = some 0;
}

-- A reset token "tok".
abbrev pub reset_row : AuthToken
reset_row = record challenge { id = 101; token_type = password_reset; token_hash = lit "#tok" }

-- A session with the cookie "abc".
abbrev pub session : Session
session = record {
  id = 200;
  user_id = 7;
  org_id = some 1;
  token_hash = lit "#abc";
  created_at = 0;
  expires_at = days 7;
  last_seen_at = some 0;
  revoked_at = none;
  ip_address = none;
  user_agent = none;
}

abbrev pub db : Database
db = record {
  organizations = organization ∷ [];
  users = user ∷ [];
  auth_tokens = challenge ∷ reset_row ∷ [];
  sessions = session ∷ [];
  audit_logs = [];
}

abbrev pub request_at : Time → Request
request_at now = record {
  meta = record { ip = none; user_agent = none; request_id = none };
  now = now;
  session_now = now;
  database_now = now;
  new_uuid = 300;
  otp_number = 4711;
  new_token = lit "fresh";
  new_session_id = 301;
}
