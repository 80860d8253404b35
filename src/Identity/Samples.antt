-- ===== src/Identity/Samples.antt =====
-- A small state of the identity service, and a key derivation, to run it on.
use sustentra_platform.Prelude.{◌+◌, none, some, [], ◌∷◌, ◌++◌}
use sustentra_platform.Text.{Text, lit}
use sustentra_platform.Identity.Passwords.{Hashing}
use sustentra_platform.Identity.Records.{
  Time, sustentra_user, client_user, Account, Client, ClientStatus, admin, SessionRecord,
  PasswordReset, stored_account,
}
use sustentra_platform.Identity.State.{Repository, Call, Actor}
use sustentra_platform.Identity.Users.{Credentials, new_account}

-- A key derivation that can be run.
instance abbrev pub toy_hashing : Hashing
toy_hashing = record { pbkdf2 = λ password salt. salt ++ password; sha256_hex = λ token. token }

abbrev pub password : Text
password = lit "password"

abbrev pub call_at : Time → Call
call_at now = record {
  clock = λ n. now + n;
  new_id = λ prefix. prefix ++ lit "_1";
  new_token = lit "token";
  salt = 7 ∷ 255 ∷ [];
  secret = lit "GEZDGNBV";
  recovery_codes = lit "one" ∷ [];
  totp_now = 0;
}

abbrev pub empty_db : Repository
empty_db = record {
  users = [];
  clients = [];
  client_users = [];
  sessions = [];
  resets = [];
  challenges = [];
  audit = [];
}

abbrev pub ann_credentials : Credentials
ann_credentials = record { username = lit "ann"; email = lit "ann@x.org"; password = password }

abbrev pub ann : Account
ann = new_account (call_at 1000) (lit "usr_1") (some admin) none (lit "system") ann_credentials

abbrev pub cal_credentials : Credentials
cal_credentials = record { username = lit "cal"; email = lit "cal@x.org"; password = password }

abbrev pub cal : Account
cal =
    new_account (call_at 1000) (lit "cu_1") none (some (lit "cli_1")) (lit "usr_1") cal_credentials

abbrev pub client : Client
client = record {
  client_id = lit "cli_1";
  name = lit "Client";
  code = lit "c1";
  contact_email = none;
  notes = none;
  status = ClientStatus.active;
  created_at = 0;
  created_by = lit "usr_1";
  updated_at = 0;
  updated_by = lit "usr_1";
}

abbrev pub ann_session : SessionRecord
ann_session = record {
  session_id = lit "ses_1";
  token = lit "t1";
  actor_id = lit "usr_1";
  actor_type = sustentra_user;
  created_at = 0;
  expires_at = 100000;
  revoked_at = none;
}

abbrev pub reset : PasswordReset
reset = record {
  reset_id = lit "rst_1";
  actor_id = lit "usr_1";
  actor_type = sustentra_user;
  token_hash = lit "r1";
  created_at = 0;
  expires_at = 100000;
  used_at = none;
}

abbrev pub sample_db : Repository
sample_db = record {
  users = ann ∷ [];
  clients = client ∷ [];
  client_users = cal ∷ [];
  sessions = ann_session ∷ [];
  resets = reset ∷ [];
  challenges = [];
  audit = [];
}

abbrev pub ann_actor : Actor
ann_actor = record { actor_id = lit "usr_1"; actor_type = sustentra_user; client_id = none }

abbrev pub cal_actor : Actor
cal_actor = record {
  actor_id = lit "cu_1";
  actor_type = client_user;
  client_id = some (lit "cli_1");
}
