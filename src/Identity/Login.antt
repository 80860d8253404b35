-- ===== src/Identity/Login.antt =====
-- `login`, `complete_mfa_login`, `logout` and `resolve_session` of
-- backend/app/services/identity_service.py.
use sustentra_platform.Prelude.{
  ℕ, ◌+◌, Bool, not, ◌&&◌, ◌||◌, Option, none, some, any, filter, ltb, is_empty, is_some,
  if◌then◌else◌,
}
use sustentra_platform.Prelude.Outcomes.{Result, ok, error}
use sustentra_platform.Text.{Text, lit, ◌==◌, normalize, is_truthy, or_empty}
use sustentra_platform.Auth.Database.{minutes, hours}
use sustentra_platform.Identity.Passwords.{Hashing, verify_password, hash_token}
use sustentra_platform.Identity.Totp.{Mac, verify_totp}
use sustentra_platform.Identity.Store.{save, find_version}
use sustentra_platform.Identity.Records.{
  Time, ActorType, Account, SessionRecord, MfaChallenge, is_active, actor_text,
}
use sustentra_platform.Identity.State.{
  Repository, Refusal, identity_error, Call, Found, Actor, write_event, write_own_event,
  find_login_record, actor_record, save_actor, revoke,
}

-- What a login answers.
pub data LoginAnswer : Type 0 where
  mfa_required : Text → Time → ActorType → LoginAnswer
  logged_in : Text → Time → Found → LoginAnswer

abbrev pub session_time : Time
session_time = hours 8

abbrev pub challenge_time : Time
challenge_time = minutes 5

-- `_create_mfa_challenge`
abbrev pub new_challenge : Call → Found → MfaChallenge
new_challenge call f = record {
  challenge_id = call.new_id (lit "mfa");
  actor_id = f.account.id;
  actor_type = f.actor_type;
  token = call.new_token;
  created_at = call.clock 0;
  expires_at = call.clock 0 + challenge_time;
  consumed_at = none;
}

-- The session of `_issue_session`.
abbrev pub new_session : Call → ℕ → Found → SessionRecord
new_session call reading f = record {
  session_id = call.new_id (lit "ses");
  token = call.new_token;
  actor_id = f.account.id;
  actor_type = f.actor_type;
  created_at = call.clock reading;
  expires_at = call.clock reading + session_time;
  revoked_at = none;
}

abbrev pub logged_in_at : Time → Account → Account
logged_in_at now a = record a { last_login_at = some now; updated_at = now }

-- `_issue_session`, from a reading of the clock on
unfoldable pub issue_session :
    Call → ℕ → Found → Repository → Repository × Result Refusal LoginAnswer
issue_session call reading f db =
    let session = new_session call reading f in
    let now = call.clock reading in
    let visited = record f { account = logged_in_at now f.account } in
    let opened = record db { sessions = save session db.sessions } in
    (
      write_own_event call (reading + 1) visited (lit "auth.login") (save_actor visited opened),
      ok (logged_in session.token session.expires_at visited),
    )

abbrev pub or_unknown : Text → Text
or_unknown s = if is_empty s then lit "unknown" else s

-- A wrong name or password.
unfoldable pub unknown_login : Call → Text → Repository → Repository
unknown_login call name db =
    write_event call 0 (lit "anonymous") none (lit "auth.login_failed") (lit "login")
      (or_unknown (normalize name)) db

module _ ⦃hashing : Hashing⦄ where
  -- `login`, from the record that was found on
  unfoldable pub login_found :
      Call → Found → Text → Repository → Repository × Result Refusal LoginAnswer
  login_found call f password db =
      if not (is_active f.account.status)
      then (db, error (identity_error 403))
      else if not (verify_password password f.account.password_salt f.account.password_hash)
      then (write_own_event call 0 f (lit "auth.login_failed") db, error (identity_error 401))
      else if f.account.mfa_enabled
      then (
        write_own_event call 1 f (lit "auth.mfa_challenge")
            (record db { challenges = save (new_challenge call f) db.challenges }),
        ok (mfa_required call.new_token (call.clock 0 + challenge_time) f.actor_type),
      )
      else issue_session call 0 f db

  -- `login`
  unfoldable pub login : Call → Text → Text → Repository → Repository × Result Refusal LoginAnswer
  login call name password db = elim (find_login_record name db) [
    | none ↦ (unknown_login call name db, error (identity_error 401))
    | some f ↦ login_found call f password db
  ]

  -- `_match_recovery_code`
  unfoldable pub match_recovery_code : Account → Text → Bool
  match_recovery_code a code = any (λ h. h == hash_token (normalize code)) a.mfa_recovery_hashes

  -- `_consume_recovery_code`: the record without the code; it is saved, too.
  unfoldable pub without_code : Found → Text → Found
  without_code f code = record f {
    account = record f.account {
      mfa_recovery_hashes =
          filter (λ h. not (h == hash_token (normalize code))) f.account.mfa_recovery_hashes;
    };
  }

  -- `record.get("mfa_secret") and verify_totp(…)`
  unfoldable pub match_totp : ⦃mac : Mac⦄ → Account → Text → ℕ → Bool
  match_totp a code at = is_truthy a.mfa_secret && verify_totp (or_empty a.mfa_secret) code at

  -- The challenge is used, and a session is made.
  unfoldable pub finish_mfa :
      Call → MfaChallenge → Found → Repository → Repository × Result Refusal LoginAnswer
  finish_mfa call challenge f db = issue_session call 2 f (record db {
    challenges = save (record challenge { consumed_at = some (call.clock 1) }) db.challenges;
  })

  -- `complete_mfa_login`, from the record of the actor on
  unfoldable pub check_code :
      ⦃mac : Mac⦄
      → Call
      → MfaChallenge
      → Found
      → Text
      → Repository
      → Repository × Result Refusal LoginAnswer
  check_code call challenge f code db =
      if match_totp f.account code call.totp_now
      then finish_mfa call challenge f db
      else if match_recovery_code f.account code
      then finish_mfa call challenge (without_code f code) (save_actor (without_code f code) db)
      else (write_own_event call 1 f (lit "auth.mfa_failed") db, error (identity_error 401))

  -- `record is None or not record.get("mfa_enabled")`
  abbrev pub with_mfa : Option Found → Option Found
  with_mfa none = none
  with_mfa (some f) = if f.account.mfa_enabled then some f else none

  -- `challenge is None or challenge.get("consumed_at")`, and the test of the time
  abbrev pub open_challenge : Option MfaChallenge → Time → Option MfaChallenge
  open_challenge none now = none
  open_challenge (some c) now =
      if is_some c.consumed_at || ltb c.expires_at now then none else some c

  -- `complete_mfa_login`
  unfoldable pub complete_mfa_login :
      ⦃mac : Mac⦄ → Call → Text → Text → Repository → Repository × Result Refusal LoginAnswer
  complete_mfa_login call token code db =
      elim (open_challenge (find_version (λ c. c.token == token) db.challenges) (call.clock 0)) [
        | none ↦ (db, error (identity_error 401))
        | some challenge ↦
            elim (with_mfa (actor_record challenge.actor_id challenge.actor_type db)) [
              | none ↦ (db, error (identity_error 401))
              | some f ↦ check_code call challenge f code db
            ]
      ]

abbrev pub close_session : Call → Option SessionRecord → Repository → Repository
close_session call none db = db
close_session call (some s) db =
    if is_some s.revoked_at
    then db
    else write_event call 1 s.actor_id (some s.actor_type) (lit "auth.logout")
        (actor_text s.actor_type) s.actor_id
        (record db { sessions = save (revoke (call.clock 0) s) db.sessions })

-- `logout`
unfoldable pub logout : Call → Text → Repository → Repository
logout call token db = close_session call (find_version (λ s. s.token == token) db.sessions) db

abbrev pub active_actor : Option Found → Option Actor
active_actor none = none
active_actor (some f) =
    if is_active f.account.status
    then some (record {
      actor_id = f.account.id;
      actor_type = f.actor_type;
      client_id = f.account.client_id;
    })
    else none

-- `session is None or session.get("revoked_at")`, and the test of the time
abbrev pub live_session : Option SessionRecord → Time → Option SessionRecord
live_session none now = none
live_session (some s) now = if is_some s.revoked_at || ltb s.expires_at now then none else some s

-- `resolve_session`
unfoldable pub resolve_session : Text → Time → Repository → Option Actor
resolve_session token now db =
    if is_empty token
    then none
    else elim (live_session (find_version (λ s. s.token == token) db.sessions) now) [
      | none ↦ none
      | some s ↦ active_actor (actor_record s.actor_id s.actor_type db)
    ]
