-- ===== src/Auth/Challenge.antt =====
-- backend/app/services/login.py from `_load_challenge` on: `verify_login` and `resend_code`.
use sustentra_platform.Prelude.{
  ℕ, ◌+◌, ◌-◌, Bool, true, not, ◌&&◌, ◌||◌, Option, none, some, [], ◌∷◌, ltb, leb, max,
  if◌then◌else◌, is_some,
}
use sustentra_platform.Text.{Text, lit, strip}
use sustentra_platform.Auth.Database.{
  Time, User, AuthToken, MetaValue, Database, Scope, scope_of, is_active, is_login_otp,
  has_active_organization, find_organization, find_user, update_user, update_token,
  auth_resolve_challenge, purge_expired_auth_rows,
}
use sustentra_platform.Auth.Primitives.{Crypto, hash_otp, verify_otp, new_otp}
use sustentra_platform.Auth.Session.{create_session}
use sustentra_platform.Auth.Outcome.{
  Request, invalid_code, too_many_codes, please_wait, accepted, signed_in, LoginOutcome, respond,
  fail, ceil_seconds, locked, locked_response, otp_ttl, max_otp_attempts, resend_cooldown,
  max_resends,
}
use sustentra_platform.Auth.Login.{mark_consumed, audit_user, record_failure}

-- `row is None or row["type"] != "login_otp"`
abbrev pub only_login_otp : Option AuthToken → Option AuthToken
only_login_otp none = none
only_login_otp (some row) = if is_login_otp row.token_type then some row else none

-- `_usable`
abbrev pub is_usable : AuthToken → Time → Bool
is_usable challenge now = not (is_some challenge.consumed_at) && ltb now challenge.expires_at

-- `challenge is None or not _usable(challenge, now)`
abbrev pub usable : Option AuthToken → Time → Option AuthToken
usable none now = none
usable (some challenge) now = if is_usable challenge now then some challenge else none

-- `o.status` of the join, compared with "active"
abbrev pub owner_org_active : User → Database → Bool
owner_org_active user db =
    has_active_organization (elim user.org_id [ none ↦ none | some k ↦ find_organization k db ])

-- `user["status"] != "active" or (user["org_id"] and user["org_status"] != "active")`
abbrev pub is_barred : User → Database → Bool
is_barred user db =
    not (is_active user.status) || (is_some user.org_id && not (owner_org_active user db))

-- `SET attempt_count = :n`
abbrev pub set_attempts : ℕ → AuthToken → AuthToken
set_attempts n t = record t { attempt_count = n }

-- `SET failed_login_count = 0, locked_until = NULL, last_login_at = :now, updated_at = :now`
abbrev pub clear_failures : Time → User → User
clear_failures now u = record u {
  failed_login_count = 0;
  locked_until = none;
  last_login_at = some now;
  updated_at = now;
}

-- `SET token_hash = :hash, resend_count = resend_count + 1, last_sent_at = :now, attempt_count = 0, …`
abbrev pub renew : Time → Text → AuthToken → AuthToken
renew now hash t = record t {
  token_hash = hash;
  resend_count = t.resend_count + 1;
  last_sent_at = some now;
  attempt_count = 0;
  expires_at = now + otp_ttl;
}

-- The branch of a wrong code.
unfoldable pub wrong_code : Request → Scope → AuthToken → User → Database → Database
wrong_code request scope challenge user db =
    let attempts = challenge.attempt_count + 1 in
    if leb max_otp_attempts attempts
    then record_failure request scope user (lit "otp_attempts_exhausted") (
        audit_user request (lit "otp_fail") user
          ((lit "challenge_invalidated", MetaValue.bool true) ∷ [])
          (update_token scope challenge.id
            (λ t. mark_consumed request.now (set_attempts attempts t)) db))
    else audit_user request (lit "otp_fail") user ((lit "attempts", MetaValue.number attempts) ∷ [])
        (update_token scope challenge.id (set_attempts attempts) db)

-- `now - last_sent < RESEND_COOLDOWN`, with the time left
abbrev pub cooldown_left : Option Time → Time → Option Time
cooldown_left none now = none
cooldown_left (some sent) now =
    if ltb now (sent + resend_cooldown) then some (sent + resend_cooldown - now) else none

module _ ⦃crypto : Crypto⦄ where
  -- `_load_challenge`; the scope that it sets is that of the challenge's organization.
  unfoldable pub load_challenge : Text → Database → Option AuthToken
  load_challenge challenge_id db = elim (crypto.parse_uuid challenge_id) [
    | none ↦ none
    | some k ↦ only_login_otp (auth_resolve_challenge k db)
  ]

  -- The statements from "# Success." on.
  unfoldable pub sign_in : Request → Scope → AuthToken → User → Database → Database × LoginOutcome
  sign_in request scope challenge user db =
      let consumed = update_token scope challenge.id (mark_consumed request.now) db in
      let cleared = update_user scope user.id (clear_failures request.now) consumed in
      let created =
        create_session request.new_session_id request.new_token request.session_now user.id
          user.org_id request.meta.ip request.meta.user_agent cleared in
      (
        audit_user request (lit "login_success") user []
            (purge_expired_auth_rows request.database_now created.0),
        record (respond 200
            (signed_in (crypto.show_uuid user.id)
              (elim user.org_id [ none ↦ none | some k ↦ some (crypto.show_uuid k) ]) user.role)
            none) { session_token = some created.1 },
      )

  -- From the row of the owner on.
  unfoldable pub verify_owner :
      Request → Text → AuthToken → Option User → Database → Database × LoginOutcome
  verify_owner request code challenge none db = (db, fail invalid_code)
  verify_owner request code challenge (some user) db =
      if is_barred user db
      then (db, fail invalid_code)
      else elim (locked user.locked_until request.now) [
        | some until ↦ (db, locked_response until request.now)
        | none ↦
            if verify_otp (crypto.show_uuid challenge.id) (strip code) challenge.token_hash
            then sign_in request (scope_of challenge.org_id) challenge user db
            else (
              wrong_code request (scope_of challenge.org_id) challenge user db,
              fail invalid_code,
            )
      ]

  -- `verify_login`
  unfoldable pub verify_login : Request → Text → Text → Database → Database × LoginOutcome
  verify_login request challenge_id code db =
      elim (usable (load_challenge challenge_id db) request.now) [
        | none ↦ (db, fail invalid_code)
        | some challenge ↦
            verify_owner request code challenge
              (find_user (scope_of challenge.org_id) challenge.user_id db) db
      ]

  -- From "code = new_otp()" on.
  unfoldable pub renew_code : Request → AuthToken → User → Database → Database × LoginOutcome
  renew_code request challenge user db =
      let code = new_otp request.otp_number in
      (
        audit_user request (lit "otp_resent") user
            ((lit "resend_count", MetaValue.number (challenge.resend_count + 1)) ∷ [])
            (update_token (scope_of challenge.org_id) challenge.id
              (renew request.now (hash_otp (crypto.show_uuid challenge.id) code)) db),
        record (respond 202 accepted none) { otp_email = some user.email; otp_code = some code },
      )

  -- From the row of the owner on.
  unfoldable pub resend_owner :
      Request → AuthToken → Option User → Database → Database × LoginOutcome
  resend_owner request challenge none db = (db, respond 202 accepted none)
  resend_owner request challenge (some user) db =
      if is_active user.status
      then renew_code request challenge user db
      else (db, respond 202 accepted none)

  -- From a usable challenge on.
  unfoldable pub resend_usable : Request → AuthToken → Database → Database × LoginOutcome
  resend_usable request challenge db =
      if leb max_resends challenge.resend_count
      then (db, respond 429 too_many_codes none)
      else elim (cooldown_left challenge.last_sent_at request.now) [
        | some wait ↦ (db, respond 429 please_wait (some (max 1 (ceil_seconds wait))))
        | none ↦
            resend_owner request challenge
              (find_user (scope_of challenge.org_id) challenge.user_id db) db
      ]

  -- `resend_code`
  unfoldable pub resend_code : Request → Text → Database → Database × LoginOutcome
  resend_code request challenge_id db = elim (usable (load_challenge challenge_id db) request.now) [
    | none ↦ (db, respond 202 accepted none)
    | some challenge ↦ resend_usable request challenge db
  ]
