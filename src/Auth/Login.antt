-- ===== src/Auth/Login.antt =====
-- backend/app/services/login.py: the password step, the check of the emailed code, and its renewal.
-- Each operation takes what the call reads from outside and the database, and returns the database
-- and the outcome.
use sustentra_platform.Prelude.{
  ℕ, ◌+◌, Bool, true, not, ◌&&◌, Option, none, some, List, [], ◌∷◌, leb, nat_eq, if◌then◌else◌,
  is_some,
}
use sustentra_platform.Text.{Text, lit, ◌==◌, normalize, is_truthy, or_empty}
use sustentra_platform.Auth.Table.{first_where, update_where}
use sustentra_platform.Auth.Database.{
  Uuid, Time, Organization, User, AuthToken, MetaValue, Database, Scope, tenant, provider,
  is_visible, in_organization, is_active, is_active_organization, is_provider_admin, is_login_otp,
  login_otp, update_user,
}
use sustentra_platform.Auth.Primitives.{Crypto, verify_password, hash_otp, new_otp}
use sustentra_platform.Auth.Audit.{write_audit_event}
use sustentra_platform.Auth.Outcome.{
  max_failed_logins, lockout, otp_ttl, Request, invalid_credentials, challenge_issued, LoginOutcome,
  respond, fail, locked_response, locked,
}

-- `_audit` of an event with no user
unfoldable pub audit_anonymous : Request → Text → Option Uuid → Text → Database → Database
audit_anonymous request event org_id reason db =
    write_audit_event request.meta event org_id none none none
      ((lit "reason", MetaValue.text reason) ∷ []) db

-- `_audit` of an event of a user
unfoldable pub audit_user : Request → Text → User → List (Text × MetaValue) → Database → Database
audit_user request event user metadata db =
    write_audit_event request.meta event user.org_id (some user.id) (some user.role)
      (some (lit "user", user.id)) metadata db

-- `SET failed_login_count = 0, locked_until = :until, updated_at = :now`
abbrev pub lock : Time → User → User
lock now u = record u {
  failed_login_count = 0;
  locked_until = some (now + lockout);
  updated_at = now;
}

-- `SET failed_login_count = :count, updated_at = :now`
abbrev pub set_count : ℕ → Time → User → User
set_count count now u = record u { failed_login_count = count; updated_at = now }

-- `SET consumed_at = :now`
abbrev pub mark_consumed : Time → AuthToken → AuthToken
mark_consumed now t = record t { consumed_at = some now }

-- `_record_failure`
unfoldable pub record_failure : Request → Scope → User → Text → Database → Database
record_failure request scope user reason db =
    let count = user.failed_login_count + 1 in
    let failed = (lit "reason", MetaValue.text reason) ∷ [] in
    if leb max_failed_logins count
    then audit_user request (lit "account_locked") user
        ((lit "locked_minutes", MetaValue.number 15) ∷ [])
        (audit_user request (lit "login_fail") user failed
          (update_user scope user.id (lock request.now) db))
    else audit_user request (lit "login_fail") user failed
        (update_user scope user.id (set_count count request.now) db)

-- `org is None or org["status"] == "active"`
abbrev pub is_org_active : Option Organization → Bool
is_org_active none = true
is_org_active (some org) = is_active_organization org.status

abbrev pub failure_reason : User → Bool → Text
failure_reason user password_ok =
    if not (is_truthy user.password_hash)
    then lit "no_password"
    else if not password_ok
    then lit "wrong_password"
    else if not (is_active user.status)
    then lit "inactive_user"
    else lit "inactive_org"

-- `UPDATE auth_tokens SET consumed_at … WHERE user_id … AND type = 'login_otp' AND consumed_at IS NULL`
unfoldable pub consume_open_challenges : Scope → Uuid → Time → Database → Database
consume_open_challenges scope user_id now db = record db {
  auth_tokens =
      update_where
        (λ t.
          is_visible scope t.org_id
          && (nat_eq t.user_id user_id
              && (is_login_otp t.token_type && not (is_some t.consumed_at))))
        (mark_consumed now) db.auth_tokens;
}

-- `SELECT * FROM users WHERE email = :email AND org_id = :org_id`
unfoldable pub find_member : Uuid → Text → Database → Option User
find_member org_id email db =
    first_where
      (λ u.
        is_visible (tenant org_id) u.org_id
        && (u.email == email && in_organization org_id u.org_id))
      db.users

-- `… WHERE email = :email AND org_id IS NULL AND role = 'provider_admin'`
unfoldable pub find_provider : Text → Database → Option User
find_provider email db =
    first_where
      (λ u.
        is_visible provider u.org_id
        && (u.email == email && (not (is_some u.org_id) && is_provider_admin u.role)))
      db.users

-- `SELECT id, status FROM organizations WHERE slug = :slug`
unfoldable pub find_slug : Text → Database → Option Organization
find_slug slug db = first_where (λ o. o.slug == slug) db.organizations

module _ ⦃crypto : Crypto⦄ where
  -- The new row of `auth_tokens`.
  abbrev pub new_challenge : Request → User → AuthToken
  new_challenge request user = record {
    id = request.new_uuid;
    user_id = user.id;
    org_id = user.org_id;
    token_type = login_otp;
    token_hash = hash_otp (crypto.show_uuid request.new_uuid) (new_otp request.otp_number);
    attempt_count = 0;
    resend_count = 0;
    created_at = request.now;
    expires_at = request.now + otp_ttl;
    consumed_at = none;
    last_sent_at = some request.now;
  }

  -- "Password OK -> new OTP challenge"
  unfoldable pub issue_challenge : Request → Scope → User → Database → Database × LoginOutcome
  issue_challenge request scope user db =
      let closed = consume_open_challenges scope user.id request.now db in
      (
        audit_user request (lit "login_password_ok") user []
            (record closed { auth_tokens = new_challenge request user ∷ closed.auth_tokens }),
        record (respond 200 (challenge_issued (crypto.show_uuid request.new_uuid) 600) none) {
          otp_email = some user.email;
          otp_code = some (new_otp request.otp_number);
        },
      )

  abbrev pub may_sign_in : Text → Option Organization → User → Bool
  may_sign_in password org user =
      verify_password password user.password_hash
      && (is_active user.status && (is_org_active org && is_truthy user.password_hash))

  -- The password step, from the row of the user on.
  unfoldable pub password_step :
      Request
      → Text
      → Option Organization
      → Scope
      → Option User
      → Database
      → Database × LoginOutcome
  password_step request password org scope none db = (
    audit_anonymous request (lit "login_fail") (elim org [ none ↦ none | some o ↦ some o.id ])
        (lit "unknown_user") db,
    fail invalid_credentials,
  )
  password_step request password org scope (some user) db =
      elim (locked user.locked_until request.now) [
        | some until ↦ (db, locked_response until request.now)
        | none ↦ if may_sign_in password org user then issue_challenge request scope user db else (
          record_failure request scope user
              (failure_reason user (verify_password password user.password_hash)) db,
          fail invalid_credentials,
        )
      ]

  member_login : Request → Text → Text → Option Organization → Database → Database × LoginOutcome
  member_login request email password none db = (
    audit_anonymous request (lit "login_fail") none (lit "unknown_org") db,
    fail invalid_credentials,
  )
  member_login request email password (some org) db =
      password_step request password (some org) (tenant org.id) (find_member org.id email db) db

  -- `start_login`; `strip().lower()` is `normalize`.
  unfoldable pub start_login :
      Request → Text → Text → Option Text → Database → Database × LoginOutcome
  unfolding member_login
  start_login request email password org_slug db =
      if is_truthy org_slug
      then member_login request (normalize email) password
          (find_slug (normalize (or_empty org_slug)) db) db
      else password_step request password none provider (find_provider (normalize email) db) db
