-- ===== src/Auth/PasswordReset.antt =====
-- backend/app/services/password_reset.py. `public_base_url`, with no slash at its end, and `quote` are
-- parameters of the link.
use sustentra_platform.Prelude.{
  ℕ, ◌+◌, not, ◌&&◌, ◌||◌, Option, none, some, List, [], ◌∷◌, ◌++◌, leb, nat_eq, is_empty,
  if◌then◌else◌, is_some,
}
use sustentra_platform.Text.{Text, lit, normalize, is_truthy, or_empty}
use sustentra_platform.Auth.Table.{update_where}
use sustentra_platform.Auth.Database.{
  Time, minutes, Uuid, Organization, User, AuthToken, MetaValue, Database, Scope, tenant, provider,
  scope_of, is_visible, is_active, is_active_organization, is_password_reset, password_reset,
  find_user, update_user, update_token, auth_resolve_reset_token,
}
use sustentra_platform.Auth.Primitives.{
  Crypto, Violation, hash_password, validate_password, hash_token,
}
use sustentra_platform.Auth.Session.{revoke_user_sessions}
use sustentra_platform.Auth.Outcome.{Request}
use sustentra_platform.Auth.Login.{mark_consumed, audit_user, find_member, find_provider, find_slug}
use sustentra_platform.Auth.Challenge.{is_barred}

abbrev pub reset_ttl : Time
reset_ttl = minutes 15

pub data ResetBody : Type 0 where
  invalid_token updated : ResetBody
  rejected : List Violation → ResetBody

-- `ResetOutcome`
pub record ResetOutcome : Type 0 where
  pub status : ℕ
  pub body : ResetBody

-- `slug = org_slug.strip().lower() if org_slug else None`
abbrev pub reset_slug : Option Text → Option Text
reset_slug org_slug = if is_truthy org_slug then some (normalize (or_empty org_slug)) else none

-- `UPDATE auth_tokens SET consumed_at … AND type = 'password_reset' AND consumed_at IS NULL`
unfoldable pub consume_open_resets : Scope → Uuid → Time → Database → Database
consume_open_resets scope user_id now db = record db {
  auth_tokens =
      update_where
        (λ t.
          is_visible scope t.org_id
          && (nat_eq t.user_id user_id
              && (is_password_reset t.token_type && not (is_some t.consumed_at))))
        (mark_consumed now) db.auth_tokens;
}

-- The new row of `auth_tokens`.
abbrev pub new_reset : ⦃crypto : Crypto⦄ → Request → User → AuthToken
new_reset ⦃crypto⦄ request user = record {
  id = request.new_uuid;
  user_id = user.id;
  org_id = user.org_id;
  token_type = password_reset;
  token_hash = hash_token request.new_token;
  attempt_count = 0;
  resend_count = 0;
  created_at = request.now;
  expires_at = request.now + reset_ttl;
  consumed_at = none;
  last_sent_at = none;
}

module _ ⦃crypto : Crypto⦄ (base : Text) (quote : Text → Text) where
  -- `reset_link`
  unfoldable pub reset_link : Text → Option Text → Text
  reset_link token slug =
      base
      ++ ((if is_truthy slug
            then lit "/org/" ++ (quote (or_empty slug) ++ lit "/reset-password")
            else lit "/provider-admin/reset-password")
          ++ (lit "?token=" ++ quote token))

  -- From "UPDATE auth_tokens" on.
  unfoldable pub issue_reset :
      Request → Option Text → Scope → User → Database → Database × Option (Text × Text)
  issue_reset request slug scope user db =
      let closed = consume_open_resets scope user.id request.now db in
      (
        audit_user request (lit "password_reset_requested") user []
            (record closed { auth_tokens = new_reset request user ∷ closed.auth_tokens }),
        some (user.email, reset_link request.new_token slug),
      )

  -- From the row of the user on.
  unfoldable pub reset_for :
      Request → Option Text → Scope → Option User → Database → Database × Option (Text × Text)
  reset_for request slug scope none db = (db, none)
  reset_for request slug scope (some user) db =
      if is_active user.status then issue_reset request slug scope user db else (db, none)

  -- In the organization of a slug.
  unfoldable pub reset_member :
      Request
      → Text
      → Option Text
      → Option Organization
      → Database
      → Database × Option (Text × Text)
  reset_member request email slug none db = (db, none)
  reset_member request email slug (some org) db =
      if is_active_organization org.status
      then reset_for request slug (tenant org.id) (find_member org.id email db) db
      else (db, none)

  -- `_create_reset_token`: the database, with the receiver and the link where one is sent
  unfoldable pub create_reset_token :
      Request → Text → Option Text → Database → Database × Option (Text × Text)
  create_reset_token request email org_slug db =
      if is_truthy (reset_slug org_slug)
      then reset_member request (normalize email) (reset_slug org_slug)
          (find_slug (or_empty (reset_slug org_slug)) db) db
      else reset_for request (reset_slug org_slug) provider (find_provider (normalize email) db) db

-- `SET password_hash = :hash, failed_login_count = 0, locked_until = NULL, updated_at = :now`
abbrev pub change_password : Text → Time → User → User
change_password hash now u = record u {
  password_hash = some hash;
  failed_login_count = 0;
  locked_until = none;
  updated_at = now;
}

abbrev pub invalid : ResetOutcome
invalid = record { status = 400; body = invalid_token }

-- `row is None or row["consumed_at"] is not None or row["expires_at"] <= now`
abbrev pub open_reset : Option AuthToken → Time → Option AuthToken
open_reset none now = none
open_reset (some row) now =
    if is_some row.consumed_at || leb row.expires_at now then none else some row

module _ ⦃crypto : Crypto⦄ where
  -- From `user_id` on.
  unfoldable pub set_password :
      Request → List ℕ → AuthToken → User → Text → Database → Database × ResetOutcome
  set_password request salt row user password db =
      let scope = scope_of row.org_id in
      let changed =
        update_user scope user.id (change_password (hash_password salt password) request.now) db in
      let consumed = update_token scope row.id (mark_consumed request.now) changed in
      let revoked = revoke_user_sessions scope user.id consumed in
      (
        audit_user request (lit "password_reset") user
            ((lit "sessions_revoked", MetaValue.number revoked.1) ∷ []) revoked.0,
        record { status = 200; body = updated },
      )

  -- From the row of the user on.
  unfoldable pub reset_owner :
      Request → List ℕ → AuthToken → Option User → Text → Database → Database × ResetOutcome
  reset_owner request salt row none password db = (db, invalid)
  reset_owner request salt row (some user) password db =
      if is_barred user db
      then (db, invalid)
      else let violations = validate_password password (some user.email) in
        if is_empty violations
        then set_password request salt row user password db
        else (db, record { status = 422; body = rejected violations })

  -- `confirm_reset`
  unfoldable pub confirm_reset : Request → List ℕ → Text → Text → Database → Database × ResetOutcome
  confirm_reset request salt token password db =
      elim (open_reset (auth_resolve_reset_token (hash_token token) db) request.now) [
        | none ↦ (db, invalid)
        | some row ↦
            reset_owner request salt row (find_user (scope_of row.org_id) row.user_id db) password
              db
      ]
