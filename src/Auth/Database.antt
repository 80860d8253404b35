-- ===== src/Auth/Database.antt =====
-- The tables of backend/migrations/versions that the auth flows read and write, the functions there
-- that look a row up across tenants, and the scope of a transaction (`set_tenant` and `set_provider` of
-- backend/app/core/db.py), by which row-level security hides rows.
-- Ids are UUIDs, as numbers of 128 bits. Times are microseconds. A request is one transaction, and
-- transactions run one after another.
use sustentra_platform.Prelude.{
  ℕ, ◌+◌, ◌*◌, Bool, true, false, ◌&&◌, Option, none, some, List, nat_eq, ltb,
}
use sustentra_platform.Text.{Text, ◌==◌}
use sustentra_platform.Auth.Table.{first_where, update_where, delete_where}

abbrev pub Uuid : Type 0
Uuid = ℕ

-- `datetime` and `timedelta`
abbrev pub Time : Type 0
Time = ℕ

abbrev pub seconds : ℕ → Time
seconds n = n * 1000000

abbrev pub minutes : ℕ → Time
minutes n = seconds (n * 60)

abbrev pub hours : ℕ → Time
hours n = minutes (n * 60)

abbrev pub days : ℕ → Time
days n = hours (n * 24)

-- `ck_organizations_status`
pub data OrganizationStatus : Type 0 where
  active suspended : OrganizationStatus

-- `ck_users_status`
pub data UserStatus : Type 0 where
  active suspended disabled deleted : UserStatus

-- `ck_users_role`
pub data Role : Type 0 where
  provider_admin org_admin org_member : Role

-- `ck_auth_tokens_type`
pub data TokenType : Type 0 where
  login_otp email_otp password_reset invite email_verification : TokenType

abbrev pub is_active_organization : OrganizationStatus → Bool
is_active_organization OrganizationStatus.active = true
is_active_organization OrganizationStatus.suspended = false

-- `user["status"] == "active"`
abbrev pub is_active : UserStatus → Bool
is_active UserStatus.active = true
is_active _ = false

abbrev pub is_provider_admin : Role → Bool
is_provider_admin provider_admin = true
is_provider_admin _ = false

abbrev pub is_login_otp : TokenType → Bool
is_login_otp login_otp = true
is_login_otp _ = false

abbrev pub is_password_reset : TokenType → Bool
is_password_reset password_reset = true
is_password_reset _ = false

pub record Organization : Type 0 where
  pub id : Uuid
  pub slug : Text
  pub status : OrganizationStatus

-- The names of a user are left out.
pub record User : Type 0 where
  pub id : Uuid
  pub org_id : Option Uuid
  pub email : Text
  pub role : Role
  pub status : UserStatus
  pub password_hash : Option Text
  pub failed_login_count : ℕ
  pub locked_until : Option Time
  pub last_login_at : Option Time
  pub updated_at : Time

pub record AuthToken : Type 0 where
  pub id : Uuid
  pub user_id : Uuid
  pub org_id : Option Uuid
  pub token_type : TokenType
  pub token_hash : Text
  pub attempt_count : ℕ
  pub resend_count : ℕ
  pub created_at : Time
  pub expires_at : Time
  pub consumed_at : Option Time
  pub last_sent_at : Option Time

pub record Session : Type 0 where
  pub id : Uuid
  pub user_id : Uuid
  pub org_id : Option Uuid
  pub token_hash : Text
  pub created_at : Time
  pub expires_at : Time
  pub last_seen_at : Option Time
  pub revoked_at : Option Time
  pub ip_address : Option Text
  pub user_agent : Option Text

-- A value of the metadata of an audit event.
pub data MetaValue : Type 0 where
  text : Text → MetaValue
  number : ℕ → MetaValue
  bool : Bool → MetaValue

pub record AuditEvent : Type 0 where
  pub event_type : Text
  pub org_id : Option Uuid
  pub actor_user_id : Option Uuid
  pub actor_role : Option Role
  pub target : Option (Text × Uuid)
  pub request_id : Option Text
  pub ip_address : Option Text
  pub user_agent : Option Text
  pub metadata : List (Text × MetaValue)

-- The audit log is in reverse: the last event stands first.
pub record Database : Type 0 where
  pub organizations : List Organization
  pub users : List User
  pub auth_tokens : List AuthToken
  pub sessions : List Session
  pub audit_logs : List AuditEvent

-- What `set_tenant` and `set_provider` leave in the settings of the transaction.
pub data Scope : Type 0 where
  tenant : Uuid → Scope
  provider : Scope

-- `set_provider` where there is no organization, `set_tenant` where there is one
abbrev pub scope_of : Option Uuid → Scope
scope_of none = provider
scope_of (some org_id) = tenant org_id

-- `TENANT_PREDICATE`
abbrev pub is_visible : Scope → Option Uuid → Bool
is_visible provider org_id = true
is_visible (tenant t) none = false
is_visible (tenant t) (some org_id) = nat_eq org_id t

-- `org_id = :org_id`
abbrev pub in_organization : Uuid → Option Uuid → Bool
in_organization t none = false
in_organization t (some org_id) = nat_eq org_id t

unfoldable pub find_organization : Uuid → Database → Option Organization
find_organization k db = first_where (λ o. nat_eq o.id k) db.organizations

-- The status that `LEFT JOIN organizations` brings, compared with "active".
abbrev pub has_active_organization : Option Organization → Bool
has_active_organization none = false
has_active_organization (some o) = is_active_organization o.status

-- `UPDATE users SET … WHERE id = :id`
unfoldable pub update_user : Scope → Uuid → (User → User) → Database → Database
update_user scope k f db = record db {
  users = update_where (λ u. is_visible scope u.org_id && nat_eq u.id k) f db.users;
}

-- `SELECT … FROM users WHERE id = :id`
unfoldable pub find_user : Scope → Uuid → Database → Option User
find_user scope k db = first_where (λ u. is_visible scope u.org_id && nat_eq u.id k) db.users

-- `UPDATE auth_tokens SET … WHERE id = :id`
unfoldable pub update_token : Scope → Uuid → (AuthToken → AuthToken) → Database → Database
update_token scope k f db = record db {
  auth_tokens = update_where (λ t. is_visible scope t.org_id && nat_eq t.id k) f db.auth_tokens;
}

-- `auth_resolve_challenge`
unfoldable pub auth_resolve_challenge : Uuid → Database → Option AuthToken
auth_resolve_challenge k db = first_where (λ t. nat_eq t.id k) db.auth_tokens

-- `auth_resolve_reset_token`
unfoldable pub auth_resolve_reset_token : Text → Database → Option AuthToken
auth_resolve_reset_token hash db =
    first_where (λ t. t.token_hash == hash && is_password_reset t.token_type) db.auth_tokens

-- `WHERE expires_at < now() - interval '1 day'`
abbrev pub is_stale : Time → Time → Bool
is_stale now expires_at = ltb (expires_at + days 1) now

-- `purge_expired_auth_rows`
unfoldable pub purge_expired_auth_rows : Time → Database → Database
purge_expired_auth_rows now db = record db {
  sessions = delete_where (λ s. is_stale now s.expires_at) db.sessions;
  auth_tokens = delete_where (λ t. is_stale now t.expires_at) db.auth_tokens;
}
