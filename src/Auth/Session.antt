-- ===== src/Auth/Session.antt =====
-- backend/app/services/sessions.py, without the cookies.
use sustentra_platform.Prelude.{
  ℕ, ◌+◌, Bool, false, not, ◌&&◌, ◌||◌, Option, none, some, ◌∷◌, ltb, leb, nat_eq, length, filter,
  if◌then◌else◌, is_some,
}
use sustentra_platform.Text.{Text, ◌==◌}
use sustentra_platform.Auth.Table.{first_where, update_where, delete_where}
use sustentra_platform.Auth.Database.{
  Uuid, Time, seconds, hours, days, Organization, UserStatus, User, Role, Session, Database, Scope,
  is_visible, is_active, has_active_organization, find_organization,
}
use sustentra_platform.Auth.Primitives.{Crypto, hash_token}
use sustentra_platform.Auth.Audit.{stored_user_agent}

abbrev pub absolute_lifetime : Time
absolute_lifetime = days 7

abbrev pub idle_timeout : Time
idle_timeout = hours 8

abbrev pub last_seen_refresh : Time
last_seen_refresh = seconds 60

-- `ResolvedSession`, with the organization that the join found
pub record ResolvedSession : Type 0 where
  pub session_id : Uuid
  pub user_id : Uuid
  pub org_id : Option Uuid
  pub created_at : Time
  pub expires_at : Time
  pub last_seen_at : Option Time
  pub revoked_at : Option Time
  pub user_role : Role
  pub user_status : UserStatus
  pub organization : Option Organization

-- `self.last_seen_at or self.created_at`
abbrev pub or_time : Option Time → Time → Time
or_time none t = t
or_time (some seen) t = seen

-- `ResolvedSession.is_valid`; `now - seen > IDLE_TIMEOUT` is `seen + IDLE_TIMEOUT < now`.
unfoldable pub is_valid : ResolvedSession → Time → Bool
is_valid s now =
    if is_some s.revoked_at || leb s.expires_at now
    then false
    else if ltb (or_time s.last_seen_at s.created_at + idle_timeout) now
    then false
    else if not (is_active s.user_status)
    then false
    else not (is_some s.org_id) || has_active_organization s.organization

-- `create_session`, with the id and the token that are drawn; it returns the raw token.
unfoldable pub create_session :
    ⦃crypto : Crypto⦄
    → Uuid
    → Text
    → Time
    → Uuid
    → Option Uuid
    → Option Text
    → Option Text
    → Database
    → Database × Text
create_session ⦃crypto⦄ new_id token now user_id org_id ip agent db = (
  record db {
    sessions =
        record {
          id = new_id;
          user_id = user_id;
          org_id = org_id;
          token_hash = hash_token token;
          created_at = now;
          expires_at = now + absolute_lifetime;
          last_seen_at = some now;
          revoked_at = none;
          ip_address = ip;
          user_agent = stored_user_agent agent;
        }
        ∷ db.sessions;
  },
  token,
)

-- The columns of `auth_resolve_session`
abbrev pub joined : Session → User → Database → ResolvedSession
joined s u db = record {
  session_id = s.id;
  user_id = s.user_id;
  org_id = s.org_id;
  created_at = s.created_at;
  expires_at = s.expires_at;
  last_seen_at = s.last_seen_at;
  revoked_at = s.revoked_at;
  user_role = u.role;
  user_status = u.status;
  organization = elim s.org_id [ none ↦ none | some o ↦ find_organization o db ];
}

-- Its joins: a session with no user is not found.
abbrev pub joined_session : Session → Option User → Database → Option ResolvedSession
joined_session s none db = none
joined_session s (some u) db = some (joined s u db)

-- `auth_resolve_session`; token hashes are unique in the table.
unfoldable pub auth_resolve_session : Text → Database → Option ResolvedSession
auth_resolve_session hash db = elim (first_where (λ s. s.token_hash == hash) db.sessions) [
  | none ↦ none
  | some s ↦ joined_session s (first_where (λ u. nat_eq u.id s.user_id) db.users) db
]

-- `resolve_session`
unfoldable pub resolve_session : ⦃crypto : Crypto⦄ → Text → Database → Option ResolvedSession
resolve_session ⦃crypto⦄ token db = auth_resolve_session (hash_token token) db

-- `now - last_seen_at < LAST_SEEN_REFRESH`
abbrev pub is_fresh : Option Time → Time → Bool
is_fresh none now = false
is_fresh (some seen) now = ltb now (seen + last_seen_refresh)

-- `touch_session`
unfoldable pub touch_session : Scope → ResolvedSession → Time → Database → Database
touch_session scope resolved now db = if is_fresh resolved.last_seen_at now then db else record db {
  sessions =
      update_where (λ s. is_visible scope s.org_id && nat_eq s.id resolved.session_id)
        (λ s. record s { last_seen_at = some now }) db.sessions;
}

-- `delete_session`
unfoldable pub delete_session : Scope → Uuid → Database → Database
delete_session scope session_id db = record db {
  sessions = delete_where (λ s. is_visible scope s.org_id && nat_eq s.id session_id) db.sessions;
}

-- `revoke_user_sessions`, with the count of the rows
unfoldable pub revoke_user_sessions : Scope → Uuid → Database → Database × ℕ
revoke_user_sessions scope user_id db = (
  record db {
    sessions =
        delete_where (λ s. is_visible scope s.org_id && nat_eq s.user_id user_id) db.sessions;
  },
  length (filter (λ s. is_visible scope s.org_id && nat_eq s.user_id user_id) db.sessions),
)
