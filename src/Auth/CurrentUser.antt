-- ===== src/Auth/CurrentUser.antt =====
-- backend/app/core/auth.py: who a request's cookie stands for, with the roles that a route admits; and
-- `logout` of backend/app/api/v1/auth.py.
use sustentra_platform.Prelude.{Bool, true, false, Option, none, some, List, [], any, if◌then◌else◌}
use sustentra_platform.Prelude.Outcomes.{Result, ok, error}
use sustentra_platform.Text.{Text, lit, is_truthy, or_empty}
use sustentra_platform.Auth.Database.{
  Uuid, Time, User, Role, provider_admin, org_admin, org_member, Database, Scope, scope_of,
  find_organization, find_user,
}
use sustentra_platform.Auth.Primitives.{Crypto}
use sustentra_platform.Auth.Audit.{RequestMeta, write_audit_event}
use sustentra_platform.Auth.Session.{
  ResolvedSession, is_valid, resolve_session, touch_session, delete_session,
}

-- `CurrentUser`, without the names.
pub record CurrentUser : Type 0 where
  pub id : Uuid
  pub email : Text
  pub role : Role
  pub org_id : Option Uuid
  pub org_slug : Option Text
  pub session_id : Uuid

-- The status of the HTTPException.
pub data AccessError : Type 0 where
  unauthenticated forbidden : AccessError

abbrev pub current_user : ResolvedSession → User → Database → CurrentUser
current_user resolved user db = record {
  id = user.id;
  email = user.email;
  role = user.role;
  org_id = user.org_id;
  org_slug = elim user.org_id [
    | none ↦ none
    | some k ↦ elim (find_organization k db) [ none ↦ none | some o ↦ some o.slug ]
  ];
  session_id = resolved.session_id;
}

-- `resolved is None or not resolved.is_valid(now)`
abbrev pub valid_session : Option ResolvedSession → Time → Option ResolvedSession
valid_session none now = none
valid_session (some resolved) now = if is_valid resolved now then some resolved else none

-- From the row of the user on.
unfoldable pub admit :
    ResolvedSession → Time → Option User → Database → Database × Result AccessError CurrentUser
admit resolved now none db = (db, error unauthenticated)
admit resolved now (some user) db =
    (touch_session (scope_of resolved.org_id) resolved now db, ok (current_user resolved user db))

-- `get_current_user`, with the value of the cookie
unfoldable pub get_current_user :
    ⦃crypto : Crypto⦄ → Option Text → Time → Database → Database × Result AccessError CurrentUser
get_current_user ⦃crypto⦄ cookie now db =
    if is_truthy cookie
    then elim (valid_session (resolve_session (or_empty cookie) db) now) [
      | none ↦ (db, error unauthenticated)
      | some resolved ↦
          admit resolved now (find_user (scope_of resolved.org_id) resolved.user_id db) db
    ]
    else (db, error unauthenticated)

abbrev pub same_role : Role → Role → Bool
same_role provider_admin provider_admin = true
same_role org_admin org_admin = true
same_role org_member org_member = true
same_role _ _ = false

-- `role_allowed`
unfoldable pub role_allowed : Role → List Role → Bool
role_allowed role allowed = any (λ r. same_role r role) allowed

-- The dependency of `require_role(*roles)`, behind `get_current_user`.
unfoldable pub require_role :
    List Role → Database × Result AccessError CurrentUser → Result AccessError CurrentUser
require_role roles (db, error e) = error e
require_role roles (db, ok user) = if role_allowed user.role roles then ok user else error forbidden

-- `logout`, behind `get_current_user`
unfoldable pub logout : RequestMeta → CurrentUser → Scope → Database → Database
logout meta user scope db =
    write_audit_event meta (lit "logout") user.org_id (some user.id) (some user.role)
      (some (lit "session", user.session_id)) [] (delete_session scope user.session_id db)
