-- ===== src/Auth/Entered.antt =====
-- Whom the session of a login lets in, and until when.
use sustentra_platform.Prelude.{
  ◌+◌, ◌≤◌, ◌<◌, ◌≡◌, refl, sym, ap, ◌∙◌, true, false, not, ◌&&◌, ◌||◌, Option, none, some, arith,
  nat_eq, is_some, is_empty, inl, inr,
}
use sustentra_platform.Prelude.Outcomes.{ok, error}
use sustentra_platform.Text.{◌==◌, eq_refl}
use sustentra_platform.Auth.Table.{
  first_where, delete_where, first_where-update, first_where-own, Distinct,
}
use sustentra_platform.Auth.Database.{
  Uuid, Time, User, AuthToken, Session, Database, scope_of, is_visible, is_stale,
  has_active_organization, find_organization, find_user, update_user, update_token,
  purge_expired_auth_rows,
}
use sustentra_platform.Auth.Primitives.{Crypto, hash_token}
use sustentra_platform.Auth.Audit.{write_audit_event, stored_user_agent}
use sustentra_platform.Auth.Session.{ResolvedSession, create_session, resolve_session, joined}
use sustentra_platform.Auth.Outcome.{Request}
use sustentra_platform.Auth.Login.{audit_user}
use sustentra_platform.Auth.Challenge.{is_barred, clear_failures, sign_in}
use sustentra_platform.Auth.SingleUse.{visible_self}
use sustentra_platform.Auth.CurrentUser.{unauthenticated, CurrentUser, get_current_user}
use sustentra_platform.Auth.Access.{LetsIn, slug_of, let_in, resolve-row, access_iff}

module _ ⦃crypto : Crypto⦄ (request : Request) (challenge : AuthToken) (user : User)
    (db : Database) where
  -- The state after the sign-in.
  abbrev pub entered : Database
  entered = (sign_in request (scope_of user.org_id) challenge user db).0

  -- The session that it opens: only the hash of the token is kept, and it expires after a week.
  abbrev pub opened : Session
  opened = record {
    id = request.new_session_id;
    user_id = user.id;
    org_id = user.org_id;
    token_hash = hash_token request.new_token;
    created_at = request.session_now;
    expires_at = request.session_now + 604800000000;
    last_seen_at = some request.session_now;
    revoked_at = none;
    ip_address = request.meta.ip;
    user_agent = stored_user_agent request.meta.user_agent;
  }

  opened_found :
      request.database_now ≤ request.session_now + 691200000000
      → first_where (λ t. t.token_hash == hash_token request.new_token) entered.sessions
        ≡ some opened
  unfolding sign_in create_session audit_user write_audit_event purge_expired_auth_rows delete_where
      first_where update_user update_token
  opened_found kept =
      let fresh : is_stale request.database_now opened.expires_at ≡ false = ground arith in
      rw fresh (rw (eq_refl (hash_token request.new_token)) refl)

  owner_found :
      find_user (scope_of user.org_id) user.id db ≡ some user
      → find_user (scope_of user.org_id) user.id entered ≡ some (clear_failures request.now user)
  unfolding sign_in create_session audit_user write_audit_event purge_expired_auth_rows update_user
      update_token find_user
  owner_found own =
      let seen = visible_self user.org_id in
      let q = λ (u : User). is_visible (scope_of user.org_id) u.org_id && nat_eq u.id user.id in
      let hit : q user ≡ true = ground arith in
      first_where-update q q (clear_failures request.now) db.users (λ u. refl) {x = user} own
      ∙ rw hit refl

  owner_joined :
      Distinct (λ u. u.id) db.users
      → find_user (scope_of user.org_id) user.id db ≡ some user
      → first_where (λ u. nat_eq u.id user.id) entered.users
        ≡ some (clear_failures request.now user)
  unfolding sign_in create_session audit_user write_audit_event purge_expired_auth_rows update_user
      update_token find_user
  owner_joined distinct own =
      let seen = visible_self user.org_id in
      let q = λ (u : User). is_visible (scope_of user.org_id) u.org_id && nat_eq u.id user.id in
      let hit : q user ≡ true = ground arith in
      let alone : first_where (λ u. nat_eq u.id user.id) db.users ≡ some user =
        first_where-own (λ u. u.id) q (λ _. true) db.users {x = user} distinct own refl in
      first_where-update (λ u. nat_eq u.id user.id) q (clear_failures request.now) db.users
        (λ u. refl) {x = user} alone
      ∙ rw hit refl

  same_organizations : entered.organizations ≡ db.organizations
  unfolding sign_in create_session audit_user write_audit_event purge_expired_auth_rows update_user
      update_token
  same_organizations = refl

  -- Whom the token of the session stands for.
  abbrev pub entrant : CurrentUser
  entrant = record {
    id = user.id;
    email = user.email;
    role = user.role;
    org_id = user.org_id;
    org_slug = slug_of user.org_id db;
    session_id = request.new_session_id;
  }

  some_inj : {s t : ResolvedSession} → some s ≡ some t → s ≡ t
  some_inj e = cc

  same_slug : (slug_of user.org_id entered) ≡ slug_of user.org_id db
  unfolding sign_in create_session audit_user write_audit_event purge_expired_auth_rows update_user
      update_token find_organization
  same_slug = of_slug user.org_id
    where
      of_slug : (o : Option Uuid) → slug_of o entered ≡ slug_of o db
      of_slug none = refl
      of_slug (some k) = refl

  entered_resolves :
      is_empty request.new_token ≡ false
      → Distinct (λ u. u.id) db.users
      → find_user (scope_of user.org_id) user.id db ≡ some user
      → request.database_now ≤ request.session_now + 691200000000
      → resolve_session request.new_token entered
        ≡ some (joined opened (clear_failures request.now user) entered)
  entered_resolves given distinct own kept =
      resolve-row request.new_token given entered opened (clear_failures request.now user)
        (opened_found kept) (owner_joined distinct own)

  served :
      (o : Option Uuid)
      → (is_some o
          && not
              (has_active_organization (elim o [ none ↦ none | some k ↦ find_organization k db ])))
        ≡ false
      → (not (is_some o)
          || has_active_organization
              (elim o [ none ↦ none | some k ↦ find_organization k entered ]))
        ≡ true
  unfolding sign_in create_session audit_user write_audit_event purge_expired_auth_rows update_user
      update_token find_organization
  served none h = refl
  served (some k) h = ground arith

  entered-LetsIn :
      (given : is_empty request.new_token ≡ false) (visit : Time)
      → Distinct (λ u. u.id) db.users
      → find_user (scope_of user.org_id) user.id db ≡ some user
      → is_barred user db ≡ false
      → request.database_now ≤ request.session_now + 691200000000
      → visit ≤ request.session_now + 28800000000
      → LetsIn request.new_token given visit entered
          (joined opened (clear_failures request.now user) entered)
          (clear_failures request.now user)
  entered-LetsIn given visit distinct own free kept early = (
    entered_resolves given distinct own kept,
    (refl, omega arith, early, ground arith, served user.org_id (ground arith)),
    owner_found own,
  )

  -- The token lets its user in for eight hours,
  pub entered_lets_in :
      (visit : Time)
      → is_empty request.new_token ≡ false
      → Distinct (λ u. u.id) db.users
      → find_user (scope_of user.org_id) user.id db ≡ some user
      → is_barred user db ≡ false
      → request.database_now ≤ request.session_now + 691200000000
      → visit ≤ request.session_now + 28800000000
      → (get_current_user (some request.new_token) visit entered).1 ≡ ok entrant
  entered_lets_in visit given distinct own free kept early =
      ap (λ r. r.1)
        (let_in request.new_token given visit entered
          (joined opened (clear_failures request.now user) entered)
          (clear_failures request.now user)
          (entered-LetsIn given visit distinct own free kept early))
      ∙ rw same_slug refl

  -- and nobody after a week.
  pub entered_ends :
      (late : Time)
      → is_empty request.new_token ≡ false
      → Distinct (λ u. u.id) db.users
      → find_user (scope_of user.org_id) user.id db ≡ some user
      → request.database_now ≤ request.session_now + 691200000000
      → request.session_now + 604800000000 ≤ late
      → get_current_user (some request.new_token) late entered ≡ (entered, error unauthenticated)
  entered_ends late given distinct own kept over =
      elim (access_iff request.new_token given late entered entrant).1 [
        | inr out ↦ out
        | inl (s, u, (found, good, owner)) ↦
            let same : s ≡ joined opened (clear_failures request.now user) entered =
              some_inj (sym found ∙ entered_resolves given distinct own kept) in
            let young : late < request.session_now + 604800000000 = rw same at good.1 in
            absurd (omega arith)
      ]
