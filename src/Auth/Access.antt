-- ===== src/Auth/Access.antt =====
-- Whom a session lets in, and for how long.
use sustentra_platform.Prelude.{
  ◌+◌, ◌≤◌, ◌<◌, ◌≡◌, ◌↔◌, ◌⊎◌, refl, sym, ap, ◌∙◌, true, false, not, ◌||◌, Option, none, some,
  arith, nat_eq, is_some, is_empty, Bool-cases, Option-cases, inl, inr,
}
use sustentra_platform.Prelude.Outcomes.{Result, ok, error, ok_inj}
use sustentra_platform.Text.{Text, ◌==◌}
use sustentra_platform.Auth.Table.{first_where}
use sustentra_platform.Auth.Database.{
  Uuid, Time, User, Session, Database, scope_of, is_active, has_active_organization,
  find_organization, find_user,
}
use sustentra_platform.Auth.Primitives.{Crypto, hash_token}
use sustentra_platform.Auth.Session.{
  ResolvedSession, or_time, is_valid, resolve_session, touch_session, auth_resolve_session, joined,
  joined_session,
}
use sustentra_platform.Auth.Lookup.{find_user-id}
use sustentra_platform.Auth.CurrentUser.{
  AccessError, unauthenticated, CurrentUser, current_user, valid_session, admit, get_current_user,
}

-- The organization of a session, where it has one, is active.
abbrev pub IsServed : ResolvedSession → Type 0
IsServed s = (not (is_some s.org_id) || has_active_organization s.organization) ≡ true

-- A session is good: not revoked, not expired, seen in the last eight hours (in microseconds), and its
-- user is active, in an active organization if in any.
abbrev pub IsGood : ResolvedSession → Time → Type 0
IsGood s now =
    (s.revoked_at ≡ none)
    × (now < s.expires_at)
    × (now ≤ or_time s.last_seen_at s.created_at + 28800000000)
    × (is_active s.user_status ≡ true)
    × IsServed s

is_valid-IsGood : (s : ResolvedSession) (now : Time) → is_valid s now ≡ true → IsGood s now
unfolding is_valid
is_valid-IsGood s now h = ground arith

IsGood-is_valid : (s : ResolvedSession) (now : Time) → IsGood s now → is_valid s now ≡ true
unfolding is_valid
IsGood-is_valid s now h = ground arith

-- The slug of an organization.
abbrev pub slug_of : Option Uuid → Database → Option Text
slug_of none db = none
slug_of (some k) db = elim (find_organization k db) [ none ↦ none | some o ↦ some o.slug ]

-- The user of a session, with the id of the session.
abbrev pub user_of : ResolvedSession → User → Database → CurrentUser
user_of s user db = record {
  id = s.user_id;
  email = user.email;
  role = user.role;
  org_id = user.org_id;
  org_slug = slug_of user.org_id db;
  session_id = s.session_id;
}

same_slug :
    (org_id : Option Uuid) (db : Database)
    → elim org_id [
      | none ↦ none
      | some k ↦ elim (find_organization k db) [ none ↦ none | some o ↦ some o.slug ]
    ]
      ≡ slug_of org_id db
same_slug none db = refl
same_slug (some k) db = refl

current-user_of :
    (s : ResolvedSession) (user : User) (db : Database)
    → find_user (scope_of s.org_id) s.user_id db ≡ some user
    → current_user s user db ≡ user_of s user db
current-user_of s user db owner =
    let same = (find_user-id (scope_of s.org_id) s.user_id db user owner).0 in
    rw same (rw (same_slug user.org_id db) refl)

ok_error :
    {r : Result AccessError CurrentUser} {u : CurrentUser}
    → r ≡ ok u
    → ¬ (r ≡ error unauthenticated)
ok_error e n = cc

module _ ⦃crypto : Crypto⦄ (token : Text) (present : is_empty token ≡ false) where
  -- A good session, whose user is there.
  abbrev pub LetsIn : Time → Database → ResolvedSession → User → Type 0
  LetsIn now db s user =
      (resolve_session token db ≡ some s)
      × IsGood s now
      × (find_user (scope_of s.org_id) s.user_id db ≡ some user)

  pub let_in :
      (now : Time) (db : Database) (s : ResolvedSession) (user : User)
      → LetsIn now db s user
      → get_current_user (some token) now db
        ≡ (touch_session (scope_of s.org_id) s now db, ok (user_of s user db))
  unfolding get_current_user admit
  let_in now db s user (found, good, owner) =
      let valid : valid_session (resolve_session token db) now ≡ some s =
        rw found (rw (IsGood-is_valid s now good)) in
      rw present (
        rw (valid, get_current_user)
          (rw (owner, admit) (rw (current-user_of s user db owner) refl)))

  valid_session-IsGood :
      (o : Option ResolvedSession) (s : ResolvedSession) (now : Time)
      → valid_session o now ≡ some s
      → (o ≡ some s) × IsGood s now
  valid_session-IsGood none s now e = cc
  valid_session-IsGood (some t) s now e = elim (Bool-cases (is_valid t now)) [
    | inl v ↦
        let same : t ≡ s = ground arith in (ap some same, is_valid-IsGood s now (rw (← same) v))
    | inr v ↦ absurd (ground arith)
  ]

  access_cases :
      (now : Time) (db : Database)
      → ((s : ResolvedSession) × (user : User) × LetsIn now db s user)
        ⊎ (get_current_user (some token) now db ≡ (db, error unauthenticated))
  unfolding get_current_user admit
  access_cases now db = elim (Option-cases (valid_session (resolve_session token db) now)) [
    | inl e ↦ inr (rw present (rw (e, get_current_user)))
    | inr (s, e) ↦
        let (found, good) = valid_session-IsGood (resolve_session token db) s now e in
        elim (Option-cases (find_user (scope_of s.org_id) s.user_id db)) [
          | inl u ↦ inr (rw present (rw (e, get_current_user) (rw (u, admit))))
          | inr (user, u) ↦ inl (s, user, (found, good, u))
        ]
  ]

  -- A cookie is answered with a user exactly when its session is there, not revoked, not expired, seen in
  -- the last eight hours, and its user is there and active, in an active organization if in any; the
  -- answer is the user of the session, with the slug of the organization and the id of the session.
  -- Otherwise the request is refused and nothing changes.
  pub access_iff :
      (now : Time) (db : Database) (u : CurrentUser)
      → let r = get_current_user (some token) now db in
        ((r.1 ≡ ok u) ↔ (
          (s : ResolvedSession) × (user : User) × LetsIn now db s user × (u ≡ user_of s user db)))
        × (((s : ResolvedSession) × (user : User) × LetsIn now db s user)
            ⊎ (r ≡ (db, error unauthenticated)))
  access_iff now db u = (
    (
      λ answered. elim (access_cases now db) [
        | inl (s, user, m) ↦
            (s, user, m, ok_inj (sym answered ∙ ap (λ r. r.1) (let_in now db s user m)))
        | inr out ↦ absurd (ok_error answered (ap (λ r. r.1) out))
      ],
      λ (s, user, m, same). ap (λ r. r.1) (let_in now db s user m) ∙ ap ok (sym same),
    ),
    access_cases now db,
  )

  pub resolve-row :
      (db : Database) (row : Session) (user : User)
      → first_where (λ t. t.token_hash == hash_token token) db.sessions ≡ some row
      → first_where (λ u. nat_eq u.id row.user_id) db.users ≡ some user
      → resolve_session token db ≡ some (joined row user db)
  unfolding resolve_session auth_resolve_session
  resolve-row db row user found owner =
      rw (found, resolve_session, auth_resolve_session) (rw (owner, joined_session))
