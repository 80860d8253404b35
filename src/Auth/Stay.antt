-- ===== src/Auth/Stay.antt =====
-- How long a session keeps its user signed in.
use sustentra_platform.Prelude.{
  ◌+◌, ◌≤◌, ◌<◌, ◌≡◌, refl, ap, ◌∙◌, true, false, ◌&&◌, Option, none, some, arith, nat_eq, is_empty,
  Bool-cases, inl, inr, if◌then◌else◌,
}
use sustentra_platform.Prelude.Outcomes.{Result, ok}
use sustentra_platform.Text.{Text, ◌==◌}
use sustentra_platform.Auth.Table.{first_where, update_where, first_where-update}
use sustentra_platform.Auth.Database.{
  Uuid, Time, User, Session, Database, Scope, scope_of, is_visible, find_organization, find_user,
}
use sustentra_platform.Auth.Primitives.{Crypto, hash_token}
use sustentra_platform.Auth.Session.{
  ResolvedSession, or_time, is_fresh, resolve_session, touch_session, auth_resolve_session, joined,
  joined_session,
}
use sustentra_platform.Auth.SingleUse.{visible_self}
use sustentra_platform.Auth.CurrentUser.{AccessError, CurrentUser, get_current_user}
use sustentra_platform.Auth.Access.{IsGood, LetsIn, slug_of, user_of, let_in, resolve-row}

still_seen :
    (seen : Option Time) (created now later : Time)
    → is_fresh seen now ≡ true
    → later ≤ now + 28740000000
    → later ≤ or_time seen created + 28800000000
still_seen none created now later t h = cc
still_seen (some seen) created now later t h = ground arith

module _ ⦃crypto : Crypto⦄ (token : Text) (present : is_empty token ≡ false) where
  -- The session after a visit.
  abbrev touched : ResolvedSession → Time → ResolvedSession
  touched s now = if is_fresh s.last_seen_at now then s else record s { last_seen_at = some now }

  row_of :
      (db : Database) (s : ResolvedSession)
      → resolve_session token db ≡ some s
      → (row : Session) × (user : User) × (first_where
            (λ t. t.token_hash == hash_token token)
            db.sessions
          ≡ some row)
        × (first_where (λ u. nat_eq u.id row.user_id) db.users ≡ some user)
        × (s ≡ joined row user db)
  unfolding resolve_session auth_resolve_session
  row_of db s e = from_row (first_where (λ t. t.token_hash == hash_token token) db.sessions) refl e
    where
      from_user :
          (row : Session) (o : Option User)
          → first_where (λ u. nat_eq u.id row.user_id) db.users ≡ o
          → joined_session row o db ≡ some s
          → (user : User) × (first_where (λ u. nat_eq u.id row.user_id) db.users ≡ some user)
            × (s ≡ joined row user db)
      from_user row none h j = cc
      from_user row (some user) h j = (user, h, cc)

      from_row :
          (o : Option Session)
          → first_where (λ t. t.token_hash == hash_token token) db.sessions ≡ o
          → (elim o [
            | none ↦ none
            | some r ↦ joined_session r (first_where (λ u. nat_eq u.id r.user_id) db.users) db
          ])
            ≡ some s
          → (row : Session) × (user : User) × (first_where
                (λ t. t.token_hash == hash_token token)
                db.sessions
              ≡ some row)
            × (first_where (λ u. nat_eq u.id row.user_id) db.users ≡ some user)
            × (s ≡ joined row user db)
      from_row none h j = cc
      from_row (some row) h j =
          let (user, owner, same) =
            from_user row (first_where (λ u. nat_eq u.id row.user_id) db.users) refl j in
          (row, user, h, owner, same)

  row-touch :
      (now : Time) (db : Database) (row : Session) (user : User)
      → first_where (λ t. t.token_hash == hash_token token) db.sessions ≡ some row
      → first_where (λ u. nat_eq u.id row.user_id) db.users ≡ some user
      → resolve_session token (touch_session (scope_of row.org_id) (joined row user db) now db)
        ≡ some (touched (joined row user db) now)
  unfolding touch_session find_organization
  row-touch now db row user found owner = elim (Bool-cases (is_fresh row.last_seen_at now)) [
    | inl t ↦ rw t (resolve-row token present db row user found owner)
    | inr t ↦
        let q = λ (s : Session). is_visible (scope_of row.org_id) s.org_id && nat_eq s.id row.id in
        let f = λ (s : Session). record s { last_seen_at = some now } in
        let seen = visible_self row.org_id in
        let hit : q row ≡ true = ground arith in
        let found' : first_where (λ s. s.token_hash == hash_token token)
              (update_where q f db.sessions)
            ≡ some (f row) =
          rw (first_where-update _ q f db.sessions (λ s. refl) {x = row} found) (rw hit) in
        rw t (
          resolve-row token present (record db { sessions = update_where q f db.sessions }) (f row)
            user found' owner)
  ]

  resolve-touch :
      (now : Time) (db : Database) (s : ResolvedSession)
      → resolve_session token db ≡ some s
      → resolve_session token (touch_session (scope_of s.org_id) s now db) ≡ some (touched s now)
  resolve-touch now db s e =
      let (row, user, found, owner, same) = row_of db s e in
      rw same (row-touch now db row user found owner)

  find_user-touch :
      (scope scope' : Scope) (s : ResolvedSession) (k : Uuid) (now : Time) (db : Database)
      → find_user scope k (touch_session scope' s now db) ≡ find_user scope k db
  unfolding find_user touch_session
  find_user-touch scope scope' s k now db = ground arith

  touched-IsGood :
      (now later : Time) (s : ResolvedSession)
      → IsGood s now
      → now ≤ later
      → later ≤ now + 28740000000
      → later < s.expires_at
      → IsGood (touched s now) later
  touched-IsGood now later s good after before young =
      elim (Bool-cases (is_fresh s.last_seen_at now)) [
        | inl t ↦ rw t (
          good.0,
          young,
          still_seen s.last_seen_at s.created_at now later t before,
          good.3,
          good.4,
        )
        | inr t ↦ rw t (good.0, young, omega arith, good.3, good.4)
      ]

  same_owner :
      (now : Time) (s : ResolvedSession) (user : User) (db : Database)
      → find_user (scope_of s.org_id) s.user_id db ≡ some user
      → find_user (scope_of (touched s now).org_id) (touched s now).user_id db ≡ some user
  same_owner now s user db e = elim (Bool-cases (is_fresh s.last_seen_at now)) [
    | inl t ↦ rw t e
    | inr t ↦ rw t e
  ]

  find_organization-touch :
      (scope : Scope) (s : ResolvedSession) (k : Uuid) (now : Time) (db : Database)
      → find_organization k (touch_session scope s now db) ≡ find_organization k db
  unfolding find_organization touch_session
  find_organization-touch scope s k now db = ground arith

  slug-touch :
      (scope : Scope) (s : ResolvedSession) (org_id : Option Uuid) (now : Time) (db : Database)
      → slug_of org_id (touch_session scope s now db) ≡ slug_of org_id db
  slug-touch scope s none now db = refl
  slug-touch scope s (some k) now db = rw (find_organization-touch scope s k now db, slug_of) refl

  user_of-touched :
      (now : Time) (s : ResolvedSession) (user : User) (db : Database)
      → user_of (touched s now) user (touch_session (scope_of s.org_id) s now db)
        ≡ user_of s user db
  user_of-touched now s user db = elim (Bool-cases (is_fresh s.last_seen_at now)) [
    | inl t ↦ rw t (rw (slug-touch (scope_of s.org_id) s user.org_id now db) refl)
    | inr t ↦ rw t (rw (slug-touch (scope_of s.org_id) s user.org_id now db) refl)
  ]

  -- A user who is let in at one time is let in again, as the same user with the same session, until seven
  -- hours and 59 minutes later, as long as the session does not expire before and nothing else happens.
  pub stays_signed_in :
      (now later : Time) (db : Database) (s : ResolvedSession) (user : User)
      → LetsIn token present now db s user
      → now ≤ later
      → later ≤ now + 28740000000
      → later < s.expires_at
      → let first = get_current_user (some token) now db in
        (first.1 ≡ ok (user_of s user db))
        × ((get_current_user (some token) later first.0).1 ≡ ok (user_of s user db))
  stays_signed_in now later db s user m after before young =
      let (found, good, owner) = m in
      let visited = touch_session (scope_of s.org_id) s now db in
      let again : LetsIn token present later visited (touched s now) user = (
        resolve-touch now db s found,
        touched-IsGood now later s good after before young,
        same_owner now s user visited (find_user-touch _ _ s s.user_id now db ∙ owner),
      ) in
      (
        ap (λ r. r.1) (let_in token present now db s user m),
        ap
              (λ (r : Database × Result AccessError CurrentUser).
                (get_current_user (some token) later r.0).1)
              (let_in token present now db s user m)
            ∙ (ap (λ r. r.1) (let_in token present later visited (touched s now) user again)
                ∙ ap ok (user_of-touched now s user db)),
      )
