-- ===== src/Auth/Steps/KeepsReset.antt =====
-- A reset that is asked for or confirmed, a visit and a logout keep the tables well formed.
use sustentra_platform.Prelude.{
  ℕ, ◌≢◌, refl, Option, none, some, List, [], arith, All, Bool-cases, Option-cases, inl, inr,
  is_empty,
}
use sustentra_platform.Text.{Text, is_truthy, or_empty}
use sustentra_platform.Auth.Table.{update_where-All}
use sustentra_platform.Auth.Database.{
  Uuid, Time, Organization, User, AuthToken, Scope, Database, auth_resolve_reset_token, is_active,
  is_active_organization,
}
use sustentra_platform.Auth.Primitives.{Crypto, validate_password, hash_token}
use sustentra_platform.Auth.Audit.{RequestMeta}
use sustentra_platform.Auth.Outcome.{Request}
use sustentra_platform.Auth.Login.{mark_consumed}
use sustentra_platform.Auth.Challenge.{is_barred}
use sustentra_platform.Auth.Session.{
  ResolvedSession, resolve_session, revoke_user_sessions, touch_session, is_fresh, delete_session,
}
use sustentra_platform.Auth.PasswordReset.{
  consume_open_resets, new_reset, issue_reset, reset_for, reset_slug, reset_member,
  create_reset_token, open_reset, change_password, set_password, reset_owner, confirm_reset,
}
use sustentra_platform.Auth.CurrentUser.{
  CurrentUser, valid_session, admit, get_current_user, logout,
}
use sustentra_platform.Auth.Invariant.{
  IsWellFormed, CountIsLow, update_tokens-IsWellFormed, add_token-IsWellFormed,
  sessions-IsWellFormed,
}
use sustentra_platform.Auth.Steps.Keeps.{audit_user-IsWellFormed, mark_consumed-low, rules}
use sustentra_platform.Auth.Steps.KeepsChallenge.{mark_consumed-IsWellFormed}

change_password-low :
    (hash : Text) (now : Time) (u : User) → CountIsLow u → CountIsLow (change_password hash now u)
change_password-low hash now u h = omega arith

revoke-IsWellFormed :
    (scope : Scope) (k : Uuid) (db : Database)
    → IsWellFormed db
    → IsWellFormed (revoke_user_sessions scope k db).0
unfolding revoke_user_sessions
revoke-IsWellFormed scope k db v = sessions-IsWellFormed _ db v

module _ ⦃crypto : Crypto⦄ (base : Text) (quote : Text → Text) where
  issue_reset-IsWellFormed :
      (request : Request) (slug : Option Text) (scope : Scope) (user : User) (db : Database)
      → All (λ t. t.id ≢ request.new_uuid) db.auth_tokens
      → IsWellFormed db
      → IsWellFormed (issue_reset base quote request slug scope user db).0
  unfolding issue_reset consume_open_resets
  issue_reset-IsWellFormed request slug scope user db fresh v =
      audit_user-IsWellFormed request _ user [] _ (
        add_token-IsWellFormed (new_reset request user)
          (consume_open_resets scope user.id request.now db) (ground arith)
          (update_where-All (λ t. t.id ≢ request.new_uuid) _ (mark_consumed request.now)
            db.auth_tokens (λ t n. n) fresh)
          (update_tokens-IsWellFormed _ (mark_consumed request.now) db
            (mark_consumed-low request.now) (λ t. refl) v))

  reset_for-IsWellFormed :
      (request : Request) (slug : Option Text) (scope : Scope) (user : Option User) (db : Database)
      → All (λ t. t.id ≢ request.new_uuid) db.auth_tokens
      → IsWellFormed db
      → IsWellFormed (reset_for base quote request slug scope user db).0
  unfolding reset_for
  reset_for-IsWellFormed request slug scope none db fresh v = v
  reset_for-IsWellFormed request slug scope (some user) db fresh v =
      elim (Bool-cases (is_active user.status)) [
        | inl t ↦ rw t (issue_reset-IsWellFormed request slug scope user db fresh v)
        | inr t ↦ rw t v
      ]

  reset_member-IsWellFormed :
      (request : Request) (email : Text) (slug : Option Text) (org : Option Organization)
      (db : Database)
      → All (λ t. t.id ≢ request.new_uuid) db.auth_tokens
      → IsWellFormed db
      → IsWellFormed (reset_member base quote request email slug org db).0
  unfolding reset_member
  reset_member-IsWellFormed request email slug none db fresh v = v
  reset_member-IsWellFormed request email slug (some org) db fresh v =
      elim (Bool-cases (is_active_organization org.status)) [
        | inl t ↦ rw t (reset_for-IsWellFormed request slug _ _ db fresh v)
        | inr t ↦ rw t v
      ]

  pub create_reset_token-IsWellFormed :
      (request : Request) (email : Text) (org_slug : Option Text) (db : Database)
      → All (λ t. t.id ≢ request.new_uuid) db.auth_tokens
      → IsWellFormed db
      → IsWellFormed (create_reset_token base quote request email org_slug db).0
  unfolding create_reset_token
  create_reset_token-IsWellFormed request email org_slug db fresh v =
      elim (Bool-cases (is_truthy (reset_slug org_slug))) [
        | inl t ↦ rw t (reset_member-IsWellFormed request _ _ _ db fresh v)
        | inr t ↦ rw t (reset_for-IsWellFormed request _ _ _ db fresh v)
      ]

module _ ⦃crypto : Crypto⦄ where
  set_password-IsWellFormed :
      (request : Request) (salt : List ℕ) (row : AuthToken) (user : User) (password : Text)
      (db : Database)
      → IsWellFormed db
      → IsWellFormed (set_password request salt row user password db).0
  unfolding set_password
  set_password-IsWellFormed request salt row user password db v =
      search (rules, revoke-IsWellFormed, mark_consumed-IsWellFormed, change_password-low) depth 7

  reset_owner-IsWellFormed :
      (request : Request) (salt : List ℕ) (row : AuthToken) (user : Option User) (password : Text)
      (db : Database)
      → IsWellFormed db
      → IsWellFormed (reset_owner request salt row user password db).0
  unfolding reset_owner
  reset_owner-IsWellFormed request salt row none password db v = v
  reset_owner-IsWellFormed request salt row (some user) password db v =
      elim (Bool-cases (is_barred user db)) [
        | inl t ↦ rw t v
        | inr t ↦
            rw t (elim (Bool-cases (is_empty (validate_password password (some user.email)))) [
              | inl good ↦ rw good (set_password-IsWellFormed request salt row user password db v)
              | inr bad ↦ rw bad v
            ])
      ]

  pub confirm_reset-IsWellFormed :
      (request : Request) (salt : List ℕ) (token password : Text) (db : Database)
      → IsWellFormed db
      → IsWellFormed (confirm_reset request salt token password db).0
  unfolding confirm_reset
  confirm_reset-IsWellFormed request salt token password db v =
      elim (Option-cases
        (open_reset (auth_resolve_reset_token (hash_token token) db) request.now)) [
          | inl e ↦ rw (e, confirm_reset) v
          | inr (row, e) ↦
              rw (e, confirm_reset) (reset_owner-IsWellFormed request salt row _ password db v)
        ]

  admit-IsWellFormed :
      (resolved : ResolvedSession) (now : Time) (user : Option User) (db : Database)
      → IsWellFormed db
      → IsWellFormed (admit resolved now user db).0
  unfolding admit touch_session
  admit-IsWellFormed resolved now none db v = v
  admit-IsWellFormed resolved now (some user) db v =
      elim (Bool-cases (is_fresh resolved.last_seen_at now)) [
        | inl t ↦ rw t v
        | inr t ↦ rw t (sessions-IsWellFormed _ db v)
      ]

  pub get_current_user-IsWellFormed :
      (cookie : Option Text) (now : Time) (db : Database)
      → IsWellFormed db
      → IsWellFormed (get_current_user cookie now db).0
  unfolding get_current_user
  get_current_user-IsWellFormed cookie now db v = elim (Bool-cases (is_truthy cookie)) [
    | inr t ↦ rw t v
    | inl t ↦ rw t (elim (Option-cases (valid_session (resolve_session (or_empty cookie) db) now)) [
      | inl e ↦ rw (e, get_current_user) v
      | inr (resolved, e) ↦ rw (e, get_current_user) (admit-IsWellFormed resolved now _ db v)
    ])
  ]

  pub logout-IsWellFormed :
      (meta : RequestMeta) (user : CurrentUser) (scope : Scope) (db : Database)
      → IsWellFormed db
      → IsWellFormed (logout meta user scope db)
  unfolding logout delete_session
  logout-IsWellFormed meta user scope db v = search (rules, sessions-IsWellFormed)
