-- ===== src/Auth/Steps/Keeps.antt =====
-- Each request keeps the tables well formed.
use sustentra_platform.Prelude.{
  ℕ, ◌+◌, ◌<◌, ◌≢◌, refl, Option, none, some, List, [], ◌∷◌, arith, All, leb, Bool-cases,
  Option-cases, inl, inr,
}
use sustentra_platform.Text.{Text, lit, normalize, is_truthy, or_empty}
use sustentra_platform.Auth.Table.{update_where-All}
use sustentra_platform.Auth.Database.{
  Time, Organization, User, AuthToken, MetaValue, Scope, Database,
}
use sustentra_platform.Auth.Primitives.{Crypto}
use sustentra_platform.Auth.Outcome.{Request, locked, max_failed_logins}
use sustentra_platform.Auth.Login.{
  audit_anonymous, audit_user, record_failure, consume_open_challenges, issue_challenge,
  password_step, start_login, find_slug, may_sign_in, new_challenge, mark_consumed, lock, set_count,
}
use sustentra_platform.Auth.Invariant.{
  IsWellFormed, write_audit_event-IsWellFormed, update_user-IsWellFormed,
  update_tokens-IsWellFormed, update_token-IsWellFormed, add_token-IsWellFormed, purge-IsWellFormed,
  sessions-IsWellFormed, TriesAreLow, CountIsLow,
}

pub audit_user-IsWellFormed :
    (request : Request) (event : Text) (user : User) (metadata : List (Text × MetaValue))
    (db : Database)
    → IsWellFormed db
    → IsWellFormed (audit_user request event user metadata db)
unfolding audit_user
audit_user-IsWellFormed request event user metadata db v =
    write_audit_event-IsWellFormed request.meta event _ _ _ _ metadata db v

pub ruleset rules = (
  audit_user-IsWellFormed, write_audit_event-IsWellFormed, update_user-IsWellFormed,
  purge-IsWellFormed, sessions-IsWellFormed,
)

lock-low : (now : Time) (u : User) → CountIsLow u → CountIsLow (lock now u)
lock-low now u h = omega arith

set_count-low :
    (n : ℕ) (now : Time)
    → n < max_failed_logins
    → (u : User) → CountIsLow u
    → CountIsLow (set_count n now u)
set_count-low n now h u k = h

pub record_failure-IsWellFormed :
    (request : Request) (scope : Scope) (user : User) (reason : Text) (db : Database)
    → IsWellFormed db
    → IsWellFormed (record_failure request scope user reason db)
unfolding record_failure
record_failure-IsWellFormed request scope user reason db v =
    elim (Bool-cases (leb max_failed_logins (user.failed_login_count + 1))) [
      | inl t ↦ rw t (search (rules, lock-low))
      | inr t ↦
          rw t
            (search (rules, set_count-low (user.failed_login_count + 1) request.now (ground arith)))
    ]

pub mark_consumed-low :
    (now : Time) (t : AuthToken) → TriesAreLow t → TriesAreLow (mark_consumed now t)
mark_consumed-low now t h = ground arith

module _ ⦃crypto : Crypto⦄ where
  issue_challenge-IsWellFormed :
      (request : Request) (scope : Scope) (user : User) (db : Database)
      → All (λ t. t.id ≢ request.new_uuid) db.auth_tokens
      → IsWellFormed db
      → IsWellFormed (issue_challenge request scope user db).0
  unfolding issue_challenge consume_open_challenges
  issue_challenge-IsWellFormed request scope user db fresh v =
      audit_user-IsWellFormed request (lit "login_password_ok") user []
        (record db {
          auth_tokens =
              new_challenge request user
              ∷ (consume_open_challenges scope user.id request.now db).auth_tokens;
        })
        (add_token-IsWellFormed (new_challenge request user)
          (consume_open_challenges scope user.id request.now db) (ground arith)
          (update_where-All (λ t. t.id ≢ request.new_uuid) _ (mark_consumed request.now)
            db.auth_tokens (λ t n. n) fresh)
          (update_tokens-IsWellFormed _ (mark_consumed request.now) db
            (mark_consumed-low request.now) (λ t. refl) v))

  password_step-IsWellFormed :
      (request : Request) (password : Text) (org : Option Organization) (scope : Scope)
      (user : Option User) (db : Database)
      → All (λ t. t.id ≢ request.new_uuid) db.auth_tokens
      → IsWellFormed db
      → IsWellFormed (password_step request password org scope user db).0
  unfolding password_step audit_anonymous
  password_step-IsWellFormed request password org scope none db fresh v = search rules
  password_step-IsWellFormed request password org scope (some user) db fresh v =
      elim (Option-cases (locked user.locked_until request.now)) [
        | inl e ↦
            rw (e, password_step)
              (elim (Bool-cases (may_sign_in password org user)) [
                | inl t ↦ rw t (issue_challenge-IsWellFormed request scope user db fresh v)
                | inr t ↦ rw t (search record_failure-IsWellFormed)
              ])
        | inr (until, e) ↦ rw (e, password_step) v
      ]

  pub start_login-IsWellFormed :
      (request : Request) (email password : Text) (org_slug : Option Text) (db : Database)
      → All (λ t. t.id ≢ request.new_uuid) db.auth_tokens
      → IsWellFormed db
      → IsWellFormed (start_login request email password org_slug db).0
  unfolding start_login audit_anonymous
  start_login-IsWellFormed request email password org_slug db fresh v =
      elim (Bool-cases (is_truthy org_slug)) [
        | inl t ↦ rw t (elim (Option-cases (find_slug (normalize (or_empty org_slug)) db)) [
          | inl e ↦ rw e (search rules)
          | inr (org, e) ↦ rw e (password_step-IsWellFormed request password _ _ _ db fresh v)
        ])
        | inr t ↦ rw t (password_step-IsWellFormed request password _ _ _ db fresh v)
      ]
