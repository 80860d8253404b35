-- ===== src/Auth/Steps/KeepsChallenge.antt =====
-- A wrong code, a right one, a renewed code, and a reset keep the tables well formed.
use sustentra_platform.Prelude.{
  ◌+◌, ◌<◌, ◌≡◌, refl, Option, none, some, arith, leb, Bool-cases, Option-cases, inl, inr,
}
use sustentra_platform.Text.{Text, strip}
use sustentra_platform.Auth.Table.{first_where-All}
use sustentra_platform.Auth.Database.{
  Uuid, Time, User, AuthToken, Scope, Database, auth_resolve_challenge, update_token, is_active,
}
use sustentra_platform.Auth.Primitives.{Crypto, verify_otp}
use sustentra_platform.Auth.Outcome.{Request, locked, max_otp_attempts, max_resends}
use sustentra_platform.Auth.Login.{mark_consumed}
use sustentra_platform.Auth.Lookup.{IsOpen-self, usable-IsOpen}
use sustentra_platform.Auth.Challenge.{
  set_attempts, clear_failures, renew, wrong_code, is_barred, sign_in, verify_owner, verify_login,
  usable, load_challenge, renew_code, resend_owner, resend_usable, resend_code, cooldown_left,
}
use sustentra_platform.Auth.Session.{create_session}
use sustentra_platform.Auth.Invariant.{
  IsWellFormed, CountIsLow, TriesAreLow, update_token-IsWellFormed, update_tokens-IsWellFormed,
  sessions-IsWellFormed,
}
use sustentra_platform.Auth.Steps.Keeps.{
  audit_user-IsWellFormed, record_failure-IsWellFormed, mark_consumed-low, rules,
}

clear_failures-low : (now : Time) (u : User) → CountIsLow u → CountIsLow (clear_failures now u)
clear_failures-low now u h = omega arith

-- The row that was read is within the bounds.
resolved-low :
    (k : Uuid) (db : Database) (t : AuthToken)
    → auth_resolve_challenge k db ≡ some t
    → IsWellFormed db
    → TriesAreLow t
unfolding auth_resolve_challenge
resolved-low k db t e v = first_where-All TriesAreLow _ db.auth_tokens {x = t} v.tokens e

wrong_code-IsWellFormed :
    (request : Request) (scope : Scope) (challenge : AuthToken) (user : User) (db : Database)
    → auth_resolve_challenge challenge.id db ≡ some challenge
    → IsWellFormed db
    → IsWellFormed (wrong_code request scope challenge user db)
unfolding wrong_code
wrong_code-IsWellFormed request scope challenge user db found v =
    let low : TriesAreLow challenge = resolved-low challenge.id db challenge found v in
    let n = challenge.attempt_count + 1 in
    elim (Bool-cases (leb max_otp_attempts (challenge.attempt_count + 1))) [
      | inl t ↦ rw t (
          record_failure-IsWellFormed request scope user _ _ (
            audit_user-IsWellFormed request _ user _ _ (
              update_token-IsWellFormed scope challenge.id
                (λ t'. mark_consumed request.now (set_attempts n t')) db challenge found
                (ground arith) (λ t'. refl) v)))
      | inr t ↦ rw t (
          audit_user-IsWellFormed request _ user _ _ (
            update_token-IsWellFormed scope challenge.id (set_attempts n) db challenge found
              (ground arith) (λ t'. refl) v))
    ]

pub mark_consumed-IsWellFormed :
    (scope : Scope) (k : Uuid) (now : Time) (db : Database)
    → IsWellFormed db
    → IsWellFormed (update_token scope k (mark_consumed now) db)
unfolding update_token
mark_consumed-IsWellFormed scope k now db v =
    update_tokens-IsWellFormed _ (mark_consumed now) db (mark_consumed-low now) (λ t. refl) v

module _ ⦃crypto : Crypto⦄ where
  create_session-IsWellFormed :
      (k : Uuid) (token : Text) (now : Time) (user_id : Uuid) (org_id : Option Uuid)
      (ip agent : Option Text) (db : Database)
      → IsWellFormed db
      → IsWellFormed (create_session k token now user_id org_id ip agent db).0
  unfolding create_session
  create_session-IsWellFormed k token now user_id org_id ip agent db v =
      sessions-IsWellFormed _ db v

  sign_in-IsWellFormed :
      (request : Request) (scope : Scope) (challenge : AuthToken) (user : User) (db : Database)
      → IsWellFormed db
      → IsWellFormed (sign_in request scope challenge user db).0
  unfolding sign_in
  sign_in-IsWellFormed request scope challenge user db v =
      search (rules, create_session-IsWellFormed, mark_consumed-IsWellFormed, clear_failures-low)
        depth 7

  verify_owner-IsWellFormed :
      (request : Request) (code : Text) (challenge : AuthToken) (user : Option User) (db : Database)
      → auth_resolve_challenge challenge.id db ≡ some challenge
      → IsWellFormed db
      → IsWellFormed (verify_owner request code challenge user db).0
  unfolding verify_owner
  verify_owner-IsWellFormed request code challenge none db found v = v
  verify_owner-IsWellFormed request code challenge (some user) db found v =
      elim (Bool-cases (is_barred user db)) [
        | inl t ↦ rw t v
        | inr t ↦ rw t (elim (Option-cases (locked user.locked_until request.now)) [
          | inr (until, e) ↦ rw (e, verify_owner) v
          | inl e ↦
              rw (e, verify_owner)
                (elim (Bool-cases
                  (verify_otp (crypto.show_uuid challenge.id) (strip code) challenge.token_hash)) [
                    | inl good ↦ rw good (sign_in-IsWellFormed request _ challenge user db v)
                    | inr bad ↦ rw bad (wrong_code-IsWellFormed request _ challenge user db found v)
                  ])
        ])
      ]

  pub verify_login-IsWellFormed :
      (request : Request) (challenge_id code : Text) (db : Database)
      → IsWellFormed db
      → IsWellFormed (verify_login request challenge_id code db).0
  unfolding verify_login
  verify_login-IsWellFormed request challenge_id code db v =
      elim (Option-cases (usable (load_challenge challenge_id db) request.now)) [
        | inl e ↦ rw (e, verify_login) v
        | inr (challenge, e) ↦
            let (k, p, read) = usable-IsOpen challenge_id db request.now challenge e in
            rw (e, verify_login)
              (verify_owner-IsWellFormed request code challenge _ db
                (IsOpen-self db request.now k challenge read) v)
      ]

  renew_code-IsWellFormed :
      (request : Request) (challenge : AuthToken) (user : User) (db : Database)
      → auth_resolve_challenge challenge.id db ≡ some challenge
      → challenge.resend_count < max_resends
      → IsWellFormed db
      → IsWellFormed (renew_code request challenge user db).0
  unfolding renew_code
  renew_code-IsWellFormed request challenge user db found few v =
      audit_user-IsWellFormed request _ user _ _ (
        update_token-IsWellFormed _ challenge.id (renew request.now _) db challenge found
          (ground arith) (λ t. refl) v)

  resend_owner-IsWellFormed :
      (request : Request) (challenge : AuthToken) (user : Option User) (db : Database)
      → auth_resolve_challenge challenge.id db ≡ some challenge
      → challenge.resend_count < max_resends
      → IsWellFormed db
      → IsWellFormed (resend_owner request challenge user db).0
  unfolding resend_owner
  resend_owner-IsWellFormed request challenge none db found few v = v
  resend_owner-IsWellFormed request challenge (some user) db found few v =
      elim (Bool-cases (is_active user.status)) [
        | inl t ↦ rw t (renew_code-IsWellFormed request challenge user db found few v)
        | inr t ↦ rw t v
      ]

  resend_usable-IsWellFormed :
      (request : Request) (challenge : AuthToken) (db : Database)
      → auth_resolve_challenge challenge.id db ≡ some challenge
      → IsWellFormed db
      → IsWellFormed (resend_usable request challenge db).0
  unfolding resend_usable
  resend_usable-IsWellFormed request challenge db found v =
      elim (Bool-cases (leb max_resends challenge.resend_count)) [
        | inl t ↦ rw t v
        | inr t ↦ rw t (elim (Option-cases (cooldown_left challenge.last_sent_at request.now)) [
          | inr (wait, e) ↦ rw (e, resend_usable) v
          | inl e ↦
              rw (e, resend_usable)
                (resend_owner-IsWellFormed request challenge _ db found (ground arith) v)
        ])
      ]

  pub resend_code-IsWellFormed :
      (request : Request) (challenge_id : Text) (db : Database)
      → IsWellFormed db
      → IsWellFormed (resend_code request challenge_id db).0
  unfolding resend_code
  resend_code-IsWellFormed request challenge_id db v =
      elim (Option-cases (usable (load_challenge challenge_id db) request.now)) [
        | inl e ↦ rw (e, resend_code) v
        | inr (challenge, e) ↦
            let (k, p, read) = usable-IsOpen challenge_id db request.now challenge e in
            rw (e, resend_code)
              (resend_usable-IsWellFormed request challenge db
                (IsOpen-self db request.now k challenge read) v)
      ]
