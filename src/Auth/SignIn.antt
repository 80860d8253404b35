-- ===== src/Auth/SignIn.antt =====
-- When `verify_login` hands out a session, and that a challenge is good for one.
use sustentra_platform.Prelude.{
  ◌+◌, ◌≡◌, ◌↔◌, ◌⊎◌, refl, sym, ◌∙◌, true, false, none, some, arith, leb, Bool-cases, Option-cases,
  inl, inr,
}
use sustentra_platform.Text.{Text, strip}
use sustentra_platform.Auth.Database.{
  Uuid, User, AuthToken, Database, Scope, scope_of, find_user, update_user, update_token,
}
use sustentra_platform.Auth.Primitives.{Crypto, verify_otp}
use sustentra_platform.Auth.Audit.{write_audit_event}
use sustentra_platform.Auth.Session.{create_session}
use sustentra_platform.Auth.Outcome.{
  Request, LoginOutcome, locked, locked_response, max_otp_attempts,
}
use sustentra_platform.Auth.Login.{audit_user, record_failure}
use sustentra_platform.Auth.Challenge.{
  is_barred, usable, load_challenge, wrong_code, sign_in, verify_owner, verify_login,
}
use sustentra_platform.Auth.Lookup.{IsOpen, IsOpen-usable, usable-IsOpen}

-- A failure that is recorded leaves the sessions as they are.
pub record_failure-sessions :
    (request : Request) (scope : Scope) (user : User) (reason : Text) (db : Database)
    → (record_failure request scope user reason db).sessions ≡ db.sessions
unfolding record_failure audit_user write_audit_event update_user
record_failure-sessions request scope user reason db = ground arith

pub wrong_code-sessions :
    (request : Request) (scope : Scope) (challenge : AuthToken) (user : User) (db : Database)
    → (wrong_code request scope challenge user db).sessions ≡ db.sessions
unfolding wrong_code audit_user write_audit_event update_token
wrong_code-sessions request scope challenge user db =
    elim (Bool-cases (leb max_otp_attempts (challenge.attempt_count + 1))) [
      | inl t ↦ rw t (record_failure-sessions request scope user _ _)
      | inr t ↦ rw t
    ]

some-none : {t : Text} → ¬ (some t ≡ none)
some-none h = cc

module _ ⦃crypto : Crypto⦄ (request : Request) (challenge_id code : Text) (db : Database) where
  -- What the second step asks for: an open challenge for signing in, whose owner is there, is active, in
  -- an active organization if in any, and is not locked out; and the code that was sent for it.
  abbrev pub MayEnter : AuthToken → User → Type 0
  MayEnter challenge user =
      (k : Uuid) × (crypto.parse_uuid challenge_id ≡ some k)
      × IsOpen db request.now k challenge
      × (find_user (scope_of challenge.org_id) challenge.user_id db ≡ some user)
      × (is_barred user db ≡ false)
      × (locked user.locked_until request.now ≡ none)
      × (verify_otp (crypto.show_uuid challenge.id) (strip code) challenge.token_hash ≡ true)

  enter_owner :
      (challenge : AuthToken) (user : User)
      → is_barred user db ≡ false
      → locked user.locked_until request.now ≡ none
      → verify_otp (crypto.show_uuid challenge.id) (strip code) challenge.token_hash ≡ true
      → verify_owner request code challenge (some user) db
        ≡ sign_in request (scope_of challenge.org_id) challenge user db
  unfolding verify_owner
  enter_owner challenge user free unlocked good = rw free (rw (unlocked, verify_owner) (rw good))

  pub enter :
      (challenge : AuthToken) (user : User)
      → MayEnter challenge user
      → verify_login request challenge_id code db
        ≡ sign_in request (scope_of challenge.org_id) challenge user db
  unfolding verify_login
  enter challenge user (k, parsed, read, owner, free, unlocked, good) =
      rw (IsOpen-usable challenge_id db request.now k challenge parsed read, verify_login)
        (rw owner (enter_owner challenge user free unlocked good))

  -- No session is handed out or stored.
  abbrev IsRefused : Database × LoginOutcome → Type 0
  IsRefused r = (r.1.session_token ≡ none) × (r.0.sessions ≡ db.sessions)

  owner_cases :
      (challenge : AuthToken) (user : User)
      → ((is_barred user db ≡ false)
          × (locked user.locked_until request.now ≡ none)
          × (verify_otp (crypto.show_uuid challenge.id) (strip code) challenge.token_hash ≡ true))
        ⊎ IsRefused (verify_owner request code challenge (some user) db)
  unfolding verify_owner locked_response
  owner_cases challenge user = elim (Bool-cases (is_barred user db)) [
    | inl t ↦ inr (rw t (refl, refl))
    | inr t ↦ elim (Option-cases (locked user.locked_until request.now)) [
      | inr (until, e) ↦ inr (rw t (rw (e, verify_owner) (refl, refl)))
      | inl e ↦
          elim (Bool-cases
            (verify_otp (crypto.show_uuid challenge.id) (strip code) challenge.token_hash)) [
              | inl good ↦ inl (t, e, good)
              | inr bad ↦ inr (
                  rw t (
                    rw (e, verify_owner)
                      (rw bad (refl, wrong_code-sessions request _ challenge user db))))
            ]
    ]
  ]

  IsRefused-none : (challenge : AuthToken) → IsRefused (verify_owner request code challenge none db)
  unfolding verify_owner
  IsRefused-none challenge = (refl, refl)

  verify_login_cases :
      ((challenge : AuthToken) × (user : User) × MayEnter challenge user)
      ⊎ IsRefused (verify_login request challenge_id code db)
  unfolding verify_login
  verify_login_cases = elim (Option-cases (usable (load_challenge challenge_id db) request.now)) [
    | inl e ↦ inr (rw (e, verify_login) (refl, refl))
    | inr (challenge, e) ↦
        elim (Option-cases (find_user (scope_of challenge.org_id) challenge.user_id db)) [
          | inl u ↦ inr (rw (e, verify_login) (rw u (IsRefused-none challenge)))
          | inr (user, u) ↦ elim (owner_cases challenge user) [
            | inr no_entry ↦ inr (rw (e, verify_login) (rw u no_entry))
            | inl guards ↦
                let (k, parsed, read) = usable-IsOpen challenge_id db request.now challenge e in
                inl (challenge, user, (k, parsed, read, u, guards.0, guards.1, guards.2))
          ]
        ]
  ]

  pub sign_in-token :
      (challenge : AuthToken) (user : User)
      → (sign_in request (scope_of challenge.org_id) challenge user db).1.session_token
        ≡ some request.new_token
  unfolding sign_in create_session
  sign_in-token challenge user = refl

  entered-token :
      (challenge : AuthToken) (user : User)
      → MayEnter challenge user
      → (verify_login request challenge_id code db).1.session_token ≡ some request.new_token
  entered-token challenge user m = rw (enter challenge user m) (sign_in-token challenge user)

  -- `verify_login` hands out the new session token exactly when the challenge is open, of the type for
  -- signing in, and not expired, its owner is there, is active, in an active organization if in any, and
  -- is not locked out, and the code is the one whose hash is stored. If it hands out none, it stores
  -- none.
  pub session_iff :
      let r = verify_login request challenge_id code db in
      ((r.1.session_token ≡ some request.new_token)
        ↔ ((challenge : AuthToken) × (user : User) × MayEnter challenge user))
      × (r.1.session_token ≡ none → r.0.sessions ≡ db.sessions)
  session_iff = elim verify_login_cases [
    | inl (challenge, user, m) ↦ (
      (λ _. (challenge, user, m), λ (c, u, n). entered-token c u n),
      λ missing. absurd (some-none (sym (entered-token challenge user m) ∙ missing)),
    )
    | inr (no_token, same) ↦
        ((λ h. absurd (some-none (sym h ∙ no_token)), λ (c, u, n). entered-token c u n), λ _. same)
  ]
