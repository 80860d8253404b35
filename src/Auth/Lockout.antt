-- ===== src/Auth/Lockout.antt =====
-- Five wrong passwords in a row lock an account for fifteen minutes.
use sustentra_platform.Prelude.{
  ◌+◌, ◌<◌, ◌≡◌, refl, ap, ◌∙◌, false, Option, none, some, List, [], ◌∷◌, arith, leb, length, All,
  Bool-cases, inl, inr, if◌then◌else◌,
}
use sustentra_platform.Text.{Text}
use sustentra_platform.Auth.Database.{Time, Organization, User, Database, update_user}
use sustentra_platform.Auth.Primitives.{Crypto, verify_password}
use sustentra_platform.Auth.Audit.{write_audit_event}
use sustentra_platform.Auth.Outcome.{Request, locked, locked_response, lockout, max_failed_logins}
use sustentra_platform.Auth.Login.{
  may_sign_in, lock, set_count, audit_user, record_failure, failure_reason, password_step,
  start_login,
}
use sustentra_platform.Auth.PasswordStep.{account, org_scope, known_account, locks_out}
use sustentra_platform.Auth.Account.{account-update, account-eq}

-- The row of a user after a failure.
abbrev after_failure : Request → User → User
after_failure request user =
    if leb max_failed_logins (user.failed_login_count + 1)
    then lock request.now user
    else set_count (user.failed_login_count + 1) request.now user

account-record_failure :
    (request : Request) (email : Text) (org_slug : Option Text) (org : Option Organization)
    (user : User) (reason : Text) (db : Database)
    → account email org_slug db ≡ some (org, user)
    → account email org_slug (record_failure request (org_scope org) user reason db)
      ≡ some (org, after_failure request user)
unfolding record_failure audit_user write_audit_event
account-record_failure request email org_slug org user reason db e =
    elim (Bool-cases (leb max_failed_logins (user.failed_login_count + 1))) [
      | inl t ↦
          let locked_db = update_user (org_scope org) user.id (lock request.now) db in
          account-eq email org_slug locked_db
            (record_failure request (org_scope org) user reason db) (rw t) (rw t)
          ∙ rw t (
              account-update email org_slug org user (lock request.now) db e
                (λ u. (refl, refl, refl)))
      | inr t ↦
          let f = set_count (user.failed_login_count + 1) request.now in
          account-eq email org_slug (update_user (org_scope org) user.id f db)
            (record_failure request (org_scope org) user reason db) (rw t) (rw t)
          ∙ rw t (account-update email org_slug org user f db e (λ u. (refl, refl, refl)))
    ]

module _ ⦃crypto : Crypto⦄ (email : Text) (org_slug : Option Text) where
  -- Attempts at the password step, one after another.
  abbrev pub attempt_all : List (Request × Text) → Database → Database
  attempt_all [] db = db
  attempt_all ((request, password) ∷ attempts) db =
      attempt_all attempts (start_login request email password org_slug db).0

  -- An attempt that is let try, and fails.
  abbrev pub IsWrong : Option Organization → User → Request × Text → Type 0
  IsWrong org user attempt =
      (may_sign_in attempt.1 org user ≡ false) × (locked user.locked_until attempt.0.now ≡ none)

  fail_once :
      (request : Request) (password : Text) (org : Option Organization) (user : User)
      (db : Database)
      → account email org_slug db ≡ some (org, user)
      → IsWrong org user (request, password)
      → account email org_slug (start_login request email password org_slug db).0
        ≡ some (org, after_failure request user)
  unfolding password_step
  fail_once request password org user db found (bad, unlocked) =
      let failed : (start_login request email password org_slug db).0
          ≡ record_failure request (org_scope org) user
              (failure_reason user (verify_password password user.password_hash)) db =
        rw (known_account request email password org_slug db org user found)
          (rw (unlocked, password_step) (rw bad)) in
      ap (account email org_slug) failed
      ∙ account-record_failure request email org_slug org user _ db found

  abbrev pub last_time : Request × Text → List (Request × Text) → Time
  last_time a [] = a.0.now
  last_time a (b ∷ attempts) = last_time b attempts

  fail_until_locked :
      (a : Request × Text) (attempts : List (Request × Text)) (org : Option Organization)
      (user : User) (db : Database)
      → account email org_slug db ≡ some (org, user)
      → user.failed_login_count + length (a ∷ attempts) ≡ max_failed_logins
      → All (IsWrong org user) (a ∷ attempts)
      → (user' : User) × (account email org_slug (attempt_all (a ∷ attempts) db)
          ≡ some (org, user'))
        × (user'.locked_until ≡ some (last_time a attempts + lockout))
  fail_until_locked (request, password) [] org user db found count wrong = (
    lock request.now user,
    fail_once request password org user db found wrong.0 ∙ ground arith,
    refl,
  )
  fail_until_locked (request, password) (b ∷ attempts) org user db found count wrong =
      fail_until_locked b attempts org (set_count (user.failed_login_count + 1) request.now user)
        (start_login request email password org_slug db).0
        (fail_once request password org user db found wrong.0 ∙ ground arith) (omega arith) wrong.1

  -- Wrong passwords in a row that bring the counter of an account to five lock it: for fifteen minutes
  -- from the last of them the password step answers 429, also to the right password.
  pub locks_after_failures :
      (a : Request × Text) (attempts : List (Request × Text)) (org : Option Organization)
      (user : User) (later : Request) (password : Text) (db : Database)
      → account email org_slug db ≡ some (org, user)
      → user.failed_login_count + length (a ∷ attempts) ≡ max_failed_logins
      → All (IsWrong org user) (a ∷ attempts)
      → later.now < last_time a attempts + lockout
      → (start_login later email password org_slug (attempt_all (a ∷ attempts) db)).1
        ≡ locked_response (last_time a attempts + lockout) later.now
  locks_after_failures a attempts org user later password db found count wrong early =
      let (user', found', until) = fail_until_locked a attempts org user db found count wrong in
      locks_out later email password org_slug (attempt_all (a ∷ attempts) db)
        (org, user', last_time a attempts + lockout, found', rw until (ground arith))
