-- ===== src/Auth/PasswordStep.antt =====
-- What `start_login` answers, for which account, and that it makes no session.
use sustentra_platform.Prelude.{
  ◌≡◌, ◌≢◌, ◌↔◌, ◌⊎◌, refl, ap, true, Option, none, some, arith, Bool-cases, Option-cases, inl, inr,
  if◌then◌else◌,
}
use sustentra_platform.Text.{Text, normalize, is_truthy, or_empty}
use sustentra_platform.Auth.Database.{
  Time, Organization, User, is_active, Database, Scope, tenant, provider,
}
use sustentra_platform.Auth.Primitives.{Crypto, verify_password}
use sustentra_platform.Auth.Audit.{write_audit_event}
use sustentra_platform.Auth.Outcome.{
  Request, LoginOutcome, fail, invalid_credentials, locked, locked_response,
}
use sustentra_platform.Auth.Login.{
  may_sign_in, is_org_active, audit_anonymous, audit_user, consume_open_challenges, issue_challenge,
  password_step, find_slug, find_member, find_provider, start_login,
}
use sustentra_platform.Auth.SignIn.{record_failure-sessions}

-- The account that an email and a slug name: a member of the organization with the slug, or, with no
-- slug, a provider admin.
abbrev pub account_in : Option Organization → Text → Database → Option (Option Organization × User)
account_in none email db = elim (find_provider email db) [ none ↦ none | some u ↦ some (none, u) ]
account_in (some org) email db = elim (find_member org.id email db) [
  | none ↦ none
  | some u ↦ some (some org, u)
]

abbrev pub account : Text → Option Text → Database → Option (Option Organization × User)
account email org_slug db =
    if is_truthy org_slug
    then elim (find_slug (normalize (or_empty org_slug)) db) [
      | none ↦ none
      | some org ↦ account_in (some org) (normalize email) db
    ]
    else account_in none (normalize email) db

abbrev pub org_scope : Option Organization → Scope
org_scope none = provider
org_scope (some org) = tenant org.id

has_hash :
    ⦃crypto : Crypto⦄ (password : Text) (hash : Option Text)
    → verify_password password hash ≡ true
    → is_truthy hash ≡ true
unfolding verify_password
has_hash ⦃crypto⦄ password none h = cc
has_hash ⦃crypto⦄ password (some hash) h = ground arith

-- The password is the user's, and the user and the organization are active.
abbrev pub CanSignIn : ⦃crypto : Crypto⦄ → Text → Option Organization → User → Type 0
CanSignIn ⦃crypto⦄ password org user =
    (verify_password password user.password_hash ≡ true)
    × (is_active user.status ≡ true)
    × (is_org_active org ≡ true)

pub CanSignIn-may_sign_in :
    ⦃crypto : Crypto⦄ (password : Text) (org : Option Organization) (user : User)
    → CanSignIn password org user
    → may_sign_in password org user ≡ true
CanSignIn-may_sign_in ⦃crypto⦄ password org user h =
    ground (arith, has_hash password user.password_hash)

may_sign_in-CanSignIn :
    ⦃crypto : Crypto⦄ (password : Text) (org : Option Organization) (user : User)
    → may_sign_in password org user ≡ true
    → CanSignIn password org user
may_sign_in-CanSignIn ⦃crypto⦄ password org user h = ground arith

module _ ⦃crypto : Crypto⦄ (request : Request) (email password : Text) (org_slug : Option Text)
    (db : Database) where
  unknown_account :
      account email org_slug db ≡ none
      → ((start_login request email password org_slug db).1 ≡ fail invalid_credentials)
        × ((start_login request email password org_slug db).0.sessions ≡ db.sessions)
  unfolding start_login audit_anonymous write_audit_event password_step
  unknown_account e = elim (Bool-cases (is_truthy org_slug)) [
    | inl t ↦ ground arith
    | inr t ↦ ground arith
  ]

  pub known_account :
      (org : Option Organization) (user : User)
      → account email org_slug db ≡ some (org, user)
      → start_login request email password org_slug db
        ≡ password_step request password org (org_scope org) (some user) db
  unfolding start_login
  known_account org user e = elim (Bool-cases (is_truthy org_slug)) [
    | inl t ↦ ground arith
    | inr t ↦ ground arith
  ]

  -- Whom the password step lets through, and whom it keeps out for a while.
  abbrev pub PassesStep : Type 0
  PassesStep =
      (org : Option Organization) × (user : User) × (account email org_slug db ≡ some (org, user))
      × (locked user.locked_until request.now ≡ none)
      × CanSignIn password org user

  abbrev pub IsLockedOut : Type 0
  IsLockedOut =
      (org : Option Organization) × (user : User) × (until : Time) × (account email org_slug db
        ≡ some (org, user))
      × (locked user.locked_until request.now ≡ some until)

  -- An account, by what the step answers it.
  abbrev Answers : Database × LoginOutcome → Type 0
  Answers r =
      (PassesStep × (r.1.status ≡ 200) × (r.0.sessions ≡ db.sessions))
      ⊎ ((IsLockedOut × (r.1.status ≡ 429) × (r.0.sessions ≡ db.sessions))
          ⊎ ((r.1 ≡ fail invalid_credentials) × (r.0.sessions ≡ db.sessions)))

  issue-sessions :
      (scope : Scope) (user : User)
      → (issue_challenge request scope user db).0.sessions ≡ db.sessions
  unfolding issue_challenge consume_open_challenges audit_user write_audit_event
  issue-sessions scope user = refl

  issue-status :
      (scope : Scope) (user : User) → (issue_challenge request scope user db).1.status ≡ 200
  unfolding issue_challenge
  issue-status scope user = refl

  known_answers :
      (org : Option Organization) (user : User)
      → account email org_slug db ≡ some (org, user)
      → Answers (password_step request password org (org_scope org) (some user) db)
  unfolding password_step locked_response
  known_answers org user found = elim (Option-cases (locked user.locked_until request.now)) [
    | inr (until, e) ↦
        inr (inl ((org, user, until, found, e), rw (e, password_step), rw (e, password_step)))
    | inl e ↦ elim (Bool-cases (may_sign_in password org user)) [
      | inl good ↦ inl (
        (org, user, found, e, may_sign_in-CanSignIn password org user good),
        rw (e, password_step) (rw good (issue-status (org_scope org) user)),
        rw (e, password_step) (rw good (issue-sessions (org_scope org) user)),
      )
      | inr bad ↦ inr (
          inr (
            rw (e, password_step) (rw bad),
            rw (e, password_step)
                (rw bad (record_failure-sessions request (org_scope org) user _ db)),
          ))
    ]
  ]

  answers : Answers (start_login request email password org_slug db)
  answers = elim (Option-cases (account email org_slug db)) [
    | inl e ↦ inr (inr (unknown_account e))
    | inr ((org, user), e) ↦ rw (known_account org user e) (known_answers org user e)
  ]

  passes : PassesStep → (start_login request email password org_slug db).1.status ≡ 200
  unfolding password_step
  passes (org, user, found, e, can) =
      let good = CanSignIn-may_sign_in password org user can in
      rw (known_account org user found)
        (rw (e, password_step) (rw good (issue-status (org_scope org) user)))

  pub locks_out :
      (m : IsLockedOut)
      → (start_login request email password org_slug db).1 ≡ locked_response m.2 request.now
  unfolding password_step
  locks_out (org, user, until, found, e) = rw (known_account org user found) (rw (e, password_step))

  locks_out-status : IsLockedOut → (start_login request email password org_slug db).1.status ≡ 429
  unfolding locked_response
  locks_out-status m = rw (locks_out m)

  -- The password step answers 200 exactly when the account exists, is not locked out, is active, in an
  -- active organization if in any, and has this password; it answers 429 exactly when the account exists
  -- and is locked out; and all else gets the same answer, 401 with the same body. It changes no session.
  pub start_login_answers :
      let r = start_login request email password org_slug db in
      ((r.1.status ≡ 200) ↔ PassesStep)
      × ((r.1.status ≡ 429) ↔ IsLockedOut)
      × (r.1.status ≢ 200 → r.1.status ≢ 429 → r.1 ≡ fail invalid_credentials)
      × (r.0.sessions ≡ db.sessions)
  start_login_answers = elim answers [
    | inl (m, ok, same) ↦
        ((λ _. m, passes), (λ e. absurd (omega arith), locks_out-status), λ n. absurd (n ok), same)
    | inr (inl (m, late, same)) ↦ (
      (λ e. absurd (omega arith), passes),
      (λ _. m, locks_out-status),
      λ _ n. absurd (n late),
      same,
    )
    | inr (inr (out, same)) ↦ (
      (λ e. absurd (omega (arith, ap (λ (o : LoginOutcome). o.status) out)), passes),
      (λ e. absurd (omega (arith, ap (λ (o : LoginOutcome). o.status) out)), locks_out-status),
      λ _ _. out,
      same,
    )
  ]
