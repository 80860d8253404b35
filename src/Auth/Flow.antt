-- ===== src/Auth/Flow.antt =====
-- The steps of a login together: the code that the password step sends opens a session at the second
-- step.
use sustentra_platform.Prelude.{
  ℕ, ◌+◌, ◌≤◌, ◌<◌, ◌≡◌, refl, ◌∙◌, Bool, true, false, Option, none, some, arith, nat_eq, is_some,
  is_empty, Bool-cases, Option-cases, inl, inr,
}
use sustentra_platform.Text.{Text, ◌==◌, eq_refl, normalize, is_truthy, or_empty, strip}
use sustentra_platform.Auth.Table.{first_where, first_where-own, first_where-holds, Distinct}
use sustentra_platform.Auth.Database.{
  Uuid, Time, Organization, User, Database, Scope, scope_of, is_visible, in_organization, is_active,
  find_organization, find_user, auth_resolve_challenge,
}
use sustentra_platform.Auth.Primitives.{Crypto, verify_otp, new_otp}
use sustentra_platform.Auth.Audit.{write_audit_event}
use sustentra_platform.Auth.Otp.{strip-new_otp}
use sustentra_platform.Auth.Outcome.{Request, locked}
use sustentra_platform.Auth.Login.{
  may_sign_in, is_org_active, find_slug, find_member, find_provider, audit_user,
  consume_open_challenges, new_challenge, issue_challenge, password_step, start_login,
}
use sustentra_platform.Auth.Challenge.{is_barred, sign_in, verify_login}
use sustentra_platform.Auth.Lookup.{IsOpen}
use sustentra_platform.Auth.PasswordStep.{
  account, org_scope, known_account, PassesStep, CanSignIn-may_sign_in,
}
use sustentra_platform.Auth.SignIn.{MayEnter, enter, sign_in-token}
use sustentra_platform.Auth.CurrentUser.{CurrentUser, unauthenticated, get_current_user}
use sustentra_platform.Auth.Access.{slug_of}
use sustentra_platform.Auth.Entered.{entered_lets_in, entered_ends}
use sustentra_platform.Prelude.Outcomes.{ok, error}
use sustentra_platform.Auth.SingleUse.{visible_self}
use sustentra_platform.Auth.Account.{provider_account, member_account}

-- What an account says of its row: it is found by its id, and its organization is the one of the slug.
abbrev IsOwn : Database → Option Organization → User → Type 0
IsOwn db org user =
    (find_user (scope_of user.org_id) user.id db ≡ some user)
    × (is_org_active org ≡ true → is_active user.status ≡ true → is_barred user db ≡ false)

own_user :
    (p : User → Bool) (db : Database) (user : User)
    → Distinct (λ u. u.id) db.users
    → first_where p db.users ≡ some user
    → find_user (scope_of user.org_id) user.id db ≡ some user
unfolding find_user
own_user p db user distinct e =
    first_where-own (λ u. u.id) p (λ u. is_visible (scope_of user.org_id) u.org_id) db.users
      {x = user} distinct e (visible_self user.org_id)

own_organization :
    (slug : Text) (db : Database) (org : Organization)
    → Distinct (λ o. o.id) db.organizations
    → find_slug slug db ≡ some org
    → find_organization org.id db ≡ some org
unfolding find_slug find_organization
own_organization slug db org distinct e =
    first_where-own (λ o. o.id) (λ o. o.slug == slug) (λ _. true) db.organizations {x = org}
      distinct e refl

provider-IsOwn :
    (email : Text) (db : Database) (user : User)
    → Distinct (λ u. u.id) db.users
    → find_provider email db ≡ some user
    → IsOwn db none user
unfolding find_provider
provider-IsOwn email db user distinct e =
    let h = first_where-holds _ db.users {x = user} e in
    let no_org : is_some user.org_id ≡ false = ground arith in
    (own_user _ db user distinct e, λ _ a. rw (a, no_org))

in_organization-eq : (k : ℕ) (org_id : Option ℕ) → in_organization k org_id ≡ true → org_id ≡ some k
in_organization-eq k none h = cc
in_organization-eq k (some j) h = ground arith

member-IsOwn :
    (slug email : Text) (db : Database) (org : Organization) (user : User)
    → Distinct (λ u. u.id) db.users
    → Distinct (λ o. o.id) db.organizations
    → find_slug slug db ≡ some org
    → find_member org.id email db ≡ some user
    → IsOwn db (some org) user
unfolding find_member
member-IsOwn slug email db org user distinct distinct' s e =
    let h = first_where-holds _ db.users {x = user} e in
    let within : user.org_id ≡ some org.id = in_organization-eq org.id user.org_id (ground arith) in
    (
      own_user _ db user distinct e,
      λ o a. rw (a, within) (rw (own_organization slug db org distinct' s) (rw o)),
    )

module _ ⦃crypto : Crypto⦄ (request : Request) (email password : Text) (org_slug : Option Text)
    (db : Database) (users : Distinct (λ u. u.id) db.users)
    (organizations : Distinct (λ o. o.id) db.organizations) where
  account-IsOwn :
      (org : Option Organization) (user : User)
      → account email org_slug db ≡ some (org, user)
      → IsOwn db org user
  account-IsOwn org user e = elim (Bool-cases (is_truthy org_slug)) [
    | inr t ↦
        let (is, found) = provider_account org (normalize email) user db (rw t at e) in
        rw is (provider-IsOwn _ db user users found)
    | inl t ↦ elim (Option-cases (find_slug (normalize (or_empty org_slug)) db)) [
      | inl n ↦ absurd (ground arith)
      | inr (o, n) ↦
          let (is, found) = member_account o org (normalize email) user db (ground arith) in
          rw is (member-IsOwn _ _ db o user users organizations n found)
    ]
  ]

  issued-IsOpen :
      (later : Request) (scope : Scope) (user : User)
      → later.now < request.now + 600000000
      → IsOpen
          (issue_challenge request scope user db).0
          later.now
          request.new_uuid
          (new_challenge request user)
  unfolding issue_challenge consume_open_challenges audit_user write_audit_event
      auth_resolve_challenge first_where
  issued-IsOpen later scope user early =
      let own : nat_eq request.new_uuid request.new_uuid ≡ true = ground arith in
      (rw own, refl, refl, refl, early)

  issued_user :
      (scope : Scope) (user : User)
      → find_user (scope_of user.org_id) user.id db ≡ some user
      → find_user (scope_of user.org_id) user.id (issue_challenge request scope user db).0
        ≡ some user
  unfolding issue_challenge consume_open_challenges audit_user write_audit_event find_user
  issued_user scope user e = e

  issued-Distinct :
      (scope : Scope) (user : User)
      → Distinct (λ u. u.id) (issue_challenge request scope user db).0.users
  unfolding issue_challenge consume_open_challenges audit_user write_audit_event
  issued-Distinct scope user = users

  issued_slug :
      (scope : Scope) (user : User) (org_id : Option Uuid)
      → slug_of org_id (issue_challenge request scope user db).0 ≡ slug_of org_id db
  unfolding issue_challenge consume_open_challenges audit_user write_audit_event find_organization
  issued_slug scope user none = refl
  issued_slug scope user (some k) = refl

  issued_barred :
      (scope : Scope) (user : User)
      → is_barred user (issue_challenge request scope user db).0 ≡ is_barred user db
  unfolding issue_challenge consume_open_challenges audit_user write_audit_event find_organization
  issued_barred scope user = refl

  issued_code :
      (user : User)
      → verify_otp
          (crypto.show_uuid request.new_uuid)
          (strip (new_otp request.otp_number))
          (new_challenge request user).token_hash
        ≡ true
  unfolding verify_otp
  issued_code user = rw strip-new_otp (eq_refl _)

  stays_unlocked :
      (until : Option Time) (now later : Time)
      → now ≤ later
      → locked until now ≡ none
      → locked until later ≡ none
  stays_unlocked none now later h e = refl
  stays_unlocked (some until) now later h e = ground arith

  passed_issues :
      (org : Option Organization) (user : User)
      → account email org_slug db ≡ some (org, user)
      → locked user.locked_until request.now ≡ none
      → may_sign_in password org user ≡ true
      → start_login request email password org_slug db
        ≡ issue_challenge request (org_scope org) user db
  unfolding password_step
  passed_issues org user found unlocked good =
      rw (known_account request email password org_slug db org user found)
        (rw (unlocked, password_step) (rw good))

  issued_enters :
      (later : Request) (org : Option Organization) (user : User)
      → account email org_slug db ≡ some (org, user)
      → locked user.locked_until request.now ≡ none
      → may_sign_in password org user ≡ true
      → crypto.parse_uuid (crypto.show_uuid request.new_uuid) ≡ some request.new_uuid
      → request.now ≤ later.now
      → later.now < request.now + 600000000
      → MayEnter later
          (crypto.show_uuid request.new_uuid)
          (new_otp request.otp_number)
          (issue_challenge request (org_scope org) user db).0
          (new_challenge request user)
          user
  issued_enters later org user found unlocked good parsed after before =
      let own = account-IsOwn org user found in
      (
        request.new_uuid,
        parsed,
        issued-IsOpen later (org_scope org) user before,
        issued_user (org_scope org) user own.0,
        issued_barred (org_scope org) user ∙ own.1 (ground arith) (ground arith),
        stays_unlocked user.locked_until request.now later.now after unlocked,
        issued_code user,
      )

  sent_code :
      (later : Request) (m : PassesStep request email password org_slug db)
      → crypto.parse_uuid (crypto.show_uuid request.new_uuid) ≡ some request.new_uuid
      → request.now ≤ later.now
      → later.now < request.now + 600000000
      → verify_login later
          (crypto.show_uuid request.new_uuid)
          (new_otp request.otp_number)
          (issue_challenge request (org_scope m.0) m.1 db).0
        ≡ sign_in later
            (scope_of m.1.org_id)
            (new_challenge request m.1)
            m.1
            (issue_challenge request (org_scope m.0) m.1 db).0
  sent_code later (org, user, found, unlocked, can) parsed after before =
      let good = CanSignIn-may_sign_in password org user can in
      enter later _ _ _ (new_challenge request user) user
        (issued_enters later org user found unlocked good parsed after before)

  -- Whom the session of a login lets in.
  abbrev entrant : Request → User → CurrentUser
  entrant later user = record {
    id = user.id;
    email = user.email;
    role = user.role;
    org_id = user.org_id;
    org_slug = slug_of user.org_id db;
    session_id = later.new_session_id;
  }

  -- Whoever passes the password step gets a code, and this code, sent back within ten minutes, opens
  -- a session, with a token that is answered: the state after lets its bearer in as this user with this
  -- session until eight hours after the opening, and refuses the token from a week after the opening on.
  -- Ids of users and of organizations are distinct, UUIDs are read as they are written, the new token is
  -- not empty, and the clock of the database is at most eight days ahead of that of the session.
  pub login_succeeds :
      (later : Request) (m : PassesStep request email password org_slug db) (visit late : Time)
      → crypto.parse_uuid (crypto.show_uuid request.new_uuid) ≡ some request.new_uuid
      → request.now ≤ later.now
      → later.now < request.now + 600000000
      → is_empty later.new_token ≡ false
      → later.database_now ≤ later.session_now + 691200000000
      → visit ≤ later.session_now + 28800000000
      → later.session_now + 604800000000 ≤ late
      → let r = start_login request email password org_slug db in
        let v =
          verify_login later (crypto.show_uuid request.new_uuid) (new_otp request.otp_number) r.0 in
        (r.1.otp_code ≡ some (new_otp request.otp_number))
        × (v.1.session_token ≡ some later.new_token)
        × ((get_current_user (some later.new_token) visit v.0).1 ≡ ok (entrant later m.1))
        × (get_current_user (some later.new_token) late v.0 ≡ (v.0, error unauthenticated))
  unfolding issue_challenge
  login_succeeds later m visit late parsed after before given kept early over =
      let (org, user, found, unlocked, can) = m in
      let good = CanSignIn-may_sign_in password org user can in
      let own = account-IsOwn org user found in
      let issued = (issue_challenge request (org_scope org) user db).0 in
      let here = issued_user (org_scope org) user own.0 in
      let free : is_barred user issued ≡ false =
        issued_barred (org_scope org) user ∙ own.1 (ground arith) (ground arith) in
      rw (passed_issues org user found unlocked good) (
        rw (sent_code later m parsed after before) (
          refl,
          sign_in-token later (crypto.show_uuid request.new_uuid) (new_otp request.otp_number)
              issued (new_challenge request user) user,
          entered_lets_in later (new_challenge request user) user issued visit given
                (issued-Distinct (org_scope org) user) here free kept early
              ∙ rw (issued_slug (org_scope org) user user.org_id) refl,
          entered_ends later (new_challenge request user) user issued late given
              (issued-Distinct (org_scope org) user) here kept over,
        ))
