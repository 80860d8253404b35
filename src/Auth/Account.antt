-- ===== src/Auth/Account.antt =====
-- The account that an email and a slug name, after a change of the database.
use sustentra_platform.Prelude.{
  ◌≡◌, refl, true, ◌&&◌, Option, none, some, arith, nat_eq, not, is_some, Bool-cases, Option-cases,
  inl, inr,
}
use sustentra_platform.Text.{Text, ◌==◌, normalize, is_truthy, or_empty}
use sustentra_platform.Auth.Table.{first_where-update, first_where-holds}
use sustentra_platform.Auth.Database.{
  Uuid, Organization, User, Database, Scope, tenant, provider, is_visible, in_organization,
  is_provider_admin, update_user,
}
use sustentra_platform.Auth.Login.{find_slug, find_member, find_provider}
use sustentra_platform.Auth.PasswordStep.{account, account_in, org_scope}

-- An update that leaves alone what an account is found by.
abbrev KeepsName : (User → User) → Type 0
KeepsName f =
    (u : User) → ((f u).email ≡ u.email) × ((f u).org_id ≡ u.org_id) × ((f u).role ≡ u.role)

find_member-update :
    (org_id : Uuid) (email : Text) (k : Uuid) (f : User → User) (db : Database) (user : User)
    → find_member org_id email db ≡ some user
    → user.id ≡ k
    → KeepsName f
    → find_member org_id email (update_user (tenant org_id) k f db) ≡ some (f user)
unfolding find_member update_user
find_member-update org_id email k f db user e same keeps =
    let p = λ (u : User).
      is_visible (tenant org_id) u.org_id
      && (u.email == email && in_organization org_id u.org_id) in
    let q = λ (u : User). is_visible (tenant org_id) u.org_id && nat_eq u.id k in
    let here : p user ≡ true = first_where-holds p db.users {x = user} e in
    let hit : q user ≡ true = ground arith in
    rw (first_where-update p q f db.users (λ u. rw ((keeps u).0, (keeps u).1)) {x = user} e)
      (rw hit)

find_provider-update :
    (email : Text) (k : Uuid) (f : User → User) (db : Database) (user : User)
    → find_provider email db ≡ some user
    → user.id ≡ k
    → KeepsName f
    → find_provider email (update_user provider k f db) ≡ some (f user)
unfolding find_provider update_user
find_provider-update email k f db user e same keeps =
    let p = λ (u : User).
      is_visible provider u.org_id
      && (u.email == email && (not (is_some u.org_id) && is_provider_admin u.role)) in
    let q = λ (u : User). is_visible provider u.org_id && nat_eq u.id k in
    let hit : q user ≡ true = ground arith in
    rw
      (first_where-update p q f db.users (λ u. rw ((keeps u).0, (keeps u).1, (keeps u).2))
        {x = user} e)
      (rw hit)

pub provider_account :
    (org : Option Organization) (email : Text) (user : User) (db : Database)
    → account_in none email db ≡ some (org, user)
    → (org ≡ none) × (find_provider email db ≡ some user)
provider_account org email user db e = ground arith

pub member_account :
    (found : Organization) (org : Option Organization) (email : Text) (user : User) (db : Database)
    → account_in (some found) email db ≡ some (org, user)
    → (org ≡ some found) × (find_member found.id email db ≡ some user)
member_account found org email user db e = ground arith

account_in-update :
    (found org : Option Organization) (email : Text) (user : User) (f : User → User) (db : Database)
    → account_in found email db ≡ some (org, user)
    → KeepsName f
    → account_in found email (update_user (org_scope org) user.id f db) ≡ some (org, f user)
account_in-update none org email user f db e keeps =
    let (is, found) = provider_account org email user db e in
    rw is (rw (find_provider-update email user.id f db user found refl keeps, account_in))
account_in-update (some o) org email user f db e keeps =
    let (is, found) = member_account o org email user db e in
    rw is (rw (find_member-update o.id email user.id f db user found refl keeps, account_in))

find_slug-update :
    (slug : Text) (scope : Scope) (k : Uuid) (f : User → User) (db : Database)
    → find_slug slug (update_user scope k f db) ≡ find_slug slug db
unfolding update_user find_slug
find_slug-update slug scope k f db = refl

-- What an account is after an update of its row.
pub account-update :
    (email : Text) (org_slug : Option Text) (org : Option Organization) (user : User)
    (f : User → User) (db : Database)
    → account email org_slug db ≡ some (org, user)
    → KeepsName f
    → account email org_slug (update_user (org_scope org) user.id f db) ≡ some (org, f user)
account-update email org_slug org user f db e keeps = elim (Bool-cases (is_truthy org_slug)) [
  | inr t ↦ rw t (account_in-update none org _ user f db (rw t at e) keeps)
  | inl t ↦ elim (Option-cases (find_slug (normalize (or_empty org_slug)) db)) [
    | inl n ↦ ground arith
    | inr (o, n) ↦
        rw t (
          rw (find_slug-update, n)
            (account_in-update (some o) org _ user f db (ground arith) keeps))
  ]
]

find_slug-eq :
    (slug : Text) (db db' : Database)
    → db'.organizations ≡ db.organizations
    → find_slug slug db' ≡ find_slug slug db
unfolding find_slug
find_slug-eq slug db db' o = rw o

find_member-eq :
    (org_id : Uuid) (email : Text) (db db' : Database)
    → db'.users ≡ db.users
    → find_member org_id email db' ≡ find_member org_id email db
unfolding find_member
find_member-eq org_id email db db' u = rw u

find_provider-eq :
    (email : Text) (db db' : Database)
    → db'.users ≡ db.users
    → find_provider email db' ≡ find_provider email db
unfolding find_provider
find_provider-eq email db db' u = rw u

-- An account is read from the organizations and the users.
pub account-eq :
    (email : Text) (org_slug : Option Text) (db db' : Database)
    → db'.organizations ≡ db.organizations
    → db'.users ≡ db.users
    → account email org_slug db' ≡ account email org_slug db
account-eq email org_slug db db' o u = elim (Bool-cases (is_truthy org_slug)) [
  | inr t ↦ rw t (rw (find_provider-eq (normalize email) db db' u, account_in))
  | inl t ↦ rw t (
      rw (find_slug-eq (normalize (or_empty org_slug)) db db' o)
        (elim (Option-cases (find_slug (normalize (or_empty org_slug)) db)) [
          | inl n ↦ rw n
          | inr (org, n) ↦ rw n (rw (find_member-eq org.id (normalize email) db db' u, account_in))
        ]))
]
