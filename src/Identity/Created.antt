-- ===== src/Identity/Created.antt =====
-- A user who is created can sign in.
use sustentra_platform.Prelude.{
  ◌+◌, ◌≤◌, ◌<◌, ◌∙◌, ap, ◌≡◌, refl, sym, true, Option, none, some, List, [], ◌∷◌, is_empty, length,
  leb, arith, false,
}
use mathlib.Core.Path.{subst}
use sustentra_platform.Prelude.Outcomes.{Result, ok}
use sustentra_platform.Text.{Text, lit, ◌==◌, eq_refl, strip, casefold, normalize}
use sustentra_platform.Identity.Passwords.{
  to_hex, Hashing, validate_username, validate_password, matches_username, verify_password,
  hash_password,
}
use sustentra_platform.Identity.Store.{save, find_latest}
use sustentra_platform.Identity.StoreLaws.{find_version-save}
use sustentra_platform.Identity.Records.{
  Time, AccountStatus, sustentra_user, Account, UserRole, is_active, is_deleted_account,
  stored_account,
}
use sustentra_platform.Identity.State.{
  Repository, Refusal, Call, Actor, find_login_record, has_login, write_event,
}
use sustentra_platform.Identity.Users.{
  Credentials, check_new_user, validate_credentials, create_sustentra_user, actor_id_or_system,
}
use sustentra_platform.Identity.Login.{
  LoginAnswer, resolve_session, logged_in, issue_session, login_found, login,
}
use sustentra_platform.Identity.Entered.{visited, session_resolves, session_ends}
use sustentra_platform.Identity.Hex.{AreBytes, verify_password-hash}

checked_user :
    (username email password role : Text) (actor : Option Actor) (db : Repository) (c : Credentials)
    (r : UserRole)
    → check_new_user username email password role actor db ≡ ok (c, r)
    → (validate_username username ≡ some c.username)
      × (validate_password password ≡ some c.password)
unfolding check_new_user validate_credentials
checked_user username email password role actor db c r e = ground arith

lowered : (s : Text) → leb 3 (length s) ≡ true → is_empty (casefold s) ≡ false
unfolding casefold
lowered [] long = cc
lowered (c ∷ s) long = refl

matched : (s : Text) → matches_username s ≡ true → leb 3 (length s) ≡ true
unfolding matches_username
matched s e = ground arith

pub username_text :
    (username : Text) (u : Text)
    → validate_username username ≡ some u
    → (normalize username ≡ u) × (matches_username (strip username) ≡ true)
unfolding validate_username normalize
username_text username u e = ground arith

password_text : (password p : Text) → validate_password password ≡ some p → p ≡ password
unfolding validate_password
password_text password p e = ground arith

pub normalize_lem : (s : Text) → normalize s ≡ casefold (strip s)
unfolding normalize
normalize_lem s = refl

module _ ⦃hashing : Hashing⦄ where
  saved_last :
      (needle : Text) (a : Account) (users : List Account)
      → a.username ≡ needle
      → is_deleted_account a ≡ false
      → find_latest (has_login needle) (save a users) ≡ some a
  unfolding find_latest
  saved_last needle a users named kept =
      rw (find_version-save (has_login needle) a users)
        (rw (subst (λ t. (a.username == t) ≡ true) named (eq_refl a.username)) (rw kept refl))

  found_first :
      (name : Text) (a : Account) (users : List Account) (db : Repository)
      → normalize name ≡ a.username
      → is_empty (normalize name) ≡ false
      → is_deleted_account a ≡ false
      → db.users ≡ save a users
      → find_login_record name db ≡ some (record { actor_type = sustentra_user; account = a })
  unfolding find_login_record
  found_first name a users db named full kept stored =
      rw full (rw stored (rw (saved_last (normalize name) a users (sym named) kept) refl))

  signs_in :
      (later : Call) (name password : Text) (a : Account) (db : Repository)
      → find_login_record name db ≡ some (record { actor_type = sustentra_user; account = a })
      → is_active a.status ≡ true
      → verify_password password a.password_salt a.password_hash ≡ true
      → a.mfa_enabled ≡ false
      → login later name password db
        ≡ issue_session later 0 (record { actor_type = sustentra_user; account = a }) db
  unfolding login login_found
  signs_in later name password a db found active right plain =
      rw (found, login)
        (rw (active, login_found) (rw (right, login_found) (rw (plain, login_found) refl)))

  -- The account that is to be made.
  abbrev pub made_account : Call → Text → UserRole → Credentials → Account
  made_account call by r c = record {
    id = call.new_id (lit "usr");
    role = some r;
    client_id = none;
    username = c.username;
    email = c.email;
    password_salt = to_hex call.salt;
    password_hash = to_hex (hashing.pbkdf2 c.password call.salt);
    status = AccountStatus.active;
    mfa_enabled = false;
    mfa_secret = none;
    mfa_recovery_hashes = [];
    created_at = call.clock 0;
    created_by = by;
    updated_at = call.clock 0;
    updated_by = by;
    last_login_at = none;
  }

  -- Where the checks of `create_sustentra_user` pass, the account is made, active and without a second
  -- factor, and the name and the password that it was made with then log in: the token that is answered
  -- stands for the new account up to eight hours after the login, and for nobody after that. The salt and
  -- the output of PBKDF2 on it are bytes, and the id of the account and the token are not empty.
  pub created_signs_in :
      (call later : Call) (username email password role : Text) (actor : Option Actor)
      (db : Repository) (c : Credentials) (r : UserRole) (soon late : Time)
      → check_new_user username email password role actor db ≡ ok (c, r)
      → AreBytes call.salt
      → AreBytes (hashing.pbkdf2 password call.salt)
      → is_empty (call.new_id (lit "usr")) ≡ false
      → is_empty later.new_token ≡ false
      → soon ≤ later.clock 0 + 28800000000
      → later.clock 0 + 28800000000 < late
      → let made = made_account call (actor_id_or_system actor) r c in
        let created = create_sustentra_user call username email password role actor db in
        let entered = login later username password created.0 in
        (created.1 ≡ ok made)
        × (entered.1
            ≡ ok (
                logged_in later.new_token
                  (later.clock 0 + 28800000000)
                  (record { actor_type = sustentra_user; account = visited (later.clock 0) made })))
        × (resolve_session later.new_token soon entered.0
            ≡ some (record { actor_id = made.id; actor_type = sustentra_user; client_id = none }))
        × (resolve_session later.new_token late entered.0 ≡ none)
  unfolding create_sustentra_user write_event hash_password issue_session
  created_signs_in call later username email password role actor db c r soon late checked salted
        hashed given token early over =
      let (named, kept) = checked_user username email password role actor db c r checked in
      let (normal, long) = username_text username c.username named in
      let full =
        subst (λ t. is_empty t ≡ false) (sym (normalize_lem username))
          (lowered (strip username) (matched (strip username) long)) in
      let made = made_account call (actor_id_or_system actor) r c in
      let right =
        subst
          (λ p.
            verify_password password (hash_password call.salt p).0 (hash_password call.salt p).1
            ≡ true)
          (sym (password_text password c.password kept))
          (verify_password-hash call.salt password salted hashed) in
      let state = (create_sustentra_user call username email password role actor db).0 in
      let users : state.users ≡ save made db.users = rw (checked, create_sustentra_user) refl in
      let enters =
        signs_in later username password made state
          (found_first username made db.users state normal full refl users) refl right refl in
      (
        rw (checked, create_sustentra_user) refl,
        ap (λ (r : Repository × Result Refusal LoginAnswer). r.1) enters,
        ap
              (λ (r : Repository × Result Refusal LoginAnswer).
                resolve_session later.new_token soon r.0)
              enters
            ∙ session_resolves later made state soon token given refl refl early,
        ap
              (λ (r : Repository × Result Refusal LoginAnswer).
                resolve_session later.new_token late r.0)
              enters
            ∙ session_ends later made state late token over,
      )
