-- ===== src/Identity/ResetLaws.antt =====
-- What a password reset leaves.
use mathlib.Core.Path.{subst}
use mathlib.Core.Option.{some_inj}
use sustentra_platform.Prelude.{
  ◌≡◌, refl, sym, ap, ◌∙◌, Bool, true, false, Option, none, some, List, [], All, arith, is_empty,
}
use sustentra_platform.Prelude.Outcomes.{ok, error}
use sustentra_platform.Text.{Text, ◌==◌}
use sustentra_platform.Identity.Passwords.{
  Hashing, to_hex, hash_password, verify_password, hash_token, validate_password,
}
use sustentra_platform.Identity.Store.{find_version, get_by_id}
use sustentra_platform.Identity.StoreLaws.{find_version-save, find_version-holds, get_by_id-change}
use sustentra_platform.Identity.Records.{
  Time, SessionRecord, ActorType, sustentra_user, client_user, Account, is_deleted_account,
  stored_account, PasswordReset,
}
use sustentra_platform.Identity.State.{
  Repository, identity_error, Call, Found, found_as, actor_record, save_actor, save_as,
  write_own_event, write_event, revoke_actor_sessions, revoke_each, reversed,
}
use sustentra_platform.Identity.Login.{resolve_session}
use sustentra_platform.Identity.Hex.{AreBytes, verify_password-hash}
use sustentra_platform.Identity.Reset.{
  with_password, open_reset, store_password, confirm_password_reset,
}
use sustentra_platform.Identity.Revoked.{IsSession, revoked_stands_for_nobody}

found_as-some :
    (t : ActorType) (o : Option Account) {f : Found}
    → found_as t o ≡ some f
    → (o ≡ some f.account) × (t ≡ f.actor_type)
found_as-some t none {f = f} e = cc
found_as-some t (some a) {f = f} e =
    (ap (λ g. some g.account) (some_inj.0 e), ap (λ g. g.actor_type) (some_inj.0 e))

-- A change of the record of an actor that leaves the id and the status is the record of the actor.
actor_record-save :
    (id : Text) (t : ActorType) (db after : Repository) (f : Found) (g : Account)
    → is_empty id ≡ false
    → actor_record id t db ≡ some f
    → g.id ≡ f.account.id
    → is_deleted_account g ≡ is_deleted_account f.account
    → after.users ≡ (save_actor (record f { account = g }) db).users
    → after.client_users ≡ (save_actor (record f { account = g }) db).client_users
    → actor_record id t after ≡ some (record f { account = g })
unfolding actor_record save_actor
actor_record-save id sustentra_user db after f g full found same alike users client_users =
    let (old, kind) = found_as-some sustentra_user (get_by_id id db.users) {f = f} found in
    let stored = subst (λ t. after.users ≡ (save_as t g db).users) (sym kind) users in
    ap (λ l. found_as sustentra_user (get_by_id id l)) stored
    ∙ (ap (found_as sustentra_user)
          (get_by_id-change id db.users g {a = f.account} full old same alike)
        ∙ ap (λ t. some (record { actor_type = t; account = g })) kind)
actor_record-save id client_user db after f g full found same alike users client_users =
    let (old, kind) = found_as-some client_user (get_by_id id db.client_users) {f = f} found in
    let stored =
      subst (λ t. after.client_users ≡ (save_as t g db).client_users) (sym kind) client_users in
    ap (λ l. found_as client_user (get_by_id id l)) stored
    ∙ (ap (found_as client_user)
          (get_by_id-change id db.client_users g {a = f.account} full old same alike)
        ∙ ap (λ t. some (record { actor_type = t; account = g })) kind)

-- The tables that `_save_actor` leaves.
save_as-others :
    (t : ActorType) (a : Account) (db : Repository)
    → ((save_as t a db).sessions ≡ db.sessions) × ((save_as t a db).resets ≡ db.resets)
save_as-others sustentra_user a db = (refl, refl)
save_as-others client_user a db = (refl, refl)

module _ ⦃hashing : Hashing⦄ where
  opened :
      (o : Option PasswordReset) (now : Time) {r : PasswordReset}
      → open_reset o now ≡ some r
      → o ≡ some r
  opened none now e = e
  opened (some s) now e = ground arith

  -- The request with the token of a reset.
  abbrev of_token : Text → PasswordReset → Bool
  of_token token r = r.token_hash == hash_token token

  spent :
      (call : Call) (now : Time) (token password : Text) (reset : PasswordReset) (f : Found)
      (db : Repository)
      → of_token token reset ≡ true
      → open_reset
          (find_version (of_token token) (store_password call reset f password db).resets)
          now
        ≡ none
  unfolding store_password save_actor write_own_event write_event revoke_actor_sessions
  spent call now token password reset f db own =
      let used : PasswordReset = record reset { used_at = some (call.clock 2) } in
      let resets = (store_password call reset f password db).resets in
      let found : find_version (of_token token) resets ≡ some used =
        find_version-save (of_token token) used _ ∙ rw own refl in
      ap (λ o. open_reset o now) found

  revoked :
      (call : Call) (password : Text) (reset : PasswordReset) (f : Found) (db : Repository)
      → (store_password call reset f password db).sessions
        ≡ (revoke_actor_sessions (call.clock 3) f.account.id db).sessions
  unfolding store_password save_actor write_own_event write_event revoke_actor_sessions
  revoked call password reset f db =
      ap (λ (l : List SessionRecord). revoke_each (call.clock 3) f.account.id (reversed l) [] l)
        (save_as-others f.actor_type (with_password call password f).account db).0

  changed :
      (call : Call) (password : Text) (reset : PasswordReset) (f : Found) (db : Repository)
      → is_empty reset.actor_id ≡ false
      → actor_record reset.actor_id reset.actor_type db ≡ some f
      → actor_record reset.actor_id reset.actor_type (store_password call reset f password db)
        ≡ some (with_password call password f)
  unfolding store_password write_own_event write_event revoke_actor_sessions
  changed call password reset f db full known =
      actor_record-save reset.actor_id reset.actor_type db _ f
        (with_password call password f).account full known refl refl refl refl

  confirmed :
      (call : Call) (token password : Text) (db : Repository) (reset : PasswordReset) (f : Found)
      → validate_password password ≡ some password
      → open_reset (find_version (of_token token) db.resets) (call.clock 0) ≡ some reset
      → actor_record reset.actor_id reset.actor_type db ≡ some f
      → confirm_password_reset call token password db
        ≡ (store_password call reset f password db, ok tt)
  unfolding confirm_password_reset
  confirmed call token password db reset f valid found known =
      rw (valid, confirm_password_reset)
        (rw (found, confirm_password_reset) (rw (known, confirm_password_reset) refl))

  refused :
      (call : Call) (token password : Text) (db : Repository)
      → validate_password password ≡ some password
      → open_reset (find_version (of_token token) db.resets) (call.clock 0) ≡ none
      → confirm_password_reset call token password db ≡ (db, error (identity_error 400))
  unfolding confirm_password_reset
  refused call token password db valid gone =
      rw (valid, confirm_password_reset) (rw (gone, confirm_password_reset) refl)

  -- With a password that is long enough, the token of a reset that is open, and an actor who is there and
  -- whose id is not empty, `confirm_password_reset` succeeds: the actor's record is the old one with the
  -- salt and the hash of the new password, which is verified against them, and with a new time and author
  -- of the update; the token of a session of the actor stands for nobody at any time; and the reset's
  -- token is refused from then on. The id of the session goes with its token and with no other, the
  -- session is the actor's, and the salt and the output of PBKDF2 on it are bytes.
  pub reset_locks_out :
      (call again : Call) (later : Time) (i t token password : Text) (db : Repository)
      (reset : PasswordReset) (f : Found)
      → validate_password password ≡ some password
      → open_reset (find_version (of_token token) db.resets) (call.clock 0) ≡ some reset
      → is_empty reset.actor_id ≡ false
      → actor_record reset.actor_id reset.actor_type db ≡ some f
      → All (IsSession i t f.account.id) db.sessions
      → AreBytes call.salt
      → AreBytes (hashing.pbkdf2 password call.salt)
      → let r = confirm_password_reset call token password db in
        (r.1 ≡ ok tt)
        × (actor_record reset.actor_id reset.actor_type r.0
            ≡ some (record f {
              account = record f.account {
                password_salt = to_hex call.salt;
                password_hash = to_hex (hashing.pbkdf2 password call.salt);
                updated_at = call.clock 1;
                updated_by = f.account.id;
              };
            }))
        × (verify_password password (to_hex call.salt) (to_hex (hashing.pbkdf2 password call.salt))
            ≡ true)
        × (resolve_session t later r.0 ≡ none)
        × (confirm_password_reset again token password r.0 ≡ (r.0, error (identity_error 400)))
  unfolding hash_password
  reset_locks_out call again later i t token password db reset f valid found full known sessions
        salted hashed =
      let fresh =
        opened (find_version (of_token token) db.resets) (call.clock 0) {r = reset} found in
      let own = find_version-holds (of_token token) db.resets {r = reset} fresh in
      let after = store_password call reset f password db in
      let unused = spent call (again.clock 0) token password reset f db own in
      rw (confirmed call token password db reset f valid found known) (
        refl,
        changed call password reset f db full known,
        verify_password-hash call.salt password salted hashed,
        revoked_stands_for_nobody (call.clock 3) later i t f.account.id db after sessions
            (revoked call password reset f db),
        refused again token password after valid unused,
      )
