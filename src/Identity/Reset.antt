-- ===== src/Identity/Reset.antt =====
-- `request_password_reset` and `confirm_password_reset` of backend/app/services/identity_service.py.
use sustentra_platform.Prelude.{◌+◌, ◌||◌, Option, none, some, ltb, is_some, if◌then◌else◌}
use sustentra_platform.Prelude.Outcomes.{Result, ok, error}
use sustentra_platform.Text.{Text, lit, ◌==◌}
use sustentra_platform.Auth.Database.{minutes}
use sustentra_platform.Identity.Passwords.{
  Hashing, hash_password, hash_token, validate_email, validate_password,
}
use sustentra_platform.Identity.Store.{save, find_version}
use sustentra_platform.Identity.Records.{Time, PasswordReset, is_active}
use sustentra_platform.Identity.State.{
  Repository, Refusal, invalid_value, identity_error, Call, Found, write_own_event,
  find_login_record, actor_record, save_actor, revoke_actor_sessions,
}

abbrev pub reset_time : Time
reset_time = minutes 30

module _ ⦃hashing : Hashing⦄ where
  abbrev pub new_reset : Call → Found → PasswordReset
  new_reset call f = record {
    reset_id = call.new_id (lit "rst");
    actor_id = f.account.id;
    actor_type = f.actor_type;
    token_hash = hash_token call.new_token;
    created_at = call.clock 0;
    expires_at = call.clock 0 + reset_time;
    used_at = none;
  }

  abbrev pub reset_for : Call → Option Found → Repository → Repository × Option Text
  reset_for call none db = (db, none)
  reset_for call (some f) db =
      if is_active f.account.status
      then (
        write_own_event call 1 f (lit "auth.password_reset_requested")
            (record db { resets = save (new_reset call f) db.resets }),
        some call.new_token,
      )
      else (db, none)

  -- `request_password_reset`, with the token that a development answer shows
  unfoldable pub request_password_reset :
      Call → Text → Repository → Repository × Result Refusal (Option Text)
  request_password_reset call email db = elim (validate_email email) [
    | none ↦ (db, error invalid_value)
    | some e ↦ let r = reset_for call (find_login_record e db) db in (r.0, ok r.1)
  ]

  -- `reset is None or reset.get("used_at")`, and the test of the time
  abbrev pub open_reset : Option PasswordReset → Time → Option PasswordReset
  open_reset none now = none
  open_reset (some r) now = if is_some r.used_at || ltb r.expires_at now then none else some r

  abbrev pub with_password : Call → Text → Found → Found
  with_password call password f =
      let hashed = hash_password call.salt password in
      record f {
        account = record f.account {
          password_salt = hashed.0;
          password_hash = hashed.1;
          updated_at = call.clock 1;
          updated_by = f.account.id;
        };
      }

  -- From "salt, hashed = hash_password(new_password)" on.
  unfoldable pub store_password : Call → PasswordReset → Found → Text → Repository → Repository
  store_password call reset f password db =
      let changed = save_actor (with_password call password f) db in
      let used = record changed {
        resets = save (record reset { used_at = some (call.clock 2) }) changed.resets;
      } in
      write_own_event call 4 f (lit "auth.password_reset_completed")
        (revoke_actor_sessions (call.clock 3) f.account.id used)

  -- `confirm_password_reset`
  unfoldable pub confirm_password_reset :
      Call → Text → Text → Repository → Repository × Result Refusal (Unit {0})
  confirm_password_reset call token new_password db = elim (validate_password new_password) [
    | none ↦ (db, error invalid_value)
    | some password ↦
        elim (open_reset (find_version (λ r. r.token_hash == hash_token token) db.resets)
          (call.clock 0)) [
            | none ↦ (db, error (identity_error 400))
            | some reset ↦ elim (actor_record reset.actor_id reset.actor_type db) [
              | none ↦ (db, error (identity_error 400))
              | some f ↦ (store_password call reset f password db, ok tt)
            ]
          ]
  ]
