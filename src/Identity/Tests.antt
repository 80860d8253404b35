-- ===== src/Identity/Tests.antt =====
-- Runs of the identity service on small states.
use sustentra_platform.Prelude.{
  ◌⊎◌, ◌≡◌, ◌≤◌, refl, true, false, none, some, [], ◌∷◌, All, all, arith,
}
use sustentra_platform.Prelude.Outcomes.{ok, error}
use sustentra_platform.Text.{Text, lit, ◌==◌, normalize, strip, drop_space, is_space, casefold}
use sustentra_platform.Identity.Passwords.{
  verify_password, to_hex, is_username_char, validate_username, hash_token, matches_username,
  validate_email, matches_email, matches_address, matches_dotted, validate_password,
}
use sustentra_platform.Dict.{get, put}
use sustentra_platform.Identity.Store.{
  find_latest, find_version, last_version, list_active, latest_by_id, index_versions, save,
  get_by_id,
}
use sustentra_platform.Identity.StoreLaws.{get_by_id-save, update}
use sustentra_platform.Identity.Records.{
  sustentra_user, Account, AccountStatus, admin, stored_account,
}
use sustentra_platform.Identity.State.{
  identity_error, actor_record, require_unique_login, bootstrap_required, find_login_record,
  has_login,
}
use sustentra_platform.Identity.Users.{
  check_new_user, validate_credentials, create_sustentra_user, list_sustentra_users,
  get_sustentra_user,
}
use sustentra_platform.Identity.ClientUsers.{
  find_client_user, change_email, change_status, change_password, store_client_user,
  create_client_user, update_client_user, delete_client_user,
}
use sustentra_platform.Identity.Clients.{create_client, delete_client}
use sustentra_platform.Identity.ClientChanges.{ClientChange, update_client}
use sustentra_platform.Identity.Mfa.{list_audit_events}
use sustentra_platform.Identity.Login.{logged_in, login, resolve_session}
use sustentra_platform.Identity.Reset.{open_reset, confirm_password_reset}
use sustentra_platform.Identity.Revoked.{IsSession}
use sustentra_platform.Identity.Hex.{AreBytes}
use sustentra_platform.Identity.Created.{made_account, created_signs_in}
use sustentra_platform.Identity.Entered.{visited}
use sustentra_platform.Identity.Guards.{IsForbidden, admin_only, never_taken, username_bounds}
use sustentra_platform.Identity.Stale.{old_email_signs_in}
use sustentra_platform.Identity.ResetLaws.{reset_locks_out}
use sustentra_platform.Identity.Samples.{
  toy_hashing, password, call_at, empty_db, ann_credentials, ann, cal, reset, sample_db, ann_actor,
  cal_actor,
}

salt-AreBytes : AreBytes (call_at 1000).salt
salt-AreBytes = (omega arith, (omega arith, tt))

hash-AreBytes : AreBytes (toy_hashing.pbkdf2 password (call_at 1000).salt)
hash-AreBytes = (
  omega arith,
  (
    omega arith,
    (
      omega arith,
      (
        omega arith,
        (
          omega arith,
          (omega arith, (omega arith, (omega arith, (omega arith, (omega arith, tt))))),
        ),
      ),
    ),
  ),
)

get_by_id-save_example :
    (λ k. get_by_id k (save cal (ann ∷ [])))
    ≡ update (λ k. get_by_id k (ann ∷ [])) (lit "cu_1") (some cal)
get_by_id-save_example = get_by_id-save cal (ann ∷ []) refl

ann_checked :
    check_new_user (lit " Ann ") (lit "ann@x.org") password (lit "admin") none empty_db
    ≡ ok (ann_credentials, admin)
unfolding check_new_user bootstrap_required list_active latest_by_id index_versions
    validate_credentials validate_username matches_username strip drop_space is_space casefold
    normalize validate_email matches_email matches_address matches_dotted validate_password ◌==◌
    require_unique_login find_login_record find_latest find_version last_version
ann_checked = refl

created_signs_in_example :
    let created =
      create_sustentra_user
        (call_at 1000)
        (lit " Ann ")
        (lit "ann@x.org")
        password
        (lit "admin")
        none
        empty_db in
    let entered = login (call_at 2000) (lit " Ann ") password created.0 in
    (created.1 ≡ ok (made_account (call_at 1000) (lit "system") admin ann_credentials))
    × (entered.1
        ≡ ok (
            logged_in (lit "token") 28800002000 (record {
              actor_type = sustentra_user;
              account =
                  visited 2000 (made_account (call_at 1000) (lit "system") admin ann_credentials);
            })))
    × (resolve_session (lit "token") 28800002000 entered.0 ≡ some ann_actor)
    × (resolve_session (lit "token") 28800002001 entered.0 ≡ none)
created_signs_in_example =
    created_signs_in (call_at 1000) (call_at 2000) (lit " Ann ") (lit "ann@x.org") password
      (lit "admin") none empty_db ann_credentials admin 28800002000 28800002001 ann_checked
      salt-AreBytes hash-AreBytes refl refl (omega arith) (omega arith)

ann_found :
    actor_record (lit "usr_1") sustentra_user sample_db
    ≡ some (record { actor_type = sustentra_user; account = ann })
unfolding actor_record get_by_id latest_by_id index_versions get put ◌==◌
ann_found = refl

ann_reset :
    open_reset
      (find_version (λ r. r.token_hash == hash_token (lit "r1")) sample_db.resets)
      ((call_at 3000).clock 0)
    ≡ some reset
unfolding find_version last_version hash_token ◌==◌
ann_reset = refl

ann-IsSession : All (IsSession (lit "ses_1") (lit "t1") (lit "usr_1")) sample_db.sessions
unfolding ◌==◌
ann-IsSession = ((refl, λ same. refl), tt)

abbrev new_password : Text
new_password = lit "passphrase"

new_password-valid : validate_password new_password ≡ some new_password
unfolding validate_password
new_password-valid = refl

new_hash-AreBytes : AreBytes (toy_hashing.pbkdf2 new_password (call_at 3000).salt)
new_hash-AreBytes = (
  omega arith,
  (
    omega arith,
    (
      omega arith,
      (
        omega arith,
        (
          omega arith,
          (
            omega arith,
            (
              omega arith,
              (omega arith, (omega arith, (omega arith, (omega arith, (omega arith, tt))))),
            ),
          ),
        ),
      ),
    ),
  ),
)

reset_locks_out_example :
    let r = confirm_password_reset (call_at 3000) (lit "r1") new_password sample_db in
    (r.1 ≡ ok tt)
    × (actor_record (lit "usr_1") sustentra_user r.0
        ≡ some (record {
          actor_type = sustentra_user;
          account = record ann {
            password_salt = lit "07ff";
            password_hash = lit "07ff70617373706872617365";
            updated_at = 3001;
            updated_by = lit "usr_1";
          };
        }))
    × (verify_password new_password (lit "07ff") (lit "07ff70617373706872617365") ≡ true)
    × (resolve_session (lit "t1") 3010 r.0 ≡ none)
    × (confirm_password_reset (call_at 3020) (lit "r1") new_password r.0
        ≡ (r.0, error (identity_error 400)))
unfolding to_hex
reset_locks_out_example =
    reset_locks_out (call_at 3000) (call_at 3020) 3010 (lit "ses_1") (lit "t1") (lit "r1")
      new_password sample_db reset (record { actor_type = sustentra_user; account = ann })
      new_password-valid ann_reset refl ann_found ann-IsSession salt-AreBytes new_hash-AreBytes

abbrev no_change : ClientChange
no_change = record { name = none; code = none; contact_email = none; notes = none; status = none }

admin_only_example :
    ((bootstrap_required sample_db ≡ true)
      ⊎ IsForbidden sample_db (
          create_sustentra_user
            (call_at 0)
            (lit "dan")
            (lit "d@x.org")
            password
            (lit "admin")
            (some cal_actor)
            sample_db))
    × IsForbidden sample_db (
        create_client_user
          (call_at 0)
          (lit "cli_1")
          (lit "dan")
          (lit "d@x.org")
          password
          cal_actor
          sample_db)
    × IsForbidden sample_db (
        update_client_user
          (call_at 0)
          (lit "cli_1")
          (lit "cu_1")
          cal_actor
          none
          none
          none
          sample_db)
    × IsForbidden sample_db
        (delete_client_user (call_at 0) (lit "cli_1") (lit "cu_1") cal_actor sample_db)
    × IsForbidden sample_db
        (create_client (call_at 0) none (lit "c2") none none cal_actor sample_db)
    × IsForbidden sample_db (update_client (call_at 0) (lit "cli_1") cal_actor no_change sample_db)
    × IsForbidden sample_db (delete_client (call_at 0) (lit "cli_1") cal_actor sample_db)
    × (list_sustentra_users cal_actor sample_db ≡ error (identity_error 403))
    × (get_sustentra_user (lit "cu_1") cal_actor sample_db ≡ error (identity_error 403))
    × (list_audit_events cal_actor none none 5 sample_db ≡ error (identity_error 403))
admin_only_example =
    admin_only (call_at 0) cal_actor sample_db (lit "cli_1") (lit "cu_1") (lit "dan")
      (lit "d@x.org") password (lit "admin") (lit "c2") none none none none none none none none
      no_change 5 refl

never_taken_example : require_unique_login (lit "ann") (lit "ann@x.org") none sample_db ≡ ok tt
never_taken_example = never_taken (lit "ann") (lit "ann@x.org") sample_db

ann_name : validate_username (lit " Ann ") ≡ some (lit "ann")
unfolding validate_username matches_username strip drop_space is_space casefold
ann_name = refl

username_bounds_example :
    (lit "ann" ≡ normalize (lit " Ann "))
    × (3 ≤ 3)
    × (3 ≤ 64)
    × (all is_username_char (lit "ann") ≡ true)
username_bounds_example = username_bounds (lit " Ann ") {u = lit "ann"} ann_name

abbrev cal_moved : Account
cal_moved = record cal {
  email = lit "cal@y.org";
  status = AccountStatus.disabled;
  updated_at = 3002;
  updated_by = lit "usr_1";
}

cal_update :
    (update_client_user
      (call_at 3000)
      (lit "cli_1")
      (lit "cu_1")
      ann_actor
      (some (lit "cal@y.org"))
      (some (lit "disabled"))
      none
      sample_db).1
    ≡ ok cal_moved
unfolding update_client_user find_client_user get_by_id latest_by_id index_versions get put
    change_email validate_email matches_email matches_address matches_dotted strip drop_space
    is_space casefold normalize require_unique_login find_login_record find_latest find_version
    last_version change_status change_password store_client_user ◌==◌
cal_update = refl

cal_renamed : has_login (normalize (lit "cal@x.org")) cal_moved ≡ false
unfolding normalize casefold strip drop_space is_space ◌==◌
cal_renamed = refl

old_email_signs_in_example :
    let after =
      (update_client_user
        (call_at 3000)
        (lit "cli_1")
        (lit "cu_1")
        ann_actor
        (some (lit "cal@y.org"))
        (some (lit "disabled"))
        none
        sample_db).0 in
    (login (call_at 4000) (lit "cal@x.org") password after).1
    ≡ (login (call_at 4000) (lit "cal@x.org") password sample_db).1
old_email_signs_in_example =
    old_email_signs_in (call_at 3000) (call_at 4000) (lit "cli_1") (lit "cu_1") ann_actor
      (some (lit "cal@y.org")) (some (lit "disabled")) none (lit "cal@x.org") password sample_db
      {s = cal_moved} cal_update cal_renamed
