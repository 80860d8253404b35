-- ===== src/Identity/ClientUsers.antt =====
-- The operations of backend/app/services/identity_service.py on the users of a client.
use sustentra_platform.Prelude.{ℕ, Bool, true, false, Option, none, some, if◌then◌else◌}
use sustentra_platform.Prelude.Outcomes.{Result, ok, error, ◌>>=◌, ◌>>◌}
use sustentra_platform.Text.{Text, lit, ◌==◌}
use sustentra_platform.Identity.Passwords.{
  Hashing, hash_password, validate_email, validate_password,
}
use sustentra_platform.Identity.Store.{save, get_by_id}
use sustentra_platform.Identity.Records.{
  Account, AccountStatus, Client, ClientStatus, stored_account, stored_client,
}
use sustentra_platform.Identity.State.{
  Repository, Refusal, invalid_value, identity_error, Call, Actor, write_event,
  require_unique_login, require_sustentra_user, revoke_actor_sessions,
}
use sustentra_platform.Identity.Users.{checked, Credentials, validate_credentials, new_account}

-- `client is None or client.get("status") == "inactive"`
abbrev pub served_client : Option Client → Option Client
served_client none = none
served_client (some c) = elim c.status [
  | ClientStatus.active ↦ some c
  | ClientStatus.inactive ↦ none
  | ClientStatus.deleted ↦ some c
]

-- The checks of `create_client_user`.
unfoldable pub check_new_client_user :
    Text → Text → Text → Text → Actor → Repository → Result Refusal Credentials
check_new_client_user client_id username email password actor db =
    require_sustentra_user (some actor)
    >> (checked (served_client (get_by_id client_id db.clients)) (identity_error 404) >>= λ _.
        validate_credentials username email password >>= λ c.
        require_unique_login c.username c.email none db >> ok c)

-- `_audit` of an administrator
abbrev pub write_admin_event : Call → ℕ → Actor → Text → Text → Text → Repository → Repository
write_admin_event call reading actor action entity_type entity_id db =
    write_event call reading actor.actor_id (some actor.actor_type) action entity_type entity_id db

-- `create_client_user`
unfoldable pub create_client_user :
    ⦃hashing : Hashing⦄
    → Call
    → Text
    → Text
    → Text
    → Text
    → Actor
    → Repository
    → Repository × Result Refusal Account
create_client_user call client_id username email password actor db =
    elim (check_new_client_user client_id username email password actor db) [
      | error e ↦ (db, error e)
      | ok c ↦
          let made =
            new_account call (call.new_id (lit "cu")) none (some client_id) actor.actor_id c in
          (
            write_admin_event call 1 actor (lit "client_user.create") (lit "client_user") made.id
                (record db { client_users = save made db.client_users }),
            ok made,
          )
    ]

-- `record is None or record.get("client_id") != client_id`
abbrev pub of_client : Text → Option Account → Option Account
of_client client_id none = none
of_client client_id (some a) = elim a.client_id [
  | none ↦ none
  | some c ↦ if c == client_id then some a else none
]

-- The record of a client's user, for an administrator.
unfoldable pub find_client_user : Text → Text → Actor → Repository → Result Refusal Account
find_client_user client_id client_user_id actor db =
    require_sustentra_user (some actor)
    >> checked (of_client client_id (get_by_id client_user_id db.client_users)) (identity_error 404)

-- `status not in {"active", "disabled"}`
abbrev pub read_status : Text → Option AccountStatus
read_status s =
    if s == lit "active"
    then some AccountStatus.active
    else if s == lit "disabled"
    then some AccountStatus.disabled
    else none

-- `if email is not None: …` of `update_client_user`
unfoldable pub change_email : Text → Option Text → Account → Repository → Result Refusal Account
change_email client_user_id none a db = ok a
change_email client_user_id (some email) a db =
    checked (validate_email email) invalid_value >>= λ e.
    require_unique_login a.username e (some client_user_id) db >> ok (record a { email = e })

abbrev pub revoke_if : Bool → Call → Text → Repository → Repository
revoke_if true call id db = revoke_actor_sessions (call.clock 0) id db
revoke_if false call id db = db

abbrev pub is_disabled : AccountStatus → Bool
is_disabled AccountStatus.active = false
is_disabled AccountStatus.disabled = true
is_disabled AccountStatus.deleted = false

-- `if status is not None: …`; sessions are revoked before the password is looked at.
unfoldable pub change_status :
    Call → Text → Option Text → Account → Repository → Repository × Result Refusal Account
change_status call id none a db = (db, ok a)
change_status call id (some status) a db = elim (read_status status) [
  | none ↦ (db, error (identity_error 400))
  | some s ↦ (revoke_if (is_disabled s) call id db, ok (record a { status = s }))
]

-- `if password is not None: …`
unfoldable pub change_password :
    ⦃hashing : Hashing⦄
    → Call
    → Text
    → Option Text
    → Account
    → Repository
    → Repository × Result Refusal Account
change_password call id none a db = (db, ok a)
change_password call id (some password) a db = elim (validate_password password) [
  | none ↦ (db, error invalid_value)
  | some p ↦
      let hashed = hash_password call.salt p in
      (
        revoke_actor_sessions (call.clock 1) id db,
        ok (record a { password_salt = hashed.0; password_hash = hashed.1 }),
      )
]

-- Goes on with the value and the state of a call that did not raise.
abbrev pub then_with :
    {A B : Type 0}
    → Repository × Result Refusal A
    → (A → Repository → Repository × Result Refusal B)
    → Repository × Result Refusal B
then_with (db, error e) next = (db, error e)
then_with (db, ok a) next = next a db

-- The record is stored with its new time and author.
unfoldable pub store_client_user :
    Call → Actor → Text → Account → Repository → Repository × Result Refusal Account
store_client_user call actor action a db =
    let stored = record a { updated_at = call.clock 2; updated_by = actor.actor_id } in
    (
      write_admin_event call 3 actor action (lit "client_user") a.id
          (record db { client_users = save stored db.client_users }),
      ok stored,
    )

-- `update_client_user`
unfoldable pub update_client_user :
    ⦃hashing : Hashing⦄
    → Call
    → Text
    → Text
    → Actor
    → Option Text
    → Option Text
    → Option Text
    → Repository
    → Repository × Result Refusal Account
update_client_user call client_id id actor email status password db =
    elim (find_client_user client_id id actor db >>= λ a. change_email id email a db) [
      | error e ↦ (db, error e)
      | ok a ↦ then_with (change_status call id status a db) (λ b db'.
          then_with (change_password call id password b db')
            (λ c db''. store_client_user call actor (lit "client_user.update") c db''))
    ]

-- `delete_client_user`
unfoldable pub delete_client_user :
    Call → Text → Text → Actor → Repository → Repository × Result Refusal (Unit {0})
delete_client_user call client_id id actor db = elim (find_client_user client_id id actor db) [
  | error e ↦ (db, error e)
  | ok a ↦
      let gone = record a {
        status = AccountStatus.deleted;
        updated_at = call.clock 0;
        updated_by = actor.actor_id;
      } in
      (
        write_admin_event call 2 actor (lit "client_user.delete") (lit "client_user") id (
            revoke_actor_sessions (call.clock 1) id
              (record db { client_users = save gone db.client_users })),
        ok tt,
      )
]
