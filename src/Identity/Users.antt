-- ===== src/Identity/Users.antt =====
-- The operations of backend/app/services/identity_service.py on Sustentra users. A call
-- that raises has the state that is left beside its error.
use sustentra_platform.Prelude.{false, Option, none, some, List, [], if◌then◌else◌}
use sustentra_platform.Prelude.Outcomes.{Result, ok, error, ◌>>=◌, ◌>>◌}
use sustentra_platform.Text.{Text, lit, ◌==◌}
use sustentra_platform.Identity.Passwords.{
  Hashing, hash_password, validate_username, validate_email, validate_password,
}
use sustentra_platform.Identity.Store.{save, get_by_id, list_active}
use sustentra_platform.Identity.Records.{
  Account, AccountStatus, UserRole, admin, operator, stored_account, stored_client,
}
use sustentra_platform.Identity.State.{
  Repository, Refusal, invalid_value, identity_error, Call, Actor, write_event,
  require_unique_login, require_sustentra_user, bootstrap_required,
}

-- The value of a validator.
abbrev pub checked : {A : Type 0} → Option A → Refusal → Result Refusal A
checked none e = error e
checked (some a) e = ok a

abbrev pub read_role : Text → Option UserRole
read_role s =
    if s == lit "admin" then some admin else if s == lit "operator" then some operator else none

-- The name, the email and the password of a new account.
pub record Credentials : Type 0 where
  pub username : Text
  pub email : Text
  pub password : Text

-- The three validators in their order.
unfoldable pub validate_credentials : Text → Text → Text → Result Refusal Credentials
validate_credentials username email password =
    checked (validate_username username) invalid_value >>= λ u.
    checked (validate_email email) invalid_value >>= λ e.
    checked (validate_password password) invalid_value >>= λ p.
    ok (record { username = u; email = e; password = p })

abbrev pub actor_id_or_system : Option Actor → Text
actor_id_or_system none = lit "system"
actor_id_or_system (some actor) = if actor.actor_id == [] then lit "system" else actor.actor_id

-- A new account of either kind.
abbrev pub new_account :
    ⦃hashing : Hashing⦄ → Call → Text → Option UserRole → Option Text → Text → Credentials → Account
new_account call id role client_id by c =
    let hashed = hash_password call.salt c.password in
    record {
      id = id;
      role = role;
      client_id = client_id;
      username = c.username;
      email = c.email;
      password_salt = hashed.0;
      password_hash = hashed.1;
      status = AccountStatus.active;
      mfa_enabled = false;
      mfa_secret = none;
      mfa_recovery_hashes = [];
      created_at = call.clock 0;
      created_by = by;
      updated_at = call.clock 0;
      updated_by = by;
      last_login_at = none;
    }

-- The checks of `create_sustentra_user`: the credentials and the role, "admin" for the first user.
unfoldable pub check_new_user :
    Text → Text → Text → Text → Option Actor → Repository → Result Refusal (Credentials × UserRole)
check_new_user username email password role actor db =
    (if bootstrap_required db then ok tt else require_sustentra_user actor)
    >> (validate_credentials username email password >>= λ c.
        checked (read_role role) (identity_error 400) >>= λ r.
        require_unique_login c.username c.email none db
        >> ok (c, if bootstrap_required db then admin else r))

-- `create_sustentra_user`
unfoldable pub create_sustentra_user :
    ⦃hashing : Hashing⦄
    → Call
    → Text
    → Text
    → Text
    → Text
    → Option Actor
    → Repository
    → Repository × Result Refusal Account
create_sustentra_user call username email password role actor db =
    elim (check_new_user username email password role actor db) [
      | error e ↦ (db, error e)
      | ok (c, r) ↦
          let made =
            new_account call (call.new_id (lit "usr")) (some r) none (actor_id_or_system actor) c in
          (
            write_event call 1 (actor_id_or_system actor)
                (elim actor [ none ↦ none | some a ↦ some a.actor_type ]) (lit "user.create")
                (lit "sustentra_user") made.id (record db { users = save made db.users }),
            ok made,
          )
    ]

-- `list_sustentra_users`, with the secret fields
unfoldable pub list_sustentra_users : Actor → Repository → Result Refusal (List Account)
list_sustentra_users actor db = require_sustentra_user (some actor) >> ok (list_active db.users)

-- `get_sustentra_user`, with the secret fields
unfoldable pub get_sustentra_user : Text → Actor → Repository → Result Refusal Account
get_sustentra_user user_id actor db =
    require_sustentra_user (some actor) >> checked (get_by_id user_id db.users) (identity_error 404)
