-- ===== src/Identity/Clients.antt =====
-- The operations of backend/app/services/identity_service.py on clients, and the lists that an actor
-- sees.
use sustentra_platform.Prelude.{
  Bool, false, not, Option, none, some, List, [], ◌∷◌, filter, is_empty, is_some, if◌then◌else◌,
}
use sustentra_platform.Prelude.Outcomes.{Result, ok, error, require, ◌>>=◌, ◌>>◌}
use sustentra_platform.Text.{Text, lit, ◌==◌, strip, or_empty}
use sustentra_platform.Identity.Passwords.{validate_email, validate_client_code}
use sustentra_platform.Identity.Store.{save, find_latest, get_by_id, list_active}
use sustentra_platform.Identity.Records.{
  sustentra_user, client_user, Account, AccountStatus, Client, ClientStatus, stored_account,
  stored_client,
}
use sustentra_platform.Identity.State.{
  Repository, Refusal, invalid_value, identity_error, Call, Actor, require_sustentra_user,
  revoke_actor_sessions,
}
use sustentra_platform.Identity.Users.{checked}
use sustentra_platform.Identity.ClientUsers.{write_admin_event}

-- `value.strip() or None`
abbrev pub strip_or_none : Option Text → Option Text
strip_or_none none = none
strip_or_none (some s) = if is_empty (strip s) then none else some (strip s)

-- `(name or "").strip()`, which must not be empty
unfoldable pub client_name : Option Text → Result Refusal Text
client_name name =
    require (not (is_empty (strip (or_empty name)))) (identity_error 400)
    >> ok (strip (or_empty name))

-- `validate_email(contact_email) if contact_email else None`
unfoldable pub contact : Option Text → Result Refusal (Option Text)
contact none = ok none
contact (some email) =
    if is_empty email
    then ok none
    else checked (validate_email email) invalid_value >>= λ e. ok (some e)

-- The name, the code and the contact of a new client.
pub record ClientEntry : Type 0 where
  pub name : Text
  pub code : Text
  pub contact_email : Option Text

-- The checks of `create_client`.
unfoldable pub check_new_client :
    Option Text → Text → Option Text → Actor → Repository → Result Refusal ClientEntry
check_new_client name code contact_email actor db =
    require_sustentra_user (some actor)
    >> (client_name name >>= λ n. checked (validate_client_code code) invalid_value >>= λ c.
        contact contact_email >>= λ m.
        require (not (is_some (find_latest (λ r. r.code == c) db.clients))) (identity_error 409)
        >> ok (record { name = n; code = c; contact_email = m }))

-- The record of a new client.
abbrev pub new_client : Call → ClientEntry → Option Text → Actor → Client
new_client call entry notes actor = record {
  client_id = call.new_id (lit "cli");
  name = entry.name;
  code = entry.code;
  contact_email = entry.contact_email;
  notes = strip_or_none notes;
  status = ClientStatus.active;
  created_at = call.clock 0;
  created_by = actor.actor_id;
  updated_at = call.clock 0;
  updated_by = actor.actor_id;
}

-- `create_client`
unfoldable pub create_client :
    Call
    → Option Text
    → Text
    → Option Text
    → Option Text
    → Actor
    → Repository
    → Repository × Result Refusal Client
create_client call name code contact_email notes actor db =
    elim (check_new_client name code contact_email actor db) [
      | error e ↦ (db, error e)
      | ok entry ↦
          let made = new_client call entry notes actor in
          (
            write_admin_event call 1 actor (lit "client.create") (lit "client") made.client_id
                (record db { clients = save made db.clients }),
            ok made,
          )
    ]

-- `list_clients`; a client's user has the key `client_id`.
unfoldable pub list_clients : Actor → Repository → Result Refusal (List Client)
list_clients actor db = elim actor.actor_type [
  | client_user ↦ elim (get_by_id (or_empty actor.client_id) db.clients) [
    | none ↦ ok []
    | some c ↦ ok (c ∷ [])
  ]
  | sustentra_user ↦ ok (list_active db.clients)
]

-- The client is the actor's own.
abbrev pub is_own_client : Text → Option Text → Bool
is_own_client client_id none = false
is_own_client client_id (some c) = c == client_id

-- `get_client`
unfoldable pub get_client : Text → Actor → Repository → Result Refusal Client
get_client client_id actor db =
    checked (get_by_id client_id db.clients) (identity_error 404) >>= λ c.
    (elim actor.actor_type [
      | client_user ↦ require (is_own_client client_id actor.client_id) (identity_error 403)
      | sustentra_user ↦ ok tt
    ])
    >> ok c

-- One turn of the loop of `delete_client`, for a user of the client.
abbrev pub delete_with_client : Call → Text → Actor → Account → Repository → Repository
delete_with_client call client_id actor a db =
    if is_own_client client_id a.client_id
    then revoke_actor_sessions (call.clock 2) a.id (record db {
      client_users =
          save
            (record a {
              status = AccountStatus.deleted;
              updated_at = call.clock 1;
              updated_by = actor.actor_id;
            })
            db.client_users;
    })
    else db

unfoldable pub delete_all : Call → Text → Actor → List Account → Repository → Repository
delete_all call client_id actor [] db = db
delete_all call client_id actor (a ∷ rest) db =
    delete_all call client_id actor rest (delete_with_client call client_id actor a db)

-- `delete_client`
unfoldable pub delete_client :
    Call → Text → Actor → Repository → Repository × Result Refusal (Unit {0})
delete_client call client_id actor db =
    elim (require_sustentra_user (some actor)
      >> checked (get_by_id client_id db.clients) (identity_error 404)) [
        | error e ↦ (db, error e)
        | ok c ↦
            let gone = record c {
              status = ClientStatus.deleted;
              updated_at = call.clock 0;
              updated_by = actor.actor_id;
            } in
            let marked = record db { clients = save gone db.clients } in
            (
              write_admin_event call 3 actor (lit "client.delete") (lit "client") client_id
                  (delete_all call client_id actor (list_active marked.client_users) marked),
              ok tt,
            )
      ]

-- `list_client_users`, with the secret fields
unfoldable pub list_client_users : Text → Actor → Repository → Result Refusal (List Account)
list_client_users client_id actor db = get_client client_id actor db >>= λ _.
    elim actor.actor_type [
      | client_user ↦ elim (get_by_id actor.actor_id db.client_users) [
        | none ↦ ok []
        | some a ↦ ok (a ∷ [])
      ]
      | sustentra_user ↦
          ok (filter (λ a. is_own_client client_id a.client_id) (list_active db.client_users))
    ]
