-- ===== src/Identity/ClientChanges.antt =====
-- `update_client` of backend/app/services/identity_service.py.
use sustentra_platform.Prelude.{Bool, not, ◌&&◌, Option, none, some, List, is_some, if◌then◌else◌}
use sustentra_platform.Prelude.Outcomes.{Result, ok, error, require, ◌>>=◌, ◌>>◌}
use sustentra_platform.Text.{Text, lit, ◌==◌}
use sustentra_platform.Identity.Passwords.{validate_client_code}
use sustentra_platform.Identity.Store.{save, find_latest, get_by_id}
use sustentra_platform.Identity.Records.{Client, ClientStatus, stored_account, stored_client}
use sustentra_platform.Identity.State.{
  Repository, Refusal, invalid_value, identity_error, Call, Actor, require_sustentra_user,
}
use sustentra_platform.Identity.Users.{checked}
use sustentra_platform.Identity.ClientUsers.{write_admin_event}
use sustentra_platform.Identity.Clients.{strip_or_none, client_name, contact}

-- The changes that `update_client` is asked for.
pub record ClientChange : Type 0 where
  pub name : Option Text
  pub code : Option Text
  pub contact_email : Option Text
  pub notes : Option Text
  pub status : Option Text

abbrev pub change_name : Option Text → Client → Result Refusal Client
change_name none c = ok c
change_name (some name) c = client_name (some name) >>= λ n. ok (record c { name = n })

-- Another client that has the code.
abbrev pub has_code : Text → Text → Client → Bool
has_code code client_id r = r.code == code && not (r.client_id == client_id)

abbrev pub change_code : Text → Option Text → List Client → Client → Result Refusal Client
change_code client_id none clients c = ok c
change_code client_id (some code) clients c =
    checked (validate_client_code code) invalid_value >>= λ k.
    require (not (is_some (find_latest (has_code k client_id) clients))) (identity_error 409)
    >> ok (record c { code = k })

abbrev pub change_contact : Option Text → Client → Result Refusal Client
change_contact none c = ok c
change_contact (some email) c = contact (some email) >>= λ m. ok (record c { contact_email = m })

abbrev pub change_notes : Option Text → Client → Client
change_notes none c = c
change_notes (some notes) c = record c { notes = strip_or_none (some notes) }

abbrev pub read_client_status : Text → Option ClientStatus
read_client_status s =
    if s == lit "active"
    then some ClientStatus.active
    else if s == lit "inactive"
    then some ClientStatus.inactive
    else none

abbrev pub change_client_status : Option Text → Client → Result Refusal Client
change_client_status none c = ok c
change_client_status (some status) c =
    checked (read_client_status status) (identity_error 400) >>= λ s. ok (record c { status = s })

-- The record of `update_client` before it is stored.
unfoldable pub changed_client : Text → Actor → ClientChange → Repository → Result Refusal Client
changed_client client_id actor change db =
    require_sustentra_user (some actor)
    >> (checked (get_by_id client_id db.clients) (identity_error 404)
        >>= change_name change.name
        >>= change_code client_id change.code db.clients
        >>= change_contact change.contact_email
        >>= λ c. change_client_status change.status (change_notes change.notes c))

-- `update_client`
unfoldable pub update_client :
    Call → Text → Actor → ClientChange → Repository → Repository × Result Refusal Client
update_client call client_id actor change db = elim (changed_client client_id actor change db) [
  | error e ↦ (db, error e)
  | ok c ↦
      let stored = record c { updated_at = call.clock 0; updated_by = actor.actor_id } in
      (
        write_admin_event call 1 actor (lit "client.update") (lit "client") client_id
            (record db { clients = save stored db.clients }),
        ok stored,
      )
]
