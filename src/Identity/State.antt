-- ===== src/Identity/State.antt =====
-- The state of `IdentityService` (backend/app/services/identity_service.py), and the helpers that its
-- operations share. A raised exception is an `error`, beside the state that is left.
use sustentra_platform.Prelude.{
  ℕ, Bool, true, false, not, ◌&&◌, ◌||◌, Option, none, some, List, [], ◌∷◌, ◌++◌, is_empty,
  if◌then◌else◌,
}
use sustentra_platform.Prelude.Outcomes.{Result, ok, error, require}
use sustentra_platform.Text.{Text, lit, ◌==◌, normalize}
use sustentra_platform.Identity.Store.{save, find_version, find_latest, get_by_id, list_active}
use sustentra_platform.Identity.Records.{
  Time, ActorType, sustentra_user, client_user, Account, Client, AuditEvent, SessionRecord,
  PasswordReset, MfaChallenge, stored_account, actor_text,
}

-- `IdentityRepository`
pub record Repository : Type 0 where
  pub users : List Account
  pub clients : List Client
  pub client_users : List Account
  pub sessions : List SessionRecord
  pub resets : List PasswordReset
  pub challenges : List MfaChallenge
  pub audit : List AuditEvent

-- The exceptions: the ValueErrors of the validators, and `IdentityError` with its status code.
pub data Refusal : Type 0 where
  invalid_value : Refusal
  identity_error : ℕ → Refusal

-- What a call reads from outside: the clock at each place of the call that reads it, an id for each prefix, a token,
-- a salt, a secret, the recovery codes, and the time of the one-time passwords.
pub record Call : Type 0 where
  pub clock : ℕ → Time
  pub new_id : Text → Text
  pub new_token : Text
  pub salt : List ℕ
  pub secret : Text
  pub recovery_codes : List Text
  pub totp_now : ℕ

-- A record that was found, with the keys `actor_id` and `actor_type` added to it.
pub record Found : Type 0 where
  pub actor_type : ActorType
  pub account : Account

-- The keys of an actor that the operations read.
pub record Actor : Type 0 where
  pub actor_id : Text
  pub actor_type : ActorType
  pub client_id : Option Text

-- `record.get("user_id")` and `record.get("client_user_id")`
abbrev pub user_id : Found → Option Text
user_id f = elim f.actor_type [ sustentra_user ↦ some f.account.id | client_user ↦ none ]

abbrev pub client_user_id : Found → Option Text
client_user_id f = elim f.actor_type [ sustentra_user ↦ none | client_user ↦ some f.account.id ]

-- `a == b` of an optional key
abbrev pub same_key : Option Text → Option Text → Bool
same_key none none = true
same_key (some s) (some t) = s == t
same_key none (some t) = false
same_key (some s) none = false

-- `_audit`, at a place of the clock
unfoldable pub write_event :
    Call → ℕ → Text → Option ActorType → Text → Text → Text → Repository → Repository
write_event call reading actor_id actor_type action entity_type entity_id db = record db {
  audit =
      save
        (record {
          audit_id = call.new_id (lit "aud");
          occurred_at = call.clock reading;
          actor_id = actor_id;
          actor_type = actor_type;
          action = action;
          entity_type = entity_type;
          entity_id = entity_id;
        })
        db.audit;
}

-- `_audit` of something that an account does
unfoldable pub write_own_event : Call → ℕ → Found → Text → Repository → Repository
write_own_event call reading f action db =
    write_event call reading f.account.id (some f.actor_type) action (actor_text f.actor_type)
      f.account.id db

-- `user_match`
abbrev pub has_login : Text → Account → Bool
has_login needle a = a.username == needle || a.email == needle

abbrev pub found_as : ActorType → Option Account → Option Found
found_as actor_type none = none
found_as actor_type (some a) = some (record { actor_type = actor_type; account = a })

abbrev pub or_else : {A : Type 0} → Option A → Option A → Option A
or_else none other = other
or_else (some a) other = some a

-- `_find_login_record`
unfoldable pub find_login_record : Text → Repository → Option Found
find_login_record username_or_email db =
    let needle = normalize username_or_email in
    if is_empty needle
    then none
    else or_else (found_as sustentra_user (find_latest (has_login needle) db.users))
        (found_as client_user (find_latest (has_login needle) db.client_users))

-- The test of `_require_unique_login`, for a record that was found.
abbrev pub is_other : Option Text → Option Found → Bool
is_other exclude none = false
is_other exclude (some f) =
    not (same_key (user_id f) exclude) && not (same_key (client_user_id f) exclude)

-- `_require_unique_login`
unfoldable pub require_unique_login :
    Text → Text → Option Text → Repository → Result Refusal (Unit {0})
require_unique_login username email exclude db =
    require
      (not
        (is_other exclude (or_else (find_login_record username db) (find_login_record email db))))
      (identity_error 409)

-- `_actor_record`
unfoldable pub actor_record : Text → ActorType → Repository → Option Found
actor_record actor_id sustentra_user db = found_as sustentra_user (get_by_id actor_id db.users)
actor_record actor_id client_user db = found_as client_user (get_by_id actor_id db.client_users)

abbrev pub save_as : ActorType → Account → Repository → Repository
save_as sustentra_user a db = record db { users = save a db.users }
save_as client_user a db = record db { client_users = save a db.client_users }

-- `_save_actor`
unfoldable pub save_actor : Found → Repository → Repository
save_actor f db = save_as f.actor_type f.account db

-- `_require_sustentra_user`
abbrev pub require_sustentra_user : Option Actor → Result Refusal (Unit {0})
require_sustentra_user none = error (identity_error 403)
require_sustentra_user (some actor) = elim actor.actor_type [
  | sustentra_user ↦ ok tt
  | client_user ↦ error (identity_error 403)
]

-- `bootstrap_required`
unfoldable pub bootstrap_required : Repository → Bool
bootstrap_required db = is_empty (list_active db.users)

abbrev pub revoke : Time → SessionRecord → SessionRecord
revoke now s = record s { revoked_at = some now }

-- One turn of the loop of `_revoke_actor_sessions`, for a session id that was not seen before.
unfoldable pub revoke_session : Time → Text → List SessionRecord → List SessionRecord
revoke_session now session_id sessions =
    elim (find_version (λ s. s.session_id == session_id) sessions) [
      | none ↦ sessions
      | some latest ↦ elim latest.revoked_at [
        | some t ↦ sessions
        | none ↦ save (revoke now latest) sessions
      ]
    ]

abbrev pub has_text : Text → List Text → Bool
has_text t [] = false
has_text t (s ∷ seen) = s == t || has_text t seen

-- The loop, over the versions that were there at its start, the newest first.
unfoldable pub revoke_each :
    Time → Text → List SessionRecord → List Text → List SessionRecord → List SessionRecord
revoke_each now actor_id [] seen sessions = sessions
revoke_each now actor_id (s ∷ versions) seen sessions =
    elim (not (s.actor_id == actor_id) || has_text s.session_id seen) [
      | true ↦ revoke_each now actor_id versions seen sessions
      | false ↦
          revoke_each now actor_id versions (s.session_id ∷ seen)
            (revoke_session now s.session_id sessions)
    ]

-- `reversed(xs)`
abbrev pub reversed : {A : Type 0} → List A → List A
reversed [] = []
reversed (x ∷ xs) = reversed xs ++ x ∷ []

-- `_revoke_actor_sessions`
unfoldable pub revoke_actor_sessions : Time → Text → Repository → Repository
revoke_actor_sessions now actor_id db = record db {
  sessions = revoke_each now actor_id (reversed db.sessions) [] db.sessions;
}
