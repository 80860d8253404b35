-- ===== src/Identity/Records.antt =====
-- backend/app/domain/identity.py. A time is a number of microseconds: the texts of `isoformat` in UTC,
-- which the service compares, are in the order of the times.
use sustentra_platform.Prelude.{ℕ, Bool, true, false, Option, List}
use sustentra_platform.Text.{Text, lit}
use sustentra_platform.Identity.Store.{Stored}

abbrev pub Time : Type 0
Time = ℕ

pub data ActorType : Type 0 where
  sustentra_user client_user : ActorType

pub data AccountStatus : Type 0 where
  active disabled deleted : AccountStatus

pub data UserRole : Type 0 where
  admin operator : UserRole

pub data ClientStatus : Type 0 where
  active inactive deleted : ClientStatus

-- `SustentraUser` and `ClientUser`: the id is `user_id` or `client_user_id`; the role of the one and the
-- client of the other are `none` where the record has no such key.
pub record Account : Type 0 where
  pub id : Text
  pub role : Option UserRole
  pub client_id : Option Text
  pub username : Text
  pub email : Text
  pub password_salt : Text
  pub password_hash : Text
  pub status : AccountStatus
  pub mfa_enabled : Bool
  pub mfa_secret : Option Text
  pub mfa_recovery_hashes : List Text
  pub created_at : Time
  pub created_by : Text
  pub updated_at : Time
  pub updated_by : Text
  pub last_login_at : Option Time

-- `SustentraClient`
pub record Client : Type 0 where
  pub client_id : Text
  pub name : Text
  pub code : Text
  pub contact_email : Option Text
  pub notes : Option Text
  pub status : ClientStatus
  pub created_at : Time
  pub created_by : Text
  pub updated_at : Time
  pub updated_by : Text

-- `AuditEvent`, without the details; `none` for the actor type "system".
pub record AuditEvent : Type 0 where
  pub audit_id : Text
  pub occurred_at : Time
  pub actor_id : Text
  pub actor_type : Option ActorType
  pub action : Text
  pub entity_type : Text
  pub entity_id : Text

-- `SessionRecord`
pub record SessionRecord : Type 0 where
  pub session_id : Text
  pub token : Text
  pub actor_id : Text
  pub actor_type : ActorType
  pub created_at : Time
  pub expires_at : Time
  pub revoked_at : Option Time

-- `PasswordResetRecord`
pub record PasswordReset : Type 0 where
  pub reset_id : Text
  pub actor_id : Text
  pub actor_type : ActorType
  pub token_hash : Text
  pub created_at : Time
  pub expires_at : Time
  pub used_at : Option Time

-- `MfaChallengeRecord`
pub record MfaChallenge : Type 0 where
  pub challenge_id : Text
  pub actor_id : Text
  pub actor_type : ActorType
  pub token : Text
  pub created_at : Time
  pub expires_at : Time
  pub consumed_at : Option Time

abbrev pub is_active : AccountStatus → Bool
is_active AccountStatus.active = true
is_active AccountStatus.disabled = false
is_active AccountStatus.deleted = false

abbrev pub is_deleted_account : Account → Bool
is_deleted_account a = elim a.status [
  | AccountStatus.active ↦ false
  | AccountStatus.disabled ↦ false
  | AccountStatus.deleted ↦ true
]

abbrev pub is_deleted_client : Client → Bool
is_deleted_client c = elim c.status [
  | ClientStatus.active ↦ false
  | ClientStatus.inactive ↦ false
  | ClientStatus.deleted ↦ true
]

instance abbrev pub stored_account : Stored Account
stored_account = record { id = λ a. a.id; is_deleted = is_deleted_account }

instance abbrev pub stored_client : Stored Client
stored_client = record { id = λ c. c.client_id; is_deleted = is_deleted_client }

-- `actor_type` as a text
abbrev pub actor_text : ActorType → Text
actor_text sustentra_user = lit "sustentra_user"
actor_text client_user = lit "client_user"
