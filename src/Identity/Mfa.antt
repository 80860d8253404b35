-- ===== src/Identity/Mfa.antt =====
-- `setup_mfa`, `confirm_mfa` and `disable_mfa` of backend/app/services/identity_service.py, and
-- `list_audit_events`.
use sustentra_platform.Prelude.{
  ℕ, ◌-◌, Bool, true, false, not, ◌&&◌, Option, none, some, List, [], ◌∷◌, map, filter, length,
  nat_eq, if◌then◌else◌,
}
use sustentra_platform.Prelude.Outcomes.{Result, ok, error, ◌>>◌}
use sustentra_platform.Text.{Text, lit, ◌==◌, is_truthy, or_empty}
use sustentra_platform.Identity.Passwords.{Hashing, hash_token, verify_password}
use sustentra_platform.Identity.Totp.{Mac, verify_totp}
use sustentra_platform.Identity.Records.{Account, AuditEvent, is_active}
use sustentra_platform.Identity.State.{
  Repository, Refusal, identity_error, Call, Found, Actor, write_own_event, actor_record,
  save_actor, reversed, require_sustentra_user,
}
use sustentra_platform.Identity.Login.{match_recovery_code, match_totp}

abbrev pub if_active : Option Found → Option Found
if_active none = none
if_active (some f) = if is_active f.account.status then some f else none

-- `_require_active_actor`; `none` for its error 401
unfoldable pub require_active_actor : Actor → Repository → Option Found
require_active_actor actor db = if_active (actor_record actor.actor_id actor.actor_type db)

-- The record with other settings, stored by its own actor at a place of the clock.
abbrev pub stamped : Call → Found → Bool → Option Text → List Text → Found
stamped call f enabled secret hashes = record f {
  account = record f.account {
    mfa_enabled = enabled;
    mfa_secret = secret;
    mfa_recovery_hashes = hashes;
    updated_at = call.clock 0;
    updated_by = f.account.id;
  };
}

unfoldable pub store_mfa : Call → Found → Text → Repository → Repository
store_mfa call f action db = write_own_event call 1 f action (save_actor f db)

-- `setup_mfa`, with the secret that it answers
unfoldable pub setup_mfa : Call → Actor → Repository → Repository × Result Refusal Text
setup_mfa call actor db = elim (require_active_actor actor db) [
  | none ↦ (db, error (identity_error 401))
  | some f ↦ if f.account.mfa_enabled then (db, error (identity_error 400)) else (
    store_mfa call (stamped call f false (some call.secret) f.account.mfa_recovery_hashes)
        (lit "auth.mfa_setup_started") db,
    ok call.secret,
  )
]

module _ ⦃hashing : Hashing⦄ ⦃mac : Mac⦄ where
  -- `confirm_mfa`, with the recovery codes that it answers
  unfoldable pub confirm_mfa :
      Call → Actor → Text → Repository → Repository × Result Refusal (List Text)
  confirm_mfa call actor code db = elim (require_active_actor actor db) [
    | none ↦ (db, error (identity_error 401))
    | some f ↦
        if not (is_truthy f.account.mfa_secret)
        then (db, error (identity_error 400))
        else if not (verify_totp (or_empty f.account.mfa_secret) code call.totp_now)
        then (db, error (identity_error 400))
        else (
          store_mfa call
              (stamped call f true f.account.mfa_secret (map hash_token call.recovery_codes))
              (lit "auth.mfa_enabled") db,
          ok call.recovery_codes,
        )
  ]

  -- `not totp_ok and not recovery_ok`, where a second factor is on
  abbrev pub lacks_factor : Account → Text → ℕ → Bool
  lacks_factor a code at =
      a.mfa_enabled && (not (match_totp a code at) && not (match_recovery_code a code))

  -- `disable_mfa`
  unfoldable pub disable_mfa :
      Call → Actor → Text → Text → Repository → Repository × Result Refusal (Unit {0})
  disable_mfa call actor password code db = elim (require_active_actor actor db) [
    | none ↦ (db, error (identity_error 401))
    | some f ↦
        if not (verify_password password f.account.password_salt f.account.password_hash)
        then (db, error (identity_error 401))
        else if lacks_factor f.account code call.totp_now
        then (db, error (identity_error 401))
        else (store_mfa call (stamped call f false none []) (lit "auth.mfa_disabled") db, ok tt)
  ]

abbrev pub drop : {A : Type 0} → ℕ → List A → List A
drop n [] = []
drop n (x ∷ xs) = if nat_eq n 0 then x ∷ xs else drop (n - 1) xs

-- `xs[-n:]`, which is all of the list for zero
abbrev pub last_items : {A : Type 0} → ℕ → List A → List A
last_items n xs = if nat_eq n 0 then xs else drop (length xs - n) xs

-- `if key: events = [event for event in events if …]`
abbrev pub restrict : Option Text → (AuditEvent → Text) → List AuditEvent → List AuditEvent
restrict none field events = events
restrict (some k) field events =
    if is_truthy (some k) then filter (λ e. field e == k) events else events

-- `list_audit_events`
unfoldable pub list_audit_events :
    Actor → Option Text → Option Text → ℕ → Repository → Result Refusal (List AuditEvent)
list_audit_events actor entity_type entity_id limit db =
    require_sustentra_user (some actor)
    >> ok (
        reversed (
          last_items limit (
            restrict entity_id (λ e. e.entity_id)
              (restrict entity_type (λ e. e.entity_type) db.audit))))
