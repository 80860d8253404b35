-- ===== src/Auth/Audit.antt =====
-- backend/app/services/audit_log.py
use sustentra_platform.Prelude.{
  ℕ, zero, suc, Bool, not, Option, none, some, List, [], ◌∷◌, filter, if◌then◌else◌,
}
use sustentra_platform.Text.{Text, lit, casefold, is_truthy, or_empty}
use sustentra_platform.Auth.Database.{Uuid, Role, MetaValue, Database}
use sustentra_platform.Auth.Primitives.{contains_text}

-- `RequestMeta` of backend/app/services/login.py
pub record RequestMeta : Type 0 where
  pub ip : Option Text
  pub user_agent : Option Text
  pub request_id : Option Text

-- `_FORBIDDEN_METADATA_KEYS`
abbrev pub forbidden_metadata_keys : List Text
forbidden_metadata_keys =
    lit "password" ∷ lit "otp" ∷ lit "code" ∷ lit "token" ∷ lit "secret" ∷ lit "authorization" ∷ []

abbrev pub is_allowed : Text × MetaValue → Bool
is_allowed p = not (contains_text forbidden_metadata_keys (casefold p.0))

-- `s[:n]`
abbrev pub take : ℕ → Text → Text
take zero s = []
take (suc n) [] = []
take (suc n) (c ∷ s) = c ∷ take n s

-- `(user_agent or "")[:512] or None`
unfoldable pub stored_user_agent : Option Text → Option Text
stored_user_agent agent =
    let kept = take 512 (or_empty agent) in if is_truthy (some kept) then some kept else none

-- `write_audit_event`
unfoldable pub write_audit_event :
    RequestMeta
    → Text
    → Option Uuid
    → Option Uuid
    → Option Role
    → Option (Text × Uuid)
    → List (Text × MetaValue)
    → Database
    → Database
write_audit_event meta event org_id actor role target metadata db = record db {
  audit_logs =
      record {
        event_type = event;
        org_id = org_id;
        actor_user_id = actor;
        actor_role = role;
        target = target;
        request_id = meta.request_id;
        ip_address = meta.ip;
        user_agent = stored_user_agent meta.user_agent;
        metadata = filter is_allowed metadata;
      }
      ∷ db.audit_logs;
}
