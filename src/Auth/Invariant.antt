-- ===== src/Auth/Invariant.antt =====
-- What holds of the tables between two requests, and that each statement keeps it.
use sustentra_platform.Prelude.{
  filter-All, ◌≤◌, ◌<◌, ◌≡◌, ◌≢◌, Bool, false, arith, Option, none, some, List, [], ◌∷◌, filter,
  All, Bool-cases, inl, inr,
}
use sustentra_platform.Text.{Text, lit, casefold, eq_iff}
use sustentra_platform.Auth.Table.{
  update_where, delete_where, update_where-All, Distinct, Distinct-update, Distinct-filter,
  update_found,
}
use sustentra_platform.Auth.Database.{
  Uuid, Time, User, AuthToken, Session, Role, MetaValue, AuditEvent, Database, Scope, update_user,
  update_token, auth_resolve_challenge, purge_expired_auth_rows,
}
use sustentra_platform.Auth.Primitives.{contains_text}
use sustentra_platform.Auth.Audit.{
  RequestMeta, forbidden_metadata_keys, is_allowed, write_audit_event,
}

-- The failures of a user stay below the limit, since the last one locks and starts again.
abbrev pub CountIsLow : User → Type 0
CountIsLow u = u.failed_login_count < 5

-- A challenge that is open has tries left since it was sent last, and is sent again at most three times.
abbrev pub TriesAreLow : AuthToken → Type 0
TriesAreLow t = (t.consumed_at ≡ none → t.attempt_count < 3) × (t.resend_count ≤ 3)

-- No event carries a secret's key, in any case.
abbrev pub IsClean : AuditEvent → Type 0
IsClean e =
    All
      (λ p.
        All (λ key. casefold p.0 ≢ key)
          (lit "password"
            ∷ lit "otp"
            ∷ lit "code"
            ∷ lit "token"
            ∷ lit "secret"
            ∷ lit "authorization"
            ∷ []))
      e.metadata

pub record IsWellFormed (db : Database) : Type 0 where
  pub users : All CountIsLow db.users
  pub tokens : All TriesAreLow db.auth_tokens
  pub tokens_distinct : Distinct (λ t. t.id) db.auth_tokens
  pub events : All IsClean db.audit_logs

pub update_user-IsWellFormed :
    (scope : Scope) (k : Uuid) (f : User → User) (db : Database)
    → ((u : User) → CountIsLow u → CountIsLow (f u))
    → IsWellFormed db
    → IsWellFormed (update_user scope k f db)
unfolding update_user
update_user-IsWellFormed scope k f db h v = record {
  users = update_where-All CountIsLow _ f db.users h v.users;
  tokens = v.tokens;
  tokens_distinct = v.tokens_distinct;
  events = v.events;
}

not_contained :
    (words : List Text) (s : Text) → contains_text words s ≡ false → All (λ w. s ≢ w) words
not_contained [] s h = tt
not_contained (w ∷ words) s h =
    ((λ e. ground (arith, eq_iff w s)), not_contained words s (ground arith))

filter-allowed :
    (metadata : List (Text × MetaValue))
    → All
        (λ p. All (λ key. casefold p.0 ≢ key) forbidden_metadata_keys)
        (filter is_allowed metadata)
filter-allowed [] = tt
filter-allowed (p ∷ ps) = elim (Bool-cases (is_allowed p)) [
  | inl t ↦
      rw t (not_contained forbidden_metadata_keys (casefold p.0) (ground arith), filter-allowed ps)
  | inr t ↦ rw t (filter-allowed ps)
]

pub write_audit_event-IsWellFormed :
    (meta : RequestMeta) (event : Text) (org_id actor : Option Uuid) (role : Option Role)
    (target : Option (Text × Uuid)) (metadata : List (Text × MetaValue)) (db : Database)
    → IsWellFormed db
    → IsWellFormed (write_audit_event meta event org_id actor role target metadata db)
unfolding write_audit_event
write_audit_event-IsWellFormed meta event org_id actor role target metadata db v = record {
  users = v.users;
  tokens = v.tokens;
  tokens_distinct = v.tokens_distinct;
  events = (filter-allowed metadata, v.events);
}

-- Any update of the tokens that keeps the ids and the bounds.
pub update_tokens-IsWellFormed :
    (q : AuthToken → Bool) (f : AuthToken → AuthToken) (db : Database)
    → ((t : AuthToken) → TriesAreLow t → TriesAreLow (f t))
    → ((t : AuthToken) → (f t).id ≡ t.id)
    → IsWellFormed db
    → IsWellFormed (record db { auth_tokens = update_where q f db.auth_tokens })
update_tokens-IsWellFormed q f db h same v = record {
  users = v.users;
  tokens = update_where-All TriesAreLow q f db.auth_tokens h v.tokens;
  tokens_distinct = Distinct-update (λ t. t.id) q f db.auth_tokens same v.tokens_distinct;
  events = v.events;
}

-- An update of the token that was read.
pub update_token-IsWellFormed :
    (scope : Scope) (k : Uuid) (f : AuthToken → AuthToken) (db : Database) (t : AuthToken)
    → auth_resolve_challenge k db ≡ some t
    → TriesAreLow (f t)
    → ((t' : AuthToken) → (f t').id ≡ t'.id)
    → IsWellFormed db
    → IsWellFormed (update_token scope k f db)
unfolding update_token auth_resolve_challenge
update_token-IsWellFormed scope k f db t e h same v = record {
  users = v.users;
  tokens =
      update_found (λ t'. t'.id) TriesAreLow k _ f db.auth_tokens {x = t} v.tokens_distinct e
        v.tokens h;
  tokens_distinct = Distinct-update (λ t'. t'.id) _ f db.auth_tokens same v.tokens_distinct;
  events = v.events;
}

-- A new token.
pub add_token-IsWellFormed :
    (t : AuthToken) (db : Database)
    → TriesAreLow t
    → All (λ t'. t'.id ≢ t.id) db.auth_tokens
    → IsWellFormed db
    → IsWellFormed (record db { auth_tokens = t ∷ db.auth_tokens })
add_token-IsWellFormed t db h fresh v = record {
  users = v.users;
  tokens = (h, v.tokens);
  tokens_distinct = (fresh, v.tokens_distinct);
  events = v.events;
}

pub purge-IsWellFormed :
    (now : Time) (db : Database) → IsWellFormed db → IsWellFormed (purge_expired_auth_rows now db)
unfolding purge_expired_auth_rows delete_where
purge-IsWellFormed now db v = record {
  users = v.users;
  tokens = filter-All TriesAreLow _ db.auth_tokens v.tokens;
  tokens_distinct = Distinct-filter (λ t. t.id) _ db.auth_tokens v.tokens_distinct;
  events = v.events;
}

pub sessions-IsWellFormed :
    (rows : List Session) (db : Database)
    → IsWellFormed db
    → IsWellFormed (record db { sessions = rows })
sessions-IsWellFormed rows db v = record {
  users = v.users;
  tokens = v.tokens;
  tokens_distinct = v.tokens_distinct;
  events = v.events;
}
