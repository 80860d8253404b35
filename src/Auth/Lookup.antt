-- ===== src/Auth/Lookup.antt =====
-- What the look-ups of a challenge, a reset token and a user say of the rows that they find.
use mathlib.Core.Path.{subst, sym}
use sustentra_platform.Prelude.{
  ◌<◌, ◌≡◌, true, ◌&&◌, Option, none, some, arith, nat_eq, Option-cases, inl, inr,
}
use sustentra_platform.Text.{Text}
use sustentra_platform.Auth.Table.{first_where-holds}
use sustentra_platform.Auth.Database.{
  Uuid, Time, User, AuthToken, Database, Scope, is_visible, is_login_otp, find_user,
  auth_resolve_challenge, auth_resolve_reset_token,
}
use sustentra_platform.Auth.Primitives.{Crypto}
use sustentra_platform.Auth.Challenge.{load_challenge, only_login_otp, usable}
use sustentra_platform.Auth.PasswordReset.{open_reset}

-- A challenge that is there, for signing in, not used and not expired.
abbrev pub IsOpen : Database → Time → Uuid → AuthToken → Type 0
IsOpen db now k challenge =
    (auth_resolve_challenge k db ≡ some challenge)
    × (challenge.id ≡ k)
    × (is_login_otp challenge.token_type ≡ true)
    × (challenge.consumed_at ≡ none)
    × (now < challenge.expires_at)

-- It is found by its own id.
pub IsOpen-self :
    (db : Database) (now : Time) (k : Uuid) (challenge : AuthToken)
    → IsOpen db now k challenge
    → auth_resolve_challenge challenge.id db ≡ some challenge
IsOpen-self db now k challenge read =
    subst (λ m. auth_resolve_challenge m db ≡ some challenge) (sym read.1) read.0

resolved-id :
    (k : Uuid) (db : Database) (challenge : AuthToken)
    → auth_resolve_challenge k db ≡ some challenge
    → challenge.id ≡ k
unfolding auth_resolve_challenge
resolved-id k db challenge e =
    let h = first_where-holds (λ t. nat_eq t.id k) db.auth_tokens {x = challenge} e in ground arith

usable-otp :
    (row : Option AuthToken) (now : Time) (challenge : AuthToken)
    → usable (only_login_otp row) now ≡ some challenge
    → (row ≡ some challenge)
      × (is_login_otp challenge.token_type ≡ true)
      × (challenge.consumed_at ≡ none)
      × (now < challenge.expires_at)
usable-otp none now challenge e = cc
usable-otp (some row) now challenge e = ground arith

none-usable : (now : Time) (challenge : AuthToken) → ¬ (usable none now ≡ some challenge)
none-usable now challenge e = cc

module _ ⦃crypto : Crypto⦄ where
  load-parsed :
      (challenge_id : Text) (db : Database) (k : Uuid)
      → crypto.parse_uuid challenge_id ≡ some k
      → load_challenge challenge_id db ≡ only_login_otp (auth_resolve_challenge k db)
  unfolding load_challenge
  load-parsed challenge_id db k p = rw (p, load_challenge)

  load-unparsed :
      (challenge_id : Text) (db : Database)
      → crypto.parse_uuid challenge_id ≡ none
      → load_challenge challenge_id db ≡ none
  unfolding load_challenge
  load-unparsed challenge_id db p = rw (p, load_challenge)

  pub usable-IsOpen :
      (challenge_id : Text) (db : Database) (now : Time) (challenge : AuthToken)
      → usable (load_challenge challenge_id db) now ≡ some challenge
      → (k : Uuid) × (crypto.parse_uuid challenge_id ≡ some k) × IsOpen db now k challenge
  usable-IsOpen challenge_id db now challenge e =
      elim (Option-cases (crypto.parse_uuid challenge_id)) [
        | inl p ↦ absurd (none-usable now challenge (rw (load-unparsed challenge_id db p) at e))
        | inr (k, p) ↦
            let (found, otp, unused, fresh) =
              usable-otp (auth_resolve_challenge k db) now challenge
                (rw (load-parsed challenge_id db k p) at e) in
            (k, p, (found, resolved-id k db challenge found, otp, unused, fresh))
      ]

  pub IsOpen-usable :
      (challenge_id : Text) (db : Database) (now : Time) (k : Uuid) (challenge : AuthToken)
      → crypto.parse_uuid challenge_id ≡ some k
      → IsOpen db now k challenge
      → usable (load_challenge challenge_id db) now ≡ some challenge
  IsOpen-usable challenge_id db now k challenge p (e, same, otp, unused, fresh) =
      rw (load-parsed challenge_id db k p) (rw e (ground arith))

-- A reset token that is there, not used and not expired.
abbrev pub IsOpenReset : Database → Time → Text → AuthToken → Type 0
IsOpenReset db now hash row =
    (auth_resolve_reset_token hash db ≡ some row)
    × (row.consumed_at ≡ none)
    × (now < row.expires_at)

pub open_reset-IsOpenReset :
    (db : Database) (now : Time) (hash : Text) (row : AuthToken)
    → open_reset (auth_resolve_reset_token hash db) now ≡ some row
    → IsOpenReset db now hash row
open_reset-IsOpenReset db now hash row e = from_row (auth_resolve_reset_token hash db) e
  where
    from_row :
        (o : Option AuthToken)
        → open_reset o now ≡ some row
        → (o ≡ some row) × (row.consumed_at ≡ none) × (now < row.expires_at)
    from_row none h = cc
    from_row (some t) h = ground arith

-- The user that a scope shows under an id has it.
pub find_user-id :
    (scope : Scope) (k : Uuid) (db : Database) (user : User)
    → find_user scope k db ≡ some user
    → (user.id ≡ k) × (is_visible scope user.org_id ≡ true)
unfolding find_user
find_user-id scope k db user e =
    let h =
      first_where-holds (λ u. is_visible scope u.org_id && nat_eq u.id k) db.users {x = user} e in
    (ground arith, ground arith)
