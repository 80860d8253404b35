-- ===== src/Identity/Guards.antt =====
-- Who may call an operation, and what a new name is compared with.
use sustentra_platform.Prelude.{
  ◌⊎◌, inl, inr, Bool-cases, ◌≡◌, ◌≤◌, refl, sym, ◌∙◌, true, false, Option, none, some, [], ◌∷◌,
  all, length, arith, ℕ,
}
use sustentra_platform.Prelude.Outcomes.{Result, ok, error}
use sustentra_platform.Text.{Text, strip, casefold, normalize}
use sustentra_platform.Identity.Passwords.{
  Hashing, is_username_char, matches_username, validate_username,
}
use sustentra_platform.Identity.Records.{ActorType, client_user, sustentra_user, Account}
use sustentra_platform.Identity.State.{
  Repository, Refusal, identity_error, Call, Found, Actor, require_unique_login, is_other,
  bootstrap_required,
}
use sustentra_platform.Identity.Users.{
  check_new_user, create_sustentra_user, list_sustentra_users, get_sustentra_user,
}
use sustentra_platform.Identity.ClientUsers.{
  check_new_client_user, create_client_user, find_client_user, update_client_user,
  delete_client_user,
}
use sustentra_platform.Identity.Clients.{check_new_client, create_client, delete_client}
use sustentra_platform.Identity.ClientChanges.{ClientChange, changed_client, update_client}
use sustentra_platform.Identity.Created.{username_text, normalize_lem}
use sustentra_platform.Identity.Mfa.{list_audit_events}

-- The operation answers 403 and changes nothing.
abbrev pub IsForbidden : {A : Type 0} → Repository → Repository × Result Refusal A → Type 0
IsForbidden db r = r ≡ (db, error (identity_error 403))

module _ ⦃hashing : Hashing⦄ (call : Call) (actor : Actor) (db : Repository) where
  -- An actor who is a client's user gets the error 403 from each operation on users, on clients and on
  -- the users of clients that only Sustentra may call, and from the audit list, and the state is left as
  -- it is; for the creation of a Sustentra user, once there is one.
  pub admin_only :
      (client_id id username email password role code : Text)
      (name contact notes new_email status new_password entity_type entity_id : Option Text)
      (change : ClientChange) (limit : ℕ)
      → actor.actor_type ≡ client_user
      → ((bootstrap_required db ≡ true)
          ⊎ IsForbidden db
              (create_sustentra_user call username email password role (some actor) db))
        × IsForbidden db (create_client_user call client_id username email password actor db)
        × IsForbidden db
            (update_client_user call client_id id actor new_email status new_password db)
        × IsForbidden db (delete_client_user call client_id id actor db)
        × IsForbidden db (create_client call name code contact notes actor db)
        × IsForbidden db (update_client call client_id actor change db)
        × IsForbidden db (delete_client call client_id actor db)
        × (list_sustentra_users actor db ≡ error (identity_error 403))
        × (get_sustentra_user id actor db ≡ error (identity_error 403))
        × (list_audit_events actor entity_type entity_id limit db ≡ error (identity_error 403))
  unfolding create_sustentra_user check_new_user create_client_user check_new_client_user
      update_client_user find_client_user delete_client_user create_client check_new_client
      update_client changed_client delete_client list_sustentra_users get_sustentra_user
      list_audit_events
  admin_only client_id id username email password role code name contact notes new_email status
        new_password entity_type entity_id change limit e =
      (
        elim (Bool-cases (bootstrap_required db)) [
          | inl first ↦ inl first
          | inr started ↦ inr (rw (started, create_sustentra_user) (rw e refl))
        ],
        rw e refl,
        rw e refl,
        rw e refl,
        rw e refl,
        rw e refl,
        rw e refl,
        rw e refl,
        rw e refl,
        rw e refl,
      )

other-none :
    (t : ActorType) (a : Account)
    → is_other none (some (record { actor_type = t; account = a })) ≡ false
other-none sustentra_user a = refl
other-none client_user a = refl

not_other : (o : Option Found) → is_other none o ≡ false
not_other none = refl
not_other (some f) = other-none f.actor_type f.account

-- `_require_unique_login` without an id to exclude, as at the creation of a user, accepts every name
-- and email, also those that somebody has.
pub never_taken :
    (username email : Text) (db : Repository) → require_unique_login username email none db ≡ ok tt
unfolding require_unique_login
never_taken username email db = rw (not_other _) refl

length-casefold : (s : Text) → length (casefold s) ≡ length s
unfolding casefold
length-casefold [] = refl
length-casefold (c ∷ s) = ground (arith, length-casefold s)

all-casefold : (s : Text) → all is_username_char s ≡ true → all is_username_char (casefold s) ≡ true
unfolding casefold
all-casefold [] h = refl
all-casefold (c ∷ s) h = ground (arith, all-casefold s)

folded :
    (s : Text) {u : Text}
    → matches_username s ≡ true
    → u ≡ casefold s
    → (3 ≤ length u) × (length u ≤ 64) × (all is_username_char u ≡ true)
unfolding matches_username
folded s {u = u} h e = ground (arith, length-casefold s, all-casefold s)

-- A name that `validate_username` accepts is the stripped, lower-case text, has 3 to 64 characters, and
-- consists of letters, digits, dots, underscores and dashes.
pub username_bounds :
    (username : Text) {u : Text}
    → validate_username username ≡ some u
    → (u ≡ normalize username) × (3 ≤ length u) × (length u ≤ 64) × (all is_username_char u ≡ true)
username_bounds username {u = u} e =
    let (named, matched) = username_text username u e in
    let (low, high, plain) = folded (strip username) matched (sym named ∙ normalize_lem username) in
    (sym named, low, high, plain)
