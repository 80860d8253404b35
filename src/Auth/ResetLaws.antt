-- ===== src/Auth/ResetLaws.antt =====
-- When `confirm_reset` changes a password, and what it does then.
use sustentra_platform.Prelude.{
  ℕ, ◌≡◌, ◌≢◌, ◌↔◌, ◌⊎◌, refl, true, false, not, ◌&&◌, Option, none, some, List, [], ◌∷◌, arith,
  All, nat_eq, is_empty, Bool-cases, Option-cases, inl, inr,
}
use sustentra_platform.Text.{Text}
use sustentra_platform.Auth.Table.{first_where-update, delete_where}
use sustentra_platform.Auth.Database.{
  Uuid, User, AuthToken, Session, Database, Scope, scope_of, is_visible, find_user, update_user,
  update_token, auth_resolve_reset_token,
}
use sustentra_platform.Auth.Primitives.{
  bcrypt_input, verify_password, Crypto, validate_password, hash_password, hash_token,
}
use sustentra_platform.Auth.Audit.{write_audit_event}
use sustentra_platform.Auth.Session.{revoke_user_sessions}
use sustentra_platform.Auth.Outcome.{Request}
use sustentra_platform.Auth.Login.{audit_user}
use sustentra_platform.Auth.Challenge.{is_barred}
use sustentra_platform.Auth.PasswordReset.{
  ResetOutcome, change_password, open_reset, set_password, reset_owner, confirm_reset,
}
use sustentra_platform.Auth.Lookup.{IsOpenReset, open_reset-IsOpenReset, find_user-id}
use sustentra_platform.Auth.SingleUse.{visible_self}

module _ ⦃crypto : Crypto⦄ (request : Request) (salt : List ℕ) (token password : Text)
    (db : Database) where
  -- What a reset asks for: an unused token that has not expired, whose owner is there and active, in
  -- an active organization if in any, and a password that the policy accepts.
  abbrev pub MayReset : AuthToken → User → Type 0
  MayReset row user =
      IsOpenReset db request.now (hash_token token) row
      × (find_user (scope_of row.org_id) row.user_id db ≡ some user)
      × (is_barred user db ≡ false)
      × (is_empty (validate_password password (some user.email)) ≡ true)

  abbrev IsRefused : Database × ResetOutcome → Type 0
  IsRefused r = (r.0 ≡ db) × (r.1.status ≢ 200)

  open_reset-again :
      (row : AuthToken)
      → IsOpenReset db request.now (hash_token token) row
      → open_reset (auth_resolve_reset_token (hash_token token) db) request.now ≡ some row
  open_reset-again row (found, unused, fresh) = rw found (ground arith)

  pub resets :
      (row : AuthToken) (user : User)
      → MayReset row user
      → confirm_reset request salt token password db
        ≡ set_password request salt row user password db
  unfolding confirm_reset reset_owner
  resets row user (read, owner, free, accepted) =
      rw (open_reset-again row read, confirm_reset)
        (rw (owner, reset_owner) (rw free (rw accepted)))

  reset_cases :
      ((row : AuthToken) × (user : User) × MayReset row user)
      ⊎ IsRefused (confirm_reset request salt token password db)
  unfolding confirm_reset reset_owner
  reset_cases =
      elim (Option-cases
        (open_reset (auth_resolve_reset_token (hash_token token) db) request.now)) [
          | inl e ↦ inr (rw (e, confirm_reset) (refl, omega arith))
          | inr (row, e) ↦ elim (Option-cases (find_user (scope_of row.org_id) row.user_id db)) [
            | inl u ↦ inr (rw (e, confirm_reset) (rw (u, reset_owner) (refl, omega arith)))
            | inr (user, u) ↦ elim (Bool-cases (is_barred user db)) [
              | inl t ↦ inr (rw (e, confirm_reset) (rw (u, reset_owner) (rw t (refl, omega arith))))
              | inr t ↦
                  elim (Bool-cases (is_empty (validate_password password (some user.email)))) [
                    | inl good ↦
                        inl (row, user, (open_reset-IsOpenReset db request.now _ row e, u, t, good))
                    | inr bad ↦ inr (
                        rw (e, confirm_reset)
                          (rw (u, reset_owner) (rw t (rw bad (refl, omega arith)))))
                  ]
            ]
          ]
        ]

  set_password-status :
      (row : AuthToken) (user : User)
      → (set_password request salt row user password db).1.status ≡ 200
  unfolding set_password
  set_password-status row user = refl

  -- A reset is confirmed exactly when the token is there, unused and not expired, its owner is there,
  -- active, and in an active organization if in any, and the policy accepts the password. Otherwise the
  -- database stays as it is, the token included.
  pub confirm_reset_iff :
      let r = confirm_reset request salt token password db in
      ((r.1.status ≡ 200) ↔ ((row : AuthToken) × (user : User) × MayReset row user))
      × (r.1.status ≢ 200 → r.0 ≡ db)
  confirm_reset_iff = elim reset_cases [
    | inl (row, user, m) ↦ (
      (λ _. (row, user, m), λ (t, u, n). rw (resets t u n) (set_password-status t u)),
      λ no_change. absurd (no_change (rw (resets row user m) (set_password-status row user))),
    )
    | inr (same, refused) ↦ (
      (λ e. absurd (refused e), λ (t, u, n). rw (resets t u n) (set_password-status t u)),
      λ _. same,
    )
  ]

  revoked-gone :
      (scope : Scope) (k : Uuid) (org_id : Option Uuid) (rows : List Session)
      → is_visible scope org_id ≡ true
      → All (λ s. s.user_id ≡ k → s.org_id ≡ org_id) rows
      → All
          (λ s. s.user_id ≢ k)
          (delete_where (λ s. is_visible scope s.org_id && nat_eq s.user_id k) rows)
  unfolding delete_where
  revoked-gone scope k org_id [] seen h = tt
  revoked-gone scope k org_id (s ∷ rows) seen h =
      let rest = revoked-gone scope k org_id rows seen h.1 in
      elim (Bool-cases (not (is_visible scope s.org_id && nat_eq s.user_id k))) [
        | inl kept ↦ rw kept ((λ e. let o = h.0 e in absurd (ground arith)), rest)
        | inr gone ↦ rw gone rest
      ]

  set_password-sessions :
      (row : AuthToken) (user : User)
      → user.id ≡ row.user_id
      → All (λ s. s.user_id ≡ row.user_id → s.org_id ≡ row.org_id) db.sessions
      → All
          (λ s. s.user_id ≢ row.user_id)
          (set_password request salt row user password db).0.sessions
  unfolding set_password audit_user write_audit_event revoke_user_sessions update_user update_token
  set_password-sessions row user same fk = rw same (
      revoked-gone (scope_of row.org_id) row.user_id row.org_id db.sessions
        (visible_self row.org_id) fk)

  set_password-user :
      (row : AuthToken) (user : User)
      → find_user (scope_of row.org_id) row.user_id db ≡ some user
      → find_user
          (scope_of row.org_id)
          row.user_id
          (set_password request salt row user password db).0
        ≡ some (change_password (hash_password salt password) request.now user)
  unfolding set_password audit_user write_audit_event revoke_user_sessions update_user update_token
      find_user
  set_password-user row user found =
      let is = find_user-id (scope_of row.org_id) row.user_id db user found in
      let p = λ (u : User). is_visible (scope_of row.org_id) u.org_id && nat_eq u.id row.user_id in
      let q = λ (u : User). is_visible (scope_of row.org_id) u.org_id && nat_eq u.id user.id in
      let hit : q user ≡ true = ground arith in
      rw
        (first_where-update p q (change_password (hash_password salt password) request.now) db.users
          (λ u. refl) {x = user} found)
        (rw hit)

  hashed_verifies :
      is_empty (crypto.hashpw (bcrypt_input password) salt) ≡ false
      → crypto.checkpw (bcrypt_input password) (crypto.hashpw (bcrypt_input password) salt)
        ≡ some true
      → verify_password password (some (crypto.hashpw (bcrypt_input password) salt)) ≡ true
  unfolding verify_password
  hashed_verifies full checks = rw full (rw (checks, verify_password) refl)

  -- A confirmed reset stores the bcrypt hash of the new password for the user, against which the password
  -- is verified from then on, sets the count of failures to zero, lifts a lock, changes nothing else of
  -- the user but the time of the update, and leaves the user without any session. A session carries the
  -- organization of its user, as its foreign key says; the hash is not empty, and bcrypt accepts the bytes
  -- that it was made of.
  pub confirm_reset_effect :
      (row : AuthToken) (user : User)
      → MayReset row user
      → All (λ s. s.user_id ≡ row.user_id → s.org_id ≡ row.org_id) db.sessions
      → is_empty (crypto.hashpw (bcrypt_input password) salt) ≡ false
      → crypto.checkpw (bcrypt_input password) (crypto.hashpw (bcrypt_input password) salt)
        ≡ some true
      → let after = (confirm_reset request salt token password db).0 in
        (find_user (scope_of row.org_id) row.user_id after
          ≡ some (record user {
            password_hash = some (crypto.hashpw (bcrypt_input password) salt);
            failed_login_count = 0;
            locked_until = none;
            updated_at = request.now;
          }))
        × (verify_password password (some (crypto.hashpw (bcrypt_input password) salt)) ≡ true)
        × All (λ s. s.user_id ≢ row.user_id) after.sessions
  unfolding hash_password
  confirm_reset_effect row user m fk full checks =
      let is = find_user-id (scope_of row.org_id) row.user_id db user m.1 in
      rw (resets row user m) (
        set_password-user row user m.1,
        hashed_verifies full checks,
        set_password-sessions row user is.0 fk,
      )
