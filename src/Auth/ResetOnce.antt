-- ===== src/Auth/ResetOnce.antt =====
-- A reset token is used once.
use sustentra_platform.Prelude.{◌≡◌, refl, true, ◌&&◌, List, ℕ, some, arith, nat_eq}
use sustentra_platform.Text.{Text, ◌==◌}
use sustentra_platform.Auth.Table.{first_where-update}
use sustentra_platform.Auth.Database.{
  User, AuthToken, Database, scope_of, is_visible, is_password_reset, update_user, update_token,
  auth_resolve_reset_token,
}
use sustentra_platform.Auth.Primitives.{Crypto, hash_token}
use sustentra_platform.Auth.Audit.{write_audit_event}
use sustentra_platform.Auth.Session.{revoke_user_sessions}
use sustentra_platform.Auth.Outcome.{Request}
use sustentra_platform.Auth.Login.{audit_user, mark_consumed}
use sustentra_platform.Auth.PasswordReset.{invalid, set_password, confirm_reset}
use sustentra_platform.Auth.ResetLaws.{confirm_reset_iff, resets}
use sustentra_platform.Auth.SingleUse.{visible_self}

module _ ⦃crypto : Crypto⦄ where
  set_password-token :
      (request : Request) (salt : List ℕ) (hash password : Text) (row : AuthToken) (user : User)
      (db : Database)
      → auth_resolve_reset_token hash db ≡ some row
      → auth_resolve_reset_token hash (set_password request salt row user password db).0
        ≡ some (mark_consumed request.now row)
  unfolding set_password audit_user write_audit_event revoke_user_sessions update_user update_token
      auth_resolve_reset_token
  set_password-token request salt hash password row user db found =
      let p = λ (t : AuthToken). t.token_hash == hash && is_password_reset t.token_type in
      let q = λ (t : AuthToken). is_visible (scope_of row.org_id) t.org_id && nat_eq t.id row.id in
      let hit : q row ≡ true = ground (arith, visible_self row.org_id) in
      rw
        (first_where-update p q (mark_consumed request.now) db.auth_tokens (λ t. refl) {x = row}
          found)
        (rw hit)

  consumed_refused :
      (later : Request) (salt : List ℕ) (token password : Text) (db : Database) (row : AuthToken)
      (t : ℕ)
      → auth_resolve_reset_token (hash_token token) db ≡ some (mark_consumed t row)
      → confirm_reset later salt token password db ≡ (db, invalid)
  unfolding confirm_reset
  consumed_refused later salt token password db row t found = rw (found, confirm_reset)

  -- A reset token is good for one password: once it has confirmed a reset, the next request with it is
  -- refused, with any password and at any time, and changes nothing.
  pub reset_once :
      (request later : Request) (salt salt' : List ℕ) (token password password' : Text)
      (db : Database)
      → (confirm_reset request salt token password db).1.status ≡ 200
      → let after = (confirm_reset request salt token password db).0 in
        confirm_reset later salt' token password' after ≡ (after, invalid)
  reset_once request later salt salt' token password password' db h =
      let (row, user, m) = (confirm_reset_iff request salt token password db).0.0 h in
      rw (resets request salt token password db row user m) (
        consumed_refused later salt' token password' _ row request.now
          (set_password-token request salt (hash_token token) password row user db m.0.0))
