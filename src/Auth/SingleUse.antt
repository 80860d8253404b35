-- ===== src/Auth/SingleUse.antt =====
-- A challenge is used once.
use sustentra_platform.Prelude.{
  filter-All, ◌≡◌, refl, sym, ◌∙◌, true, ◌&&◌, Option, none, some, arith, All, nat_eq, is_some,
  Option-cases, inl, inr,
}
use mathlib.Core.Path.{subst}
use sustentra_platform.Text.{Text}
use sustentra_platform.Auth.Table.{
  first_where-All, update_where, delete_where, Distinct, update_hits,
}
use sustentra_platform.Auth.Database.{
  Uuid, User, AuthToken, Database, scope_of, is_visible, auth_resolve_challenge, update_token,
  update_user, purge_expired_auth_rows,
}
use sustentra_platform.Auth.Primitives.{Crypto}
use sustentra_platform.Auth.Audit.{write_audit_event}
use sustentra_platform.Auth.Session.{create_session}
use sustentra_platform.Auth.Outcome.{Request, fail, invalid_code}
use sustentra_platform.Auth.Login.{mark_consumed, audit_user}
use sustentra_platform.Auth.Challenge.{usable, load_challenge, sign_in, verify_login}
use sustentra_platform.Auth.Lookup.{usable-IsOpen}
use sustentra_platform.Auth.SignIn.{session_iff, enter}

abbrev IsSpent : AuthToken → Type 0
IsSpent t = is_some t.consumed_at ≡ true

-- Every row of this id is used.
abbrev pub AreSpent : Uuid → Database → Type 0
AreSpent k db = All (λ t. t.id ≡ k → IsSpent t) db.auth_tokens

pub visible_self : (org_id : Option Uuid) → is_visible (scope_of org_id) org_id ≡ true
visible_self none = refl
visible_self (some k) = ground arith

module _ ⦃crypto : Crypto⦄ where
  sign_in-AreSpent :
      (request : Request) (k : Uuid) (challenge : AuthToken) (user : User) (db : Database)
      → Distinct (λ t. t.id) db.auth_tokens
      → auth_resolve_challenge k db ≡ some challenge
      → challenge.id ≡ k
      → AreSpent k (sign_in request (scope_of challenge.org_id) challenge user db).0
  unfolding sign_in audit_user write_audit_event purge_expired_auth_rows delete_where create_session
      update_user update_token auth_resolve_challenge
  sign_in-AreSpent request k challenge user db distinct found same = filter-All _ _ _ (
      subst
        (λ m.
          All (λ t. t.id ≡ k → IsSpent t)
            (update_where (λ t. is_visible (scope_of challenge.org_id) t.org_id && nat_eq t.id m)
              (mark_consumed request.now) db.auth_tokens))
        (sym same)
        (update_hits (λ t. t.id) IsSpent k (λ t. is_visible (scope_of challenge.org_id) t.org_id)
          (mark_consumed request.now) db.auth_tokens {x = challenge} distinct found
          (visible_self challenge.org_id) refl))

  spent_refused :
      (request : Request) (challenge_id code : Text) (k : Uuid) (db : Database)
      → crypto.parse_uuid challenge_id ≡ some k
      → AreSpent k db
      → verify_login request challenge_id code db ≡ (db, fail invalid_code)
  unfolding verify_login auth_resolve_challenge
  spent_refused request challenge_id code k db parsed spent =
      elim (Option-cases (usable (load_challenge challenge_id db) request.now)) [
        | inl e ↦ rw (e, verify_login)
        | inr (t, e) ↦
            let (j, parsed', read) = usable-IsOpen challenge_id db request.now t e in
            let same : j ≡ k = ground arith in
            let used =
              first_where-All (λ t'. t'.id ≡ k → IsSpent t') _ db.auth_tokens {x = t} spent
                read.0 in
            absurd (ground (arith, used (read.1 ∙ same)))
      ]

  -- A challenge is good for one session: once it has let somebody in, the next request with it is
  -- refused, with any code and at any time, and changes nothing.
  pub verify_once :
      (request later : Request) (challenge_id code code' : Text) (db : Database)
      → Distinct (λ t. t.id) db.auth_tokens
      → (verify_login request challenge_id code db).1.session_token ≡ some request.new_token
      → let after = (verify_login request challenge_id code db).0 in
        verify_login later challenge_id code' after ≡ (after, fail invalid_code)
  verify_once request later challenge_id code code' db distinct h =
      let (challenge, user, m) = (session_iff request challenge_id code db).0.0 h in
      rw (enter request challenge_id code db challenge user m) (
        spent_refused later challenge_id code' m.0 _ m.1
          (sign_in-AreSpent request m.0 challenge user db distinct m.2.0 m.2.1))
