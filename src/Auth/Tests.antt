-- ===== src/Auth/Tests.antt =====
-- Runs of the auth flows, and the theorems at inputs that meet their hypotheses.
use sustentra_platform.Prelude.{
  ◌+◌, ◌≡◌, ◌≢◌, refl, ap, is_empty, true, false, none, some, [], ◌∷◌, arith, All,
}
use sustentra_platform.Prelude.Outcomes.{ok, error}
use sustentra_platform.Text.{lit, eq_refl, ◌==◌, strip, normalize}
use sustentra_platform.Auth.Table.{first_where}
use sustentra_platform.Auth.Database.{
  tenant, hours, days, org_member, find_user, auth_resolve_challenge, auth_resolve_reset_token,
  find_organization,
}
use sustentra_platform.Auth.Primitives.{
  verify_otp, verify_password, hash_otp, bcrypt_input, hash_token, validate_password, new_otp,
  is_common,
}
use sustentra_platform.Auth.Session.{joined, resolve_session, auth_resolve_session}
use sustentra_platform.Auth.Outcome.{fail, invalid_code, locked_response, lockout}
use sustentra_platform.Auth.Login.{find_slug, find_member, may_sign_in, start_login}
use sustentra_platform.Auth.Challenge.{verify_login}
use sustentra_platform.Auth.PasswordReset.{confirm_reset, invalid}
use sustentra_platform.Auth.CurrentUser.{unauthenticated, get_current_user}
use sustentra_platform.Auth.Invariant.{IsWellFormed}
use sustentra_platform.Auth.Samples.{
  plain, organization, user, challenge, reset_row, session, db, request_at,
}
use sustentra_platform.Auth.SignIn.{MayEnter, session_iff}
use sustentra_platform.Auth.SingleUse.{verify_once}
use sustentra_platform.Auth.Steps.{here, next, enter_code, Reach-IsWellFormed}
use sustentra_platform.Auth.PasswordStep.{CanSignIn, account, start_login_answers}
use sustentra_platform.Auth.Lockout.{attempt_all, locks_after_failures}
use sustentra_platform.Auth.Flow.{login_succeeds}
use sustentra_platform.Auth.ResetOnce.{reset_once}
use sustentra_platform.Auth.ResetLaws.{MayReset, confirm_reset_iff, confirm_reset_effect}
use sustentra_platform.Auth.Access.{LetsIn, user_of, access_iff}
use sustentra_platform.Auth.Stay.{stays_signed_in}

may_enter : MayEnter (request_at 5) (100 ∷ []) (lit " 000042 ") db challenge user
unfolding auth_resolve_challenge first_where find_user find_organization verify_otp hash_otp strip
    ◌==◌
may_enter = (100, refl, (refl, refl, refl, refl, omega arith), refl, refl, refl, refl)

session_iff_example :
    (verify_login (request_at 5) (100 ∷ []) (lit " 000042 ") db).1.session_token
    ≡ some (lit "fresh")
session_iff_example =
    (session_iff (request_at 5) (100 ∷ []) (lit " 000042 ") db).0.1 (challenge, user, may_enter)

verify_once_example :
    let after = (verify_login (request_at 5) (100 ∷ []) (lit " 000042 ") db).0 in
    verify_login (request_at 6) (100 ∷ []) (lit "000042") after ≡ (after, fail invalid_code)
verify_once_example =
    verify_once (request_at 5) (request_at 6) (100 ∷ []) (lit " 000042 ") (lit "000042") db
      (omega arith) session_iff_example

db-IsWellFormed : IsWellFormed db
db-IsWellFormed = record {
  users = omega arith;
  tokens = ground arith;
  tokens_distinct = omega arith;
  events = tt;
}

Reach-IsWellFormed_example :
    IsWellFormed (verify_login (request_at 5) (100 ∷ []) (lit "000041") db).0
Reach-IsWellFormed_example =
    Reach-IsWellFormed (next here (enter_code (request_at 5) (100 ∷ []) (lit "000041")))
      db-IsWellFormed

passes_step : account (lit " Ann@ACME.test") (some (lit "acme")) db ≡ some (some organization, user)
unfolding find_slug find_member first_where ◌==◌ normalize
passes_step = refl

can_sign_in : CanSignIn (lit "correct horse") (some organization) user
unfolding verify_password bcrypt_input ◌==◌
can_sign_in = (refl, refl, refl)

start_login_answers_example :
    (start_login
      (request_at 5)
      (lit " Ann@ACME.test")
      (lit "correct horse")
      (some (lit "acme"))
      db).1.status
    ≡ 200
start_login_answers_example =
    (start_login_answers (request_at 5) (lit " Ann@ACME.test") (lit "correct horse")
        (some (lit "acme")) db).0.1
      (some organization, user, passes_step, refl, can_sign_in)

wrong_password : may_sign_in (lit "wrong") (some organization) user ≡ false
unfolding verify_password bcrypt_input ◌==◌
wrong_password = refl

locks_after_failures_example :
    (start_login (request_at 20) (lit " Ann@ACME.test") (lit "correct horse") (some (lit "acme")) (
      attempt_all
        (lit " Ann@ACME.test")
        (some (lit "acme"))
        ((request_at 5, lit "wrong") ∷ (request_at 10, lit "wrong") ∷ [])
        db)).1
    ≡ locked_response (10 + lockout) 20
locks_after_failures_example =
    locks_after_failures (lit " Ann@ACME.test") (some (lit "acme")) (request_at 5, lit "wrong")
      ((request_at 10, lit "wrong") ∷ []) (some organization) user (request_at 20)
      (lit "correct horse") db passes_step refl
      ((wrong_password, refl), ((wrong_password, refl), tt)) (omega arith)

login_succeeds_example :
    let r =
      start_login
        (request_at 5)
        (lit " Ann@ACME.test")
        (lit "correct horse")
        (some (lit "acme"))
        db in
    let v = verify_login (request_at 60) (300 ∷ []) (new_otp 4711) r.0 in
    (r.1.otp_code ≡ some (new_otp 4711))
    × (v.1.session_token ≡ some (lit "fresh"))
    × ((get_current_user (some (lit "fresh")) (hours 8) v.0).1
        ≡ ok (record {
          id = 7;
          email = lit "ann@acme.test";
          role = org_member;
          org_id = some 1;
          org_slug = some (lit "acme");
          session_id = 301;
        }))
    × (get_current_user (some (lit "fresh")) (days 8) v.0 ≡ (v.0, error unauthenticated))
unfolding find_organization first_where
login_succeeds_example =
    login_succeeds (request_at 5) (lit " Ann@ACME.test") (lit "correct horse") (some (lit "acme"))
      db (omega arith) (omega arith) (request_at 60)
      (some organization, user, passes_step, refl, can_sign_in) (hours 8) (days 8) refl
      (omega arith) (omega arith) refl (omega arith) (omega arith) (omega arith)

may_reset : MayReset (request_at 5) [] (lit "tok") (lit "a long password") db reset_row user
unfolding auth_resolve_reset_token hash_token first_where find_user find_organization
    validate_password is_common ◌==◌ normalize
may_reset = ((refl, refl, omega arith), refl, refl, refl)

confirm_reset_iff_example :
    (confirm_reset (request_at 5) [] (lit "tok") (lit "a long password") db).1.status ≡ 200
confirm_reset_iff_example =
    (confirm_reset_iff (request_at 5) [] (lit "tok") (lit "a long password") db).0.1
      (reset_row, user, may_reset)

reset_confirmed :
    (confirm_reset (request_at 5) [] (lit "tok") (lit "a long password") db).1.status ≡ 200
reset_confirmed =
    (confirm_reset_iff (request_at 5) [] (lit "tok") (lit "a long password") db).0.1
      (reset_row, user, may_reset)

reset_once_example :
    let after = (confirm_reset (request_at 5) [] (lit "tok") (lit "a long password") db).0 in
    confirm_reset (request_at 9) [] (lit "tok") (lit "another password") after ≡ (after, invalid)
reset_once_example =
    reset_once (request_at 5) (request_at 9) [] [] (lit "tok") (lit "a long password")
      (lit "another password") db reset_confirmed

long_hash : is_empty (bcrypt_input (lit "a long password")) ≡ false
unfolding bcrypt_input
long_hash = refl

confirm_reset_effect_example :
    let after = (confirm_reset (request_at 5) [] (lit "tok") (lit "a long password") db).0 in
    (find_user (tenant 1) 7 after
      ≡ some (record user {
        password_hash = some (bcrypt_input (lit "a long password"));
        failed_login_count = 0;
        locked_until = none;
        updated_at = 5;
      }))
    × (verify_password (lit "a long password") (some (bcrypt_input (lit "a long password"))) ≡ true)
    × All (λ s. s.user_id ≢ 7) after.sessions
confirm_reset_effect_example =
    confirm_reset_effect (request_at 5) [] (lit "tok") (lit "a long password") db reset_row user
      may_reset ((λ e. refl), tt) long_hash
      (ap some (eq_refl (bcrypt_input (lit "a long password"))))

lets_in : LetsIn (lit "abc") refl (hours 1) db (joined session user db) user
unfolding resolve_session auth_resolve_session hash_token first_where find_user find_organization
    ◌==◌
lets_in = (refl, (refl, omega arith, omega arith, refl, refl), refl)

access_iff_example :
    (get_current_user (some (lit "abc")) (hours 1) db).1
    ≡ ok (user_of (joined session user db) user db)
access_iff_example =
    (access_iff (lit "abc") refl (hours 1) db (user_of (joined session user db) user db)).0.1
      (joined session user db, user, lets_in, refl)

stays_signed_in_example :
    let first = get_current_user (some (lit "abc")) (hours 1) db in
    (first.1 ≡ ok (user_of (joined session user db) user db))
    × ((get_current_user (some (lit "abc")) (hours 8) first.0).1
        ≡ ok (user_of (joined session user db) user db))
stays_signed_in_example =
    stays_signed_in (lit "abc") refl (hours 1) (hours 8) db (joined session user db) user lets_in
      (omega arith) (omega arith) (omega arith)
