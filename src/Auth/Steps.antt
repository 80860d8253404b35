-- ===== src/Auth/Steps.antt =====
-- The requests that change the tables of the auth flows, as a step relation, and what they keep.
mod Keeps
mod KeepsChallenge
mod KeepsReset
use sustentra_platform.Prelude.{ℕ, ◌≢◌, Option, none, some, List, All}
use sustentra_platform.Text.{Text}
use sustentra_platform.Auth.Database.{Time, Scope, Database}
use sustentra_platform.Auth.Primitives.{Crypto}
use sustentra_platform.Auth.Audit.{RequestMeta}
use sustentra_platform.Auth.Outcome.{Request}
use sustentra_platform.Auth.Login.{start_login}
use sustentra_platform.Auth.Challenge.{verify_login, resend_code}
use sustentra_platform.Auth.PasswordReset.{create_reset_token, confirm_reset}
use sustentra_platform.Auth.CurrentUser.{CurrentUser, get_current_user, logout}
use sustentra_platform.Auth.Invariant.{IsWellFormed}
use Keeps.{start_login-IsWellFormed}
use KeepsChallenge.{verify_login-IsWellFormed, resend_code-IsWellFormed}
use KeepsReset.{
  create_reset_token-IsWellFormed, confirm_reset-IsWellFormed, get_current_user-IsWellFormed,
  logout-IsWellFormed,
}

-- The id that is drawn is not in the table.
abbrev pub IsNew : Request → Database → Type 0
IsNew request db = All (λ t. t.id ≢ request.new_uuid) db.auth_tokens

module _ ⦃crypto : Crypto⦄ where
  -- One transaction of the auth flows.
  pub data Step (db : Database) : Database → Type 0 where
    start :
        (request : Request) (email password : Text) (org_slug : Option Text)
        → IsNew request db
        → Step db (start_login request email password org_slug db).0
    enter_code :
        (request : Request) (challenge_id code : Text)
        → Step db (verify_login request challenge_id code db).0
    resend :
        (request : Request) (challenge_id : Text) → Step db (resend_code request challenge_id db).0
    ask_reset :
        (base : Text) (quote : Text → Text) (request : Request) (email : Text)
        (org_slug : Option Text)
        → IsNew request db
        → Step db (create_reset_token base quote request email org_slug db).0
    reset :
        (request : Request) (salt : List ℕ) (token password : Text)
        → Step db (confirm_reset request salt token password db).0
    visit : (cookie : Option Text) (now : Time) → Step db (get_current_user cookie now db).0
    leave :
        (meta : RequestMeta) (user : CurrentUser) (scope : Scope)
        → Step db (logout meta user scope db)

  pub data Reach (db : Database) : Database → Type 0 where
    here : Reach db db
    next : {db' db'' : Database} → Reach db db' → Step db' db'' → Reach db db''

  Step-IsWellFormed : {db db' : Database} → Step db db' → IsWellFormed db → IsWellFormed db'
  Step-IsWellFormed {db} (start request email password org_slug fresh) v =
      start_login-IsWellFormed request email password org_slug db fresh v
  Step-IsWellFormed {db} (enter_code request challenge_id code) v =
      verify_login-IsWellFormed request challenge_id code db v
  Step-IsWellFormed {db} (resend request challenge_id) v =
      resend_code-IsWellFormed request challenge_id db v
  Step-IsWellFormed {db} (ask_reset base quote request email org_slug fresh) v =
      create_reset_token-IsWellFormed base quote request email org_slug db fresh v
  Step-IsWellFormed {db} (reset request salt token password) v =
      confirm_reset-IsWellFormed request salt token password db v
  Step-IsWellFormed {db} (visit cookie now) v = get_current_user-IsWellFormed cookie now db v
  Step-IsWellFormed {db} (leave meta user scope) v = logout-IsWellFormed meta user scope db v

  -- After any requests, every user has less than five failures counted, every open challenge has less
  -- than three wrong codes counted since it was sent last and was sent again at most three times, the
  -- ids of the tokens are distinct, and no audit event has one of the keys password, otp, code, token,
  -- secret and authorization, in upper or lower case.
  pub Reach-IsWellFormed : {db db' : Database} → Reach db db' → IsWellFormed db → IsWellFormed db'
  Reach-IsWellFormed here v = v
  Reach-IsWellFormed (next r s) v = Step-IsWellFormed s (Reach-IsWellFormed r v)
