-- ===== src/Identity/Stale.antt =====
-- An email that was changed is still a name to log in with.
use sustentra_platform.Prelude.{
  ◌≡◌, refl, ap, ◌∙◌, Bool, true, false, Option, none, some, List, arith, Option-cases, inl, inr,
}
use sustentra_platform.Prelude.Outcomes.{Result, ok, error, ok_inj, ◌>>=◌}
use sustentra_platform.Text.{Text, lit, normalize}
use sustentra_platform.Identity.Passwords.{Hashing, validate_password}
use sustentra_platform.Identity.Store.{save, find_latest}
use sustentra_platform.Identity.StoreLaws.{find_version-save}
use sustentra_platform.Identity.Records.{Account, stored_account}
use sustentra_platform.Identity.State.{
  Repository, Refusal, Call, Found, Actor, has_login, find_login_record, revoke_actor_sessions,
  write_event,
}
use sustentra_platform.Identity.Login.{issue_session, login_found, login}
use sustentra_platform.Identity.ClientUsers.{
  find_client_user, change_status, change_password, read_status, store_client_user,
  update_client_user, then_with, change_email, revoke_if, is_disabled,
}

-- A version is added to the users of clients, and no other user is.
abbrev IsStoredIn : Repository → Account → Repository → Type 0
IsStoredIn db a after = (after.users ≡ db.users) × (after.client_users ≡ save a db.client_users)

unseen :
    (needle : Text) (a : Account) (versions : List Account)
    → has_login needle a ≡ false
    → find_latest (has_login needle) (save a versions) ≡ find_latest (has_login needle) versions
unfolding find_latest
unseen needle a versions other =
    rw (find_version-save (has_login needle) a versions) (rw other refl)

same_record :
    (name : Text) (a : Account) (db after : Repository)
    → after.users ≡ db.users
    → after.client_users ≡ save a db.client_users
    → has_login (normalize name) a ≡ false
    → find_login_record name after ≡ find_login_record name db
unfolding find_login_record
same_record name a db after users client_users other =
    rw users (rw client_users (rw (unseen (normalize name) a db.client_users other) refl))

module _ ⦃hashing : Hashing⦄ where
  same_answer :
      (call : Call) (f : Found) (password : Text) (db after : Repository)
      → (login_found call f password after).1 ≡ (login_found call f password db).1
  unfolding login_found issue_session
  same_answer call f password db after = ground arith

  answers_alike :
      (call : Call) (name password : Text) (db after : Repository)
      → find_login_record name after ≡ find_login_record name db
      → (login call name password after).1 ≡ (login call name password db).1
  unfolding login
  answers_alike call name password db after e = go (find_login_record name db) refl
    where
      go :
          (o : Option Found)
          → find_login_record name db ≡ o
          → (login call name password after).1 ≡ (login call name password db).1
      go none known = rw (e ∙ known, login) (rw (known, login) refl)
      go (some f) known =
          rw (e ∙ known, login) (rw (known, login) (same_answer call f password db after))

  error-ok : {A : Type 0} {e : Refusal} {a : A} → ¬ (error e ≡ ok a)
  error-ok p = cc

  stored :
      (call : Call) (actor : Actor) (action : Text) (a : Account) (db : Repository) {s : Account}
      → (store_client_user call actor action a db).1 ≡ ok s
      → IsStoredIn db s (store_client_user call actor action a db).0
  unfolding store_client_user write_event
  stored call actor action a db {s = s} e = (refl, ap (λ x. save x db.client_users) (ok_inj e))

  abbrev finish :
      Call → Text → Actor → Option Text → Account → Repository → Repository × Result Refusal Account
  finish call id actor password b db =
      then_with (change_password call id password b db)
        (λ c db'. store_client_user call actor (lit "client_user.update") c db')

  finished :
      (call : Call) (id : Text) (actor : Actor) (password : Option Text) (b : Account)
      (db : Repository) {s : Account}
      → (finish call id actor password b db).1 ≡ ok s
      → IsStoredIn db s (finish call id actor password b db).0
  unfolding change_password revoke_actor_sessions
  finished call id actor none b db {s = s} e =
      stored call actor (lit "client_user.update") b db {s = s} e
  finished call id actor (some p) b db {s = s} e = elim (Option-cases (validate_password p)) [
    | inl bad ↦ absurd (error-ok (rw (bad, change_password) at e))
    | inr (q, good) ↦
        rw (good, change_password)
          (stored call actor (lit "client_user.update") _
            (revoke_actor_sessions (call.clock 1) id db) {s = s} (rw (good, change_password) at e))
  ]

  revoke_if-users :
      (b : Bool) (call : Call) (id : Text) (db : Repository)
      → ((revoke_if b call id db).users ≡ db.users)
        × ((revoke_if b call id db).client_users ≡ db.client_users)
  unfolding revoke_actor_sessions
  revoke_if-users true call id db = (refl, refl)
  revoke_if-users false call id db = (refl, refl)

  abbrev proceed :
      Call
      → Text
      → Actor
      → Option Text
      → Option Text
      → Account
      → Repository
      → Repository × Result Refusal Account
  proceed call id actor status password a db =
      then_with (change_status call id status a db) (λ b db'. finish call id actor password b db')

  proceeded :
      (call : Call) (id : Text) (actor : Actor) (status password : Option Text) (a : Account)
      (db : Repository) {s : Account}
      → (proceed call id actor status password a db).1 ≡ ok s
      → IsStoredIn db s (proceed call id actor status password a db).0
  unfolding change_status
  proceeded call id actor none password a db {s = s} e =
      finished call id actor password a db {s = s} e
  proceeded call id actor (some t) password a db {s = s} e = elim (Option-cases (read_status t)) [
    | inl bad ↦ absurd (error-ok (rw (bad, change_status) at e))
    | inr (u, good) ↦
        let changed : Account = record a { status = u } in
        let kept = revoke_if-users (is_disabled u) call id db in
        let (users, client_users) =
          finished call id actor password changed (revoke_if (is_disabled u) call id db) {s = s}
            (rw (good, change_status) at e) in
        rw (good, change_status) (users ∙ kept.0, client_users ∙ ap (save s) kept.1)
  ]

  updated :
      (call : Call) (client_id id : Text) (actor : Actor) (email status password : Option Text)
      (db : Repository) {s : Account} (o : Result Refusal Account)
      → (find_client_user client_id id actor db >>= λ a. change_email id email a db) ≡ o
      → (update_client_user call client_id id actor email status password db).1 ≡ ok s
      → IsStoredIn db s (update_client_user call client_id id actor email status password db).0
  unfolding update_client_user
  updated call client_id id actor email status password db {s = s} (error r) found e =
      absurd (error-ok (rw (found, update_client_user) at e))
  updated call client_id id actor email status password db {s = s} (ok a) found e =
      rw (found, update_client_user)
        (proceeded call id actor status password a db {s = s} (rw (found, update_client_user) at e))

  -- After an update of a client's user, a login by a text that is neither the name nor the email of the
  -- record that was stored is answered as before the update: also by the old email, with the old
  -- password, of a user who was disabled by it.
  pub old_email_signs_in :
      (call later : Call) (client_id id : Text) (actor : Actor)
      (email status password : Option Text) (name old_password : Text) (db : Repository)
      {s : Account}
      → (update_client_user call client_id id actor email status password db).1 ≡ ok s
      → has_login (normalize name) s ≡ false
      → let after = (update_client_user call client_id id actor email status password db).0 in
        (login later name old_password after).1 ≡ (login later name old_password db).1
  old_email_signs_in call later client_id id actor email status password name old_password db
        {s = s} done other =
      let after = (update_client_user call client_id id actor email status password db).0 in
      let (users, client_users) =
        updated call client_id id actor email status password db {s = s} _ refl done in
      answers_alike later name old_password db after
        (same_record name s db after users client_users other)
