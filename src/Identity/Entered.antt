-- ===== src/Identity/Entered.antt =====
-- The session of a login: whom its token stands for, and until when.
use sustentra_platform.Prelude.{
  ◌+◌, ◌≡◌, ◌≤◌, ◌<◌, refl, ap, ◌∙◌, true, false, none, some, List, is_empty, ltb, arith,
}
use sustentra_platform.Text.{◌==◌, eq_refl}
use sustentra_platform.Identity.Store.{save, find_version, get_by_id}
use sustentra_platform.Identity.StoreLaws.{find_version-save, get_by_id-save}
use sustentra_platform.Identity.Records.{
  Time, sustentra_user, Account, is_active, is_deleted_account, stored_account,
}
use sustentra_platform.Identity.State.{
  Repository, Call, found_as, actor_record, save_actor, write_event, write_own_event,
}
use sustentra_platform.Identity.Login.{new_session, issue_session, resolve_session}

get_by_id-own :
    (a : Account) (versions : List Account)
    → is_empty a.id ≡ false
    → is_deleted_account a ≡ false
    → get_by_id a.id (save a versions) ≡ some a
get_by_id-own a versions full kept =
    ap (λ f. f a.id) (get_by_id-save a versions full) ∙ rw (eq_refl a.id) (rw kept refl)

-- The account after a login.
abbrev pub visited : Time → Account → Account
visited now a = record a { last_login_at = some now; updated_at = now }

module _ (call : Call) (a : Account) (db : Repository) where
  abbrev after : Repository
  after = (issue_session call 0 (record { actor_type = sustentra_user; account = a }) db).0

  session_found :
      find_version (λ s. s.token == call.new_token) after.sessions
      ≡ some (new_session call 0 (record { actor_type = sustentra_user; account = a }))
  unfolding issue_session save_actor write_own_event write_event
  session_found = find_version-save _ _ db.sessions ∙ rw (eq_refl call.new_token) refl

  actor_found :
      is_empty a.id ≡ false
      → is_deleted_account a ≡ false
      → actor_record a.id sustentra_user after
        ≡ some (record { actor_type = sustentra_user; account = visited (call.clock 0) a })
  unfolding issue_session save_actor write_own_event write_event actor_record
  actor_found full kept =
      ap (found_as sustentra_user) (get_by_id-own (visited (call.clock 0) a) db.users full kept)

  -- For eight hours the token stands for the account.
  pub session_resolves :
      (soon : Time)
      → is_empty call.new_token ≡ false
      → is_empty a.id ≡ false
      → is_deleted_account a ≡ false
      → is_active a.status ≡ true
      → soon ≤ call.clock 0 + 28800000000
      → resolve_session call.new_token soon after
        ≡ some (record { actor_id = a.id; actor_type = sustentra_user; client_id = a.client_id })
  unfolding resolve_session
  session_resolves soon given full kept active early =
      let live : ltb (call.clock 0 + 28800000000) soon ≡ false = ground arith in
      rw (given, resolve_session)
        (rw (session_found, resolve_session)
          (rw (live, resolve_session)
            (rw (actor_found full kept, resolve_session) (rw active refl))))

  -- And then for nobody.
  pub session_ends :
      (late : Time)
      → is_empty call.new_token ≡ false
      → call.clock 0 + 28800000000 < late
      → resolve_session call.new_token late after ≡ none
  unfolding resolve_session
  session_ends late given over =
      let dead : ltb (call.clock 0 + 28800000000) late ≡ true = ground arith in
      rw (given, resolve_session)
        (rw (session_found, resolve_session) (rw (dead, resolve_session) refl))
