-- ===== src/Identity/Revoked.antt =====
-- After `_revoke_actor_sessions` no session of the actor stands for anybody.
use mathlib.Core.Path.{subst}
use sustentra_platform.Prelude.{
  ◌≡◌, refl, ap, ◌∙◌, Bool, true, false, not, ◌&&◌, ◌||◌, Option, none, some, List, [], ◌∷◌, any,
  any-append, is_some, is_empty, All, All-append, All-map, arith, Bool-cases, Option-cases, inl,
  inr, ◌⊎◌,
}
use sustentra_platform.Text.{Text, ◌==◌, eq_iff}
use sustentra_platform.Identity.Store.{save, find_version}
use sustentra_platform.Identity.StoreLaws.{
  find_version-save, find_version-All, find_version_congr, find_version-none, find_version-holds,
}
use sustentra_platform.Identity.Records.{Time, SessionRecord}
use sustentra_platform.Identity.State.{
  Repository, revoke, revoke_session, has_text, revoke_each, reversed, revoke_actor_sessions,
}
use sustentra_platform.Identity.Login.{live_session, resolve_session}

any-reversed : {A : Type 0} (p : A → Bool) (xs : List A) → any p (reversed xs) ≡ any p xs
any-reversed p [] = refl
any-reversed p (x ∷ xs) = ground (arith, any-append p (reversed xs) (x ∷ []), any-reversed p xs)

abbrev of_id : Text → SessionRecord → Bool
of_id i s = s.session_id == i

-- The last version of a session, if there is one, is revoked.
abbrev IsRevoked : Option SessionRecord → Type 0
IsRevoked none = Unit
IsRevoked (some s) = is_some s.revoked_at ≡ true

abbrev Revoked : Text → List SessionRecord → Type 0
Revoked i sessions = IsRevoked (find_version (of_id i) sessions)

saved-Revoked :
    (now : Time) (i : Text) (s : SessionRecord) (sessions : List SessionRecord)
    → Revoked i sessions
    → Revoked i (save (revoke now s) sessions)
saved-Revoked now i s sessions h = elim (Bool-cases (of_id i (revoke now s))) [
  | inl own ↦ rw (find_version-save (of_id i) (revoke now s) sessions) (rw own refl)
  | inr other ↦ rw (find_version-save (of_id i) (revoke now s) sessions) (rw other h)
]

turn-Revoked :
    (now : Time) (i : Text) (sessions : List SessionRecord)
    → Revoked i (revoke_session now i sessions)
unfolding revoke_session
turn-Revoked now i sessions = elim (Option-cases (find_version (of_id i) sessions)) [
  | inl e ↦ rw (e, revoke_session) (rw e tt)
  | inr (s, e) ↦ elim (Option-cases s.revoked_at) [
    | inl open_yet ↦
        rw (e, revoke_session)
          (rw open_yet (
            rw (find_version-save (of_id i) (revoke now s) sessions)
              (rw (find_version-holds (of_id i) sessions {r = s} e) refl)))
    | inr (t, closed) ↦ rw (e, revoke_session) (rw closed (rw e (rw closed refl)))
  ]
]

turn-keeps :
    (now : Time) (i j : Text) (sessions : List SessionRecord)
    → Revoked i sessions
    → Revoked i (revoke_session now j sessions)
unfolding revoke_session
turn-keeps now i j sessions h = elim (Option-cases (find_version (of_id j) sessions)) [
  | inl e ↦ rw (e, revoke_session) h
  | inr (s, e) ↦ elim (Option-cases s.revoked_at) [
    | inl open_yet ↦ rw (e, revoke_session) (rw open_yet (saved-Revoked now i s sessions h))
    | inr (t, closed) ↦ rw (e, revoke_session) (rw closed h)
  ]
]

seen-holds :
    (P : Text → Type 0) (t : Text) (seen : List Text) → All P seen → has_text t seen ≡ true → P t
seen-holds P t [] h e = absurd (ground arith)
seen-holds P t (s ∷ seen) h e = elim (Bool-cases (s == t)) [
  | inl same ↦ subst P ((eq_iff s t).0 same) h.0
  | inr other ↦ seen-holds P t seen h.1 (ground arith)
]

each-Revoked :
    (now : Time) (k i : Text) (versions : List SessionRecord) (seen : List Text)
    (sessions : List SessionRecord)
    → All (λ j. Revoked j sessions) seen
    → (Revoked i sessions) ⊎ (any (λ s. s.actor_id == k && of_id i s) versions ≡ true)
    → Revoked i (revoke_each now k versions seen sessions)
unfolding revoke_each
each-Revoked now k i [] seen sessions h (inl r) = r
each-Revoked now k i [] seen sessions h (inr e) = absurd (ground arith)
each-Revoked now k i (s ∷ versions) seen sessions h c =
    elim (Bool-cases (not (s.actor_id == k) || has_text s.session_id seen)) [
      | inl skip ↦
          rw (skip, revoke_each)
            (each-Revoked now k i versions seen sessions h (elim c [
              | inl r ↦ inl r
              | inr e ↦ elim (Bool-cases (s.actor_id == k && of_id i s)) [
                | inl own ↦ inl (
                    subst (λ j. Revoked j sessions) ((eq_iff s.session_id i).0 (ground arith))
                      (seen-holds _ s.session_id seen h (ground arith)))
                | inr other ↦ inr (ground arith)
              ]
            ]))
      | inr turn ↦
          rw (turn, revoke_each)
            (each-Revoked now k i versions (s.session_id ∷ seen)
              (revoke_session now s.session_id sessions)
              (
                turn-Revoked now s.session_id sessions,
                All-map _ _ seen (λ j r. turn-keeps now j s.session_id sessions r) h,
              )
              (elim c [
                | inl r ↦ inl (turn-keeps now i s.session_id sessions r)
                | inr e ↦ elim (Bool-cases (s.actor_id == k && of_id i s)) [
                  | inl own ↦ inl (
                      subst (λ j. Revoked j (revoke_session now s.session_id sessions))
                        ((eq_iff s.session_id i).0 (ground arith))
                        (turn-Revoked now s.session_id sessions))
                  | inr other ↦ inr (ground arith)
                ]
              ]))
    ]

-- A session of this id has this token and belongs to this actor, and a session of another id has
-- another token.
abbrev pub IsSession : Text → Text → Text → SessionRecord → Type 0
IsSession i t k s = ((s.token == t) ≡ of_id i s) × (of_id i s ≡ true → (s.actor_id == k) ≡ true)

turn-All :
    (now : Time) (j : Text) (P : SessionRecord → Type 0) (sessions : List SessionRecord)
    → ((s : SessionRecord) → P s → P (revoke now s))
    → All P sessions
    → All P (revoke_session now j sessions)
unfolding revoke_session
turn-All now j P sessions keeps h = elim (Option-cases (find_version (of_id j) sessions)) [
  | inl e ↦ rw (e, revoke_session) h
  | inr (s, e) ↦ elim (Option-cases s.revoked_at) [
    | inl open_yet ↦
        rw (e, revoke_session)
          (rw open_yet (
            All-append P sessions _ h
              (keeps s (find_version-All P (of_id j) sessions {r = s} h e), tt)))
    | inr (t, closed) ↦ rw (e, revoke_session) (rw closed h)
  ]
]

each-All :
    (now : Time) (k : Text) (P : SessionRecord → Type 0) (versions : List SessionRecord)
    (seen : List Text) (sessions : List SessionRecord)
    → ((s : SessionRecord) → P s → P (revoke now s))
    → All P sessions
    → All P (revoke_each now k versions seen sessions)
unfolding revoke_each
each-All now k P [] seen sessions keeps h = h
each-All now k P (s ∷ versions) seen sessions keeps h =
    elim (Bool-cases (not (s.actor_id == k) || has_text s.session_id seen)) [
      | inl skip ↦ rw (skip, revoke_each) (each-All now k P versions seen sessions keeps h)
      | inr turn ↦
          rw (turn, revoke_each)
            (each-All now k P versions _ _ keeps (turn-All now s.session_id P sessions keeps h))
    ]

no_own_none :
    (i t k : Text) (versions : List SessionRecord)
    → All (IsSession i t k) versions
    → any (λ s. s.actor_id == k && of_id i s) versions ≡ false
    → any (of_id i) versions ≡ false
no_own_none i t k [] h e = refl
no_own_none i t k (s ∷ versions) h e = ground (arith, no_own_none i t k versions h.1, h.0.1)

-- Every session of the actor is revoked.
pub revoke_actor_sessions-Revoked :
    (now : Time) (i t k : Text) (db : Repository)
    → All (IsSession i t k) db.sessions
    → Revoked i (revoke_actor_sessions now k db).sessions
unfolding revoke_actor_sessions
revoke_actor_sessions-Revoked now i t k db h =
    each-Revoked now k i (reversed db.sessions) [] db.sessions tt
      (elim (Bool-cases (any (λ s. s.actor_id == k && of_id i s) db.sessions)) [
        | inl there ↦ inr (rw (any-reversed (λ s. s.actor_id == k && of_id i s) db.sessions) there)
        | inr gone ↦
            inl (
              rw (find_version-none (of_id i) db.sessions (no_own_none i t k db.sessions h gone))
                tt)
      ])

revoked-live : (o : Option SessionRecord) (now : Time) → IsRevoked o → live_session o now ≡ none
revoked-live none now h = refl
revoked-live (some s) now h = rw h

-- Once the sessions of an actor are revoked, the token of a session of the actor stands for nobody, at
-- any time and whatever the other tables hold.
pub revoked_stands_for_nobody :
    (now later : Time) (i t k : Text) (db after : Repository)
    → All (IsSession i t k) db.sessions
    → after.sessions ≡ (revoke_actor_sessions now k db).sessions
    → resolve_session t later after ≡ none
unfolding resolve_session revoke_actor_sessions
revoked_stands_for_nobody now later i t k db after h same =
    let left =
      each-All now k (IsSession i t k) (reversed db.sessions) [] db.sessions (λ s p. p) h in
    let by_token =
      find_version_congr (λ s. s.token == t) (of_id i) _ (All-map _ _ _ (λ s p. p.0) left) in
    let gone = revoked-live _ later (revoke_actor_sessions-Revoked now i t k db h) in
    let live : live_session (find_version (λ s. s.token == t) after.sessions) later ≡ none =
      ap (λ l. live_session (find_version (λ (s : SessionRecord). s.token == t) l) later) same
      ∙ (ap (λ o. live_session o later) by_token ∙ gone) in
    elim (Bool-cases (is_empty t)) [
      | inl blank ↦ rw (blank, resolve_session) refl
      | inr full ↦ rw full (rw (live, resolve_session) refl)
    ]
