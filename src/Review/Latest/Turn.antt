-- ===== src/Review/Latest/Turn.antt =====
-- What one more entry does to the latest entries of a list.
use sustentra_platform.Prelude.{
  ◌≡◌, Bool, true, false, not, ◌&&◌, List, [], ◌∷◌, ◌++◌, filter, filter-append, filter-filter,
  filter_congr, any, any-append, any-none, append-nil, All, All-map, All-of, arith,
}
use sustentra_platform.Text.{◌==◌, eq_iff}
use sustentra_platform.Review.Aggregate.{Entry}
use sustentra_platform.Review.Evidence.{is_later}
use sustentra_platform.Review.Latest.{field, supersedes, is_latest}
use sustentra_platform.Review.Latest.Sorting.{other, Below}

module _ {N R : Type 0} where
  -- The order of time, and of the index at the same time.
  pub later_flip : (a b : Entry N R) → is_later a b ≡ true → is_later b a ≡ false
  later_flip a b h = ground arith

  pub later_self : (a : Entry N R) → is_later a a ≡ false
  later_self a = ground arith

  pub later_first : (x e : Entry N R) → Below x e → is_later x e ≡ false → is_later e x ≡ true
  later_first x e b h = ground arith

  pub later_past :
      (x e p : Entry N R)
      → Below x e
      → is_later e p ≡ false
      → is_later x p ≡ true
      → is_later x e ≡ true
  later_past x e p b h k = ground arith

  later_between :
      (x e p : Entry N R)
      → Below x p
      → is_later x p ≡ false
      → is_later x e ≡ true
      → is_later p e ≡ true
  later_between x e p b h k = ground arith

  -- The entry is later than all entries on its field.
  abbrev pub Wins : Entry N R → List (Entry N R) → Type 0
  Wins x es = All (λ e. (field x == field e) ≡ true → is_later x e ≡ true) es

  latest-append :
      (x e : Entry N R) (es : List (Entry N R))
      → is_latest (es ++ x ∷ []) e ≡ (is_latest es e && not (supersedes x e))
  latest-append x e es = ground (arith, any-append (λ f. supersedes f e) es (x ∷ []))

  wins_once :
      (x e : Entry N R) (es : List (Entry N R))
      → ((field x == field e) ≡ true → is_later x e ≡ true)
      → is_latest (es ++ x ∷ []) e ≡ (other (field x) e && is_latest es e)
  wins_once x e es w = ground (arith, latest-append x e es)

  Wins-stays :
      (x : Entry N R) (es : List (Entry N R)) → Wins x es → is_latest (es ++ x ∷ []) x ≡ true
  Wins-stays x es w =
      let none_later : any (λ f. supersedes f x) es ≡ false = any-none _ es (
        All-map _ _ es
          (λ e h.
            ground (arith, eq_iff (field e) (field x), eq_iff (field x) (field e), later_flip x e))
          w) in
      ground (arith, latest-append x x es, later_self x)

  -- An entry that wins takes the place of the one on its field.
  pub latest_won :
      (x : Entry N R) (es : List (Entry N R))
      → Wins x es
      → filter (is_latest (es ++ x ∷ [])) (es ++ x ∷ [])
        ≡ filter (other (field x)) (filter (is_latest es) es) ++ x ∷ []
  latest_won x es w = rw (filter-append (is_latest (es ++ x ∷ [])) es (x ∷ [])) (
      rw
        (filter_congr _ (λ e. other (field x) e && is_latest es e) es
          (All-map _ _ es (λ e h. wins_once x e es h) w))
        (rw (filter-filter (other (field x)) (is_latest es) es) (rw (Wins-stays x es w))))

  lost_same :
      (x p e : Entry N R) (es : List (Entry N R))
      → Below x p
      → field p ≡ field x
      → is_later x p ≡ false
      → ((f : Entry N R → Bool) → f p ≡ true → any f es ≡ true)
      → is_latest (es ++ x ∷ []) e ≡ is_latest es e
  lost_same x p e es bound at lost within = ground (
    arith,
    latest-append x e es,
    within (λ f. supersedes f e),
    later_between x e p bound lost,
    eq_iff (field x) (field e),
    eq_iff (field p) (field e),
  )

  lost_falls :
      (x p : Entry N R) (es : List (Entry N R))
      → Below x p
      → field p ≡ field x
      → is_later x p ≡ false
      → ((f : Entry N R → Bool) → f p ≡ true → any f es ≡ true)
      → is_latest (es ++ x ∷ []) x ≡ false
  lost_falls x p es bound at lost within = ground (
    arith,
    latest-append x x es,
    within (λ f. supersedes f x),
    later_first x p bound lost,
    eq_iff (field p) (field x),
  )

  -- An entry that loses to one of the list changes nothing.
  pub latest_lost :
      (x p : Entry N R) (es : List (Entry N R))
      → Below x p
      → field p ≡ field x
      → is_later x p ≡ false
      → ((f : Entry N R → Bool) → f p ≡ true → any f es ≡ true)
      → filter (is_latest (es ++ x ∷ [])) (es ++ x ∷ []) ≡ filter (is_latest es) es
  latest_lost x p es bound at lost within =
      rw (filter-append (is_latest (es ++ x ∷ [])) es (x ∷ [])) (
        rw
          (filter_congr _ (is_latest es) es
            (All-of _ es (λ e. lost_same x p e es bound at lost within)))
          (rw (lost_falls x p es bound at lost within) (append-nil (filter (is_latest es) es))))
