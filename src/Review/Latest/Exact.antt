-- ===== src/Review/Latest/Exact.antt =====
-- The loop of `_latest_decision_per_field` and the sort behind it give the latest entries in order.
use mathlib.Core.Path.{subst}
use sustentra_platform.Prelude.{
  ℕ, ◌+◌, ◌≡◌, not, ◌<◌, refl, sym, ap, ◌∙◌, Bool, true, false, ◌&&◌, none, some, List, [], ◌∷◌,
  ◌++◌, filter, filter-append, filter-filter, filter-true, filter_congr, any_congr, All-of,
  append_assoc, append-nil, any, any-append, All, All-map, All-zip, All-append, arith, Bool-cases,
  Option-cases, inl, inr,
}
use sustentra_platform.Text.{Text, ◌==◌, eq_iff, eq_refl}
use sustentra_platform.Dict.{Dict, text_key, get, put, get-put}
use sustentra_platform.Review.Aggregate.{Entry}
use sustentra_platform.Review.Evidence.{
  is_later, keep_latest, latest_by_field, sort, latest_per_field,
}
use sustentra_platform.Review.Latest.{field, is_newer, has_newer, is_latest}
use sustentra_platform.Review.Latest.Sorting.{
  values, Below, other, Keyed, sort-put, put-All, put-Keyed, get-All, get-Keyed, some-none,
}
use sustentra_platform.Review.Latest.Turn.{
  later_flip, later_self, later_past, Wins, latest_won, latest_lost,
}

module _ {N R : Type 0} where
  -- The entry at the field of this one is no earlier.
  abbrev Newest : Dict (Entry N R) → Entry N R → Type 0
  Newest d e = (p : Entry N R) × (get (field e) d ≡ some p) × (is_later e p ≡ false)

  -- What the dictionary holds of the entries read so far, whose indexes are below a number.
  record Keeps (n : ℕ) (es : List (Entry N R)) (d : Dict (Entry N R)) : Type 0 where
    keyed : Keyed d
    below : All (λ e. e.index < n) es
    bound : All (λ e. e.index < n) (values d)
    newest : All (Newest d) es
    within :
        (k : Text) (p : Entry N R)
        → get k d ≡ some p
        → (f : Entry N R → Bool) → f p ≡ true
        → any f es ≡ true
    kept : (q : Entry N R → Bool) → sort (filter q (values d)) ≡ filter q (filter (is_latest es) es)

  none_Keeps : Keeps 0 [] []
  unfolding get
  none_Keeps = record {
    keyed = tt;
    below = tt;
    bound = tt;
    newest = tt;
    within = λ k p found f h. cc;
    kept = λ q. refl;
  }

  won_Newest :
      (x e : Entry N R) (d : Dict (Entry N R))
      → ((field x == field e) ≡ true → is_later x e ≡ true)
      → Newest d e
      → Newest (put (field x) x d) e
  won_Newest x e d wins (p, found, h) = elim (Bool-cases (field x == field e)) [
    | inl same ↦ (x, rw (get-put (field x) (field e) x d) (rw same), later_flip x e (wins same))
    | inr apart ↦ (p, rw (get-put (field x) (field e) x d) (rw apart found), h)
  ]

  won_Newest-self : (x : Entry N R) (d : Dict (Entry N R)) → Newest (put (field x) x d) x
  won_Newest-self x d =
      (x, rw (get-put (field x) (field x) x d) (rw (eq_refl (field x))), later_self x)

  won_Keeps :
      (n : ℕ) (x : Entry N R) (es : List (Entry N R)) (d : Dict (Entry N R))
      → x.index ≡ n
      → Wins x es
      → Keeps n es d
      → Keeps (n + 1) (es ++ x ∷ []) (put (field x) x d)
  won_Keeps n x es d at wins k = record {
    keyed = put-Keyed (field x) x d refl k.keyed;
    below =
        All-append _ es (x ∷ []) (All-map _ _ es (λ e h. omega arith) k.below) (omega arith, tt);
    bound =
        put-All _ (field x) x d (omega arith) (All-map _ _ (values d) (λ e h. omega arith) k.bound);
    newest =
        All-append _ es (x ∷ [])
          (All-map _ _ es (λ e h. won_Newest x e d h.0 h.1) (All-zip _ _ es wins k.newest))
          (won_Newest-self x d, tt);
    within = λ j p found f h. elim (Bool-cases (field x == j)) [
      | inl same ↦ ground (arith, any-append f es (x ∷ []), get-put (field x) j x d)
      | inr apart ↦
          let there : get j d ≡ some p = ground (arith, get-put (field x) j x d) in
          ground (arith, any-append f es (x ∷ []), k.within j p there f h)
    ];
    kept = λ q.
        let o = other (field x) in
        let latest = filter (is_latest es) es in
        let under = All-map _ (Below x) (values d) (λ e h. omega arith) k.bound in
        rw (latest_won x es wins) (
          rw (filter-append q (filter o latest) (x ∷ [])) (
            rw (filter-filter q o latest) (
              sort-put q (field x) x d refl k.keyed under
              ∙ ap (λ l. l ++ filter q (x ∷ [])) (k.kept (λ e. q e && o e)))));
  }

  lost_Keeps :
      (n : ℕ) (x p : Entry N R) (es : List (Entry N R)) (d : Dict (Entry N R))
      → x.index ≡ n
      → get (field x) d ≡ some p
      → is_later x p ≡ false
      → Keeps n es d
      → Keeps (n + 1) (es ++ x ∷ []) d
  lost_Keeps n x p es d at found lost k = record {
    keyed = k.keyed;
    below =
        All-append _ es (x ∷ []) (All-map _ _ es (λ e h. omega arith) k.below) (omega arith, tt);
    bound = All-map _ _ (values d) (λ e h. omega arith) k.bound;
    newest = All-append _ es (x ∷ []) k.newest ((p, found, lost), tt);
    within = λ j q there f h. ground (arith, any-append f es (x ∷ []), k.within j q there f h);
    kept = λ q.
        let under : Below x p =
          get-All (Below x) (field x) d {e = p}
            (All-map _ _ (values d) (λ e h. omega arith) k.bound) found in
        let own = get-Keyed (field x) d {e = p} k.keyed found in
        rw (latest_lost x p es under own lost (k.within (field x) p found)) (k.kept q);
  }

  -- No entry on the field of this one: it wins.
  fresh_Wins :
      (x : Entry N R) (es : List (Entry N R)) (d : Dict (Entry N R))
      → get (field x) d ≡ none
      → All (Newest d) es
      → Wins x es
  fresh_Wins x es d missing newest =
      All-map _ _ es
        (λ e h same.
          let at = (eq_iff (field x) (field e)).0 same in
          absurd (some-none (sym h.1 ∙ subst (λ m. get m d ≡ none) at missing)))
        newest

  -- An entry that is later than the one kept for its field wins.
  later_Wins :
      (n : ℕ) (x p : Entry N R) (es : List (Entry N R)) (d : Dict (Entry N R))
      → x.index ≡ n
      → get (field x) d ≡ some p
      → is_later x p ≡ true
      → All (λ e. e.index < n) es
      → All (Newest d) es
      → Wins x es
  later_Wins n x p es d at found later below newest =
      All-map _ _ es
        (λ e h same.
          let at_e = (eq_iff (field x) (field e)).0 same in
          let (q, there, not_later) = h.1 in
          let found_e : get (field e) d ≡ some p = subst (λ m. get m d ≡ some p) at_e found in
          let q_p : q ≡ p = ground arith in
          later_past x e p (omega arith) (subst (λ r. is_later e r ≡ false) q_p not_later) later)
        (All-zip _ _ es below newest)

  step_Keeps :
      (n : ℕ) (x : Entry N R) (es : List (Entry N R)) (d : Dict (Entry N R))
      → x.index ≡ n
      → Keeps n es d
      → Keeps (n + 1) (es ++ x ∷ []) (keep_latest x d)
  unfolding keep_latest
  step_Keeps n x es d at k = elim (Option-cases (get (field x) d)) [
    | inl missing ↦ rw missing (won_Keeps n x es d at (fresh_Wins x es d missing k.newest) k)
    | inr (p, found) ↦ elim (Bool-cases (is_later x p)) [
      | inl later ↦ rw found (
          rw later
            (won_Keeps n x es d at (later_Wins n x p es d at found later k.below k.newest) k))
      | inr lost ↦ rw found (rw lost (lost_Keeps n x p es d at found lost k))
    ]
  ]

  -- The indexes of a list count up from a number.
  abbrev pub Counts : ℕ → List (Entry N R) → Type 0
  Counts n [] = Unit
  Counts n (e ∷ es) = (e.index ≡ n) × Counts (n + 1) es

  loop_Keeps :
      (n : ℕ) (rest es : List (Entry N R)) (d : Dict (Entry N R))
      → Counts n rest
      → Keeps n es d
      → (m : ℕ) × Keeps m (es ++ rest) (latest_by_field rest d)
  unfolding latest_by_field
  loop_Keeps n [] es d counts k = (n, rw (append-nil es) k)
  loop_Keeps n (x ∷ rest) es d counts k =
      let (m, end) =
        loop_Keeps (n + 1) rest (es ++ x ∷ []) (keep_latest x d) counts.1
          (step_Keeps n x es d counts.0 k) in
      (m, rw (← append_assoc es (x ∷ []) rest) end)

  latest_loop :
      (es : List (Entry N R)) → Counts 0 es → latest_per_field es ≡ filter (is_latest es) es
  unfolding latest_per_field
  latest_loop es counts =
      let (m, k) = loop_Keeps 0 es [] [] counts none_Keeps in
      sym (ap sort (filter-true (values (latest_by_field es []))))
      ∙ (k.kept (λ e. true) ∙ filter-true (filter (is_latest es) es))

  newer_later : (f e : Entry N R) → is_later f e ≡ is_newer f e
  newer_later f e = ground arith

  latest_not_newer : (es : List (Entry N R)) (e : Entry N R) → is_latest es e ≡ not (has_newer es e)
  latest_not_newer es e =
      ap not (any_congr _ _ es (λ f. ap (λ b. field f == field e && b) (newer_later f e)))

  pub latest_per_field-filter :
      (es : List (Entry N R))
      → Counts 0 es
      → latest_per_field es ≡ filter (λ e. not (has_newer es e)) es
  latest_per_field-filter es counts =
      latest_loop es counts
      ∙ filter_congr (is_latest es) _ es (All-of _ es (λ e. latest_not_newer es e))
