-- ===== src/Review/Latest/Sorting.antt =====
-- Sorting by index after one turn of the loop: the new entry goes to the end, and the one that it
-- replaces goes away.
use mathlib.Core.Path.{subst}
use sustentra_platform.Prelude.{
  ◌≡◌, ◌<◌, refl, sym, ◌∙◌, Bool, true, false, not, ◌&&◌, none, some, List, [], ◌∷◌, ◌++◌, map,
  filter, append-nil, All, filter-All, arith, ltb, Bool-cases, inl, inr,
}
use sustentra_platform.Text.{Text, ◌==◌, eq_iff}
use sustentra_platform.Dict.{Dict, text_key, get, put, get-put}
use sustentra_platform.Review.Aggregate.{Entry}
use sustentra_platform.Review.Evidence.{insert, sort}
use sustentra_platform.Review.Latest.{field}

pub some-none : {A : Type 0} {a : A} → ¬ (some a ≡ none)
some-none p = cc

module _ {N R : Type 0} where
  abbrev pub values : Dict (Entry N R) → List (Entry N R)
  values d = map (λ p. p.1) d

  abbrev pub Below : Entry N R → Entry N R → Type 0
  Below x e = e.index < x.index

  abbrev pub other : Text → Entry N R → Bool
  other k e = not (k == field e)

  -- Each entry stands at its field, and at no other place.
  abbrev pub Keyed : Dict (Entry N R) → Type 0
  Keyed [] = Unit
  Keyed ((k, e) ∷ d) = (field e ≡ k) × (get k d ≡ none) × Keyed d

  insert-last :
      (w x : Entry N R) (es : List (Entry N R))
      → Below x w
      → insert w (es ++ x ∷ []) ≡ insert w es ++ x ∷ []
  insert-last w x [] h = ground arith
  insert-last w x (e ∷ es) h = ground (arith, insert-last w x es h)

  insert_max :
      (x : Entry N R) (es : List (Entry N R)) → All (Below x) es → insert x es ≡ es ++ x ∷ []
  insert_max x [] h = refl
  insert_max x (e ∷ es) h = ground (arith, insert_max x es h.1)

  insert-All :
      (P : Entry N R → Type 0) (w : Entry N R) (es : List (Entry N R))
      → P w
      → All P es
      → All P (insert w es)
  insert-All P w [] p h = (p, tt)
  insert-All P w (e ∷ es) p h = elim (Bool-cases (ltb e.index w.index)) [
    | inl t ↦ rw t (h.0, insert-All P w es p h.1)
    | inr t ↦ rw t (p, h)
  ]

  sort-All : (P : Entry N R → Type 0) (es : List (Entry N R)) → All P es → All P (sort es)
  sort-All P [] h = tt
  sort-All P (e ∷ es) h = insert-All P e (sort es) h.0 (sort-All P es h.1)

  other_apart : (j k : Text) (e : Entry N R) → field e ≡ j → (j == k) ≡ false → other k e ≡ true
  other_apart j k e at apart = ground (arith, eq_iff j k, eq_iff k (field e))

  other_same : (j k : Text) (e : Entry N R) → field e ≡ j → (j == k) ≡ true → other k e ≡ false
  other_same j k e at same = ground (arith, eq_iff j k, eq_iff k (field e))

  absent :
      (k : Text) (q : Entry N R → Bool) (d : Dict (Entry N R))
      → get k d ≡ none
      → Keyed d
      → filter (λ e. q e && other k e) (values d) ≡ filter q (values d)
  unfolding get
  absent k q [] none_there h = refl
  absent k q ((j, e) ∷ d) none_there h = elim (Bool-cases (j == k)) [
    | inl same ↦ absurd (some-none (rw same at none_there))
    | inr apart ↦
        rw (other_apart j k e h.0 apart) (ground (arith, absent k q d (rw apart at none_there) h.2))
  ]

  -- One turn of the loop.
  pub sort-put :
      (q : Entry N R → Bool) (k : Text) (x : Entry N R) (d : Dict (Entry N R))
      → field x ≡ k
      → Keyed d
      → All (Below x) (values d)
      → sort (filter q (values (put k x d)))
        ≡ sort (filter (λ e. q e && other k e) (values d)) ++ filter q (x ∷ [])
  unfolding get put
  sort-put q k x [] at keyed below = ground arith
  sort-put q k x ((j, w) ∷ d) at keyed below = elim (Bool-cases (j == k)) [
    | inl same ↦
        let at_k : j ≡ k = (eq_iff j k).0 same in
        let gone : get k d ≡ none = subst (λ m. get m d ≡ none) at_k keyed.1 in
        let rest = absent k q d gone keyed.2 in
        let last =
          insert_max x (sort (filter q (values d)))
            (sort-All (Below x) _ (filter-All (Below x) q (values d) below.1)) in
        rw same (
          rw (other_same j k w keyed.0 same)
            (ground (arith, rest, last, append-nil (sort (filter q (values d))))))
    | inr apart ↦
        let rest = sort-put q k x d at keyed.2 below.1 in
        let behind = insert-last w x (sort (filter (λ e. q e && other k e) (values d))) below.0 in
        rw apart (
          rw (other_apart j k w keyed.0 apart) (
            ground (
              arith,
              rest,
              behind,
              append-nil (sort (filter (λ e. q e && other k e) (values d))),
              append-nil (insert w (sort (filter (λ e. q e && other k e) (values d)))),
            )))
  ]

  pub put-All :
      (P : Entry N R → Type 0) (k : Text) (x : Entry N R) (d : Dict (Entry N R))
      → P x
      → All P (values d)
      → All P (values (put k x d))
  unfolding put
  put-All P k x [] p h = (p, tt)
  put-All P k x ((j, w) ∷ d) p h = elim (Bool-cases (j == k)) [
    | inl e ↦ rw e (p, h.1)
    | inr e ↦ rw e (h.0, put-All P k x d p h.1)
  ]

  pub put-Keyed :
      (k : Text) (x : Entry N R) (d : Dict (Entry N R)) → field x ≡ k → Keyed d → Keyed (put k x d)
  unfolding get put
  put-Keyed k x [] at h = (at, refl, tt)
  put-Keyed k x ((j, w) ∷ d) at h = elim (Bool-cases (j == k)) [
    | inl same ↦ rw same (at ∙ sym ((eq_iff j k).0 same), h.1, h.2)
    | inr apart ↦
        rw apart
          (h.0, ground (arith, get-put k j x d, eq_iff j k, eq_iff k j), put-Keyed k x d at h.2)
  ]

  pub get-All :
      (P : Entry N R → Type 0) (k : Text) (d : Dict (Entry N R)) {e : Entry N R}
      → All P (values d)
      → get k d ≡ some e
      → P e
  unfolding get
  get-All P k [] {e = e} h found = cc
  get-All P k ((j, w) ∷ d) {e = e} h found = elim (Bool-cases (j == k)) [
    | inl same ↦ ground (arith, h.0)
    | inr apart ↦ get-All P k d {e = e} h.1 (rw apart at found)
  ]

  pub get-Keyed :
      (k : Text) (d : Dict (Entry N R)) {e : Entry N R} → Keyed d → get k d ≡ some e → field e ≡ k
  unfolding get
  get-Keyed k [] {e = e} h found = cc
  get-Keyed k ((j, w) ∷ d) {e = e} h found = ground (arith, eq_iff j k, get-Keyed k d {e = e} h.2)
