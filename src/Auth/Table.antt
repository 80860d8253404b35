-- ===== src/Auth/Table.antt =====
-- The statements of SQL that the auth flows use on a table, as a list of rows: SELECT with `.first()`,
-- UPDATE and DELETE with a WHERE clause; and what they keep of a table whose rows have distinct ids.
use mathlib.Core.Path.{subst, sym}
use sustentra_platform.Prelude.{
  filter-All, ℕ, ◌≡◌, ◌≢◌, refl, Bool, true, false, not, Option, none, some, List, [], ◌∷◌, ◌&&◌,
  arith, filter, All, nat_eq, if◌then◌else◌, Bool-cases, inl, inr,
}

pub if-holds {ℓ κ} :
    {A : Type ℓ} (P : A → Type κ) (b : Bool) (x y : A)
    → (b ≡ true → P x)
    → (b ≡ false → P y)
    → P (if b then x else y)
if-holds P true x y h k = h refl
if-holds P false x y h k = k refl

module _ {A : Type 0} where
  -- `SELECT … WHERE`, `.mappings().first()`
  unfoldable pub first_where : (A → Bool) → List A → Option A
  first_where p [] = none
  first_where p (x ∷ xs) = if p x then some x else first_where p xs

  -- `UPDATE … SET … WHERE`
  unfoldable pub update_where : (A → Bool) → (A → A) → List A → List A
  update_where p f [] = []
  update_where p f (x ∷ xs) = (if p x then f x else x) ∷ update_where p f xs

  -- `DELETE … WHERE`
  unfoldable pub delete_where : (A → Bool) → List A → List A
  delete_where p xs = filter (λ x. not (p x)) xs

  pub first_where-holds :
      (p : A → Bool) (xs : List A) {x : A} → first_where p xs ≡ some x → p x ≡ true
  unfolding first_where
  first_where-holds p [] {x = y} h = cc
  first_where-holds p (x ∷ xs) {x = y} h = ground (arith, first_where-holds p xs {x = y})

  pub first_where-All {κ} :
      (P : A → Type κ) (p : A → Bool) (xs : List A) {x : A}
      → All P xs
      → first_where p xs ≡ some x
      → P x
  unfolding first_where
  first_where-All P p [] {x = y} h e = cc
  first_where-All P p (x ∷ xs) {x = y} h e = elim (Bool-cases (p x)) [
    | inl t ↦ let same : x ≡ y = ground arith in subst P same h.0
    | inr t ↦ first_where-All P p xs h.1 (rw t at e)
  ]

  pub update_where-All {κ} :
      (P : A → Type κ) (p : A → Bool) (f : A → A) (xs : List A)
      → ((x : A) → P x → P (f x))
      → All P xs
      → All P (update_where p f xs)
  unfolding update_where
  update_where-All P p f [] k h = tt
  update_where-All P p f (x ∷ xs) k h = elim (Bool-cases (p x)) [
    | inl t ↦ rw t (k x h.0, update_where-All P p f xs k h.1)
    | inr t ↦ rw t (h.0, update_where-All P p f xs k h.1)
  ]

-- The rows of a table have distinct ids.
abbrev pub Distinct : {A : Type 0} → (A → ℕ) → List A → Type 0
Distinct key [] = Unit
Distinct key (x ∷ xs) = All (λ y. key y ≢ key x) xs × Distinct key xs

-- `WHERE id = :id`
abbrev pub has_id : {A : Type 0} → (A → ℕ) → ℕ → A → Bool
has_id key k x = nat_eq (key x) k

module _ {A : Type 0} (key : A → ℕ) where
  pub update_absent :
      (k : ℕ) (q : A → Bool) (f : A → A) (xs : List A)
      → All (λ y. key y ≢ k) xs
      → update_where (λ y. q y && nat_eq (key y) k) f xs ≡ xs
  unfolding update_where
  update_absent k q f [] h = refl
  update_absent k q f (x ∷ xs) h = ground (arith, update_absent k q f xs h.1)

  absent-All :
      (P : A → Type 0) (k : ℕ) (xs : List A)
      → All (λ y. key y ≢ k) xs
      → All (λ y. key y ≡ k → P y) xs
  absent-All P k [] h = tt
  absent-All P k (x ∷ xs) h = (λ e. absurd (h.0 e), absent-All P k xs h.1)

  -- An update of the row that was read is right for all rows, if it is for that one.
  pub update_found :
      (P : A → Type 0) (k : ℕ) (q : A → Bool) (f : A → A) (xs : List A) {x : A}
      → Distinct key xs
      → first_where (has_id key k) xs ≡ some x
      → All P xs
      → P (f x)
      → All P (update_where (λ y. q y && nat_eq (key y) k) f xs)
  unfolding update_where first_where
  update_found P k q f [] {x = y} d e h t = tt
  update_found P k q f (x ∷ xs) {x = y} d e h t = elim (Bool-cases (nat_eq (key x) k)) [
    | inl same ↦
        let found : x ≡ y = ground arith in
        let at_k : key x ≡ k = ground arith in
        let rest : All (λ z. key z ≢ k) xs = subst (λ m. All (λ z. key z ≢ m) xs) at_k d.0 in
        (
          if-holds P _ (f x) x (λ _. subst (λ z. P (f z)) (sym found) t) (λ _. h.0),
          subst (All P) (sym (update_absent k q f xs rest)) h.1,
        )
    | inr other ↦ (
      if-holds P _ (f x) x (λ b. absurd (ground arith)) (λ _. h.0),
      update_found P k q f xs {x = y} d.1 (rw other at e) h.1 t,
    )
  ]

  -- After an UPDATE by an id of a row that was read, the rows of this id are as the update leaves it.
  pub update_hits :
      (P : A → Type 0) (k : ℕ) (q : A → Bool) (f : A → A) (xs : List A) {x : A}
      → Distinct key xs
      → first_where (has_id key k) xs ≡ some x
      → q x ≡ true
      → P (f x)
      → All (λ y. key y ≡ k → P y) (update_where (λ y. q y && nat_eq (key y) k) f xs)
  unfolding update_where first_where
  update_hits P k q f [] {x = y} d e t h = tt
  update_hits P k q f (x ∷ xs) {x = y} d e t h = elim (Bool-cases (nat_eq (key x) k)) [
    | inl same ↦
        let found : x ≡ y = ground arith in
        let at_k : key x ≡ k = ground arith in
        let hit : q x ≡ true = rw found t in
        let rest : All (λ z. key z ≢ k) xs = subst (λ m. All (λ z. key z ≢ m) xs) at_k d.0 in
        (
          if-holds (λ z. key z ≡ k → P z) _ (f x) x (λ _ _. subst (λ z. P (f z)) (sym found) h)
              (λ b. absurd (ground arith)),
          subst (All (λ z. key z ≡ k → P z)) (sym (update_absent k q f xs rest))
              (absent-All P k xs rest),
        )
    | inr other ↦ (
      if-holds (λ z. key z ≡ k → P z) _ (f x) x (λ b. absurd (ground arith))
          (λ _ at. absurd (ground arith)),
      update_hits P k q f xs {x = y} d.1 (rw other at e) t h,
    )
  ]

  update_key :
      (q : A → Bool) (f : A → A) (k : ℕ) (xs : List A)
      → ((x : A) → key (f x) ≡ key x)
      → All (λ y. key y ≢ k) xs
      → All (λ y. key y ≢ k) (update_where q f xs)
  update_key q f k xs same h = update_where-All (λ y. key y ≢ k) q f xs (λ x n. rw (same x) n) h

  pub Distinct-update :
      (q : A → Bool) (f : A → A) (xs : List A)
      → ((x : A) → key (f x) ≡ key x)
      → Distinct key xs
      → Distinct key (update_where q f xs)
  unfolding update_where
  Distinct-update q f [] same d = tt
  Distinct-update q f (x ∷ xs) same d = (
    if-holds (λ z. All (λ y. key y ≢ key z) (update_where q f xs)) (q x) (f x) x
        (λ _. rw (same x) (update_key q f (key x) xs same d.0))
        (λ _. update_key q f (key x) xs same d.0),
    Distinct-update q f xs same d.1,
  )

  pub Distinct-filter : (p : A → Bool) (xs : List A) → Distinct key xs → Distinct key (filter p xs)
  Distinct-filter p [] d = tt
  Distinct-filter p (x ∷ xs) d = elim (Bool-cases (p x)) [
    | inl t ↦ rw t (filter-All (λ y. key y ≢ key x) p xs d.0, Distinct-filter p xs d.1)
    | inr t ↦ rw t (Distinct-filter p xs d.1)
  ]

module _ {A : Type 0} (p q : A → Bool) (f : A → A) where
  -- A row that a SELECT finds is found after an UPDATE that does not touch what it is found by.
  pub first_where-update :
      (xs : List A)
      → ((x : A) → p (f x) ≡ p x)
      → {x : A} → first_where p xs ≡ some x
      → first_where p (update_where q f xs) ≡ some (if q x then f x else x)
  unfolding first_where update_where
  first_where-update [] keeps {x = y} e = cc
  first_where-update (x ∷ xs) keeps {x = y} e =
      ground (arith, keeps x, first_where-update xs keeps {x = y})

  pub first_where-update_none :
      (xs : List A)
      → ((x : A) → p (f x) ≡ p x)
      → first_where p xs ≡ none
      → first_where p (update_where q f xs) ≡ none
  unfolding first_where update_where
  first_where-update_none [] keeps e = refl
  first_where-update_none (x ∷ xs) keeps e =
      ground (arith, keeps x, first_where-update_none xs keeps)

module _ {A : Type 0} (key : A → ℕ) where
  -- A row that is found in any way is found by its id.
  pub first_where-own :
      (p q : A → Bool) (xs : List A) {x : A}
      → Distinct key xs
      → first_where p xs ≡ some x
      → q x ≡ true
      → first_where (λ y. q y && nat_eq (key y) (key x)) xs ≡ some x
  unfolding first_where
  first_where-own p q [] {x = y} d e t = cc
  first_where-own p q (x ∷ xs) {x = y} d e t = elim (Bool-cases (p x)) [
    | inl hit ↦ let same : x ≡ y = ground arith in ground arith
    | inr miss ↦
        let e' : first_where p xs ≡ some y = ground arith in
        let apart = first_where-All (λ z. key z ≢ key x) p xs {x = y} d.0 e' in
        let rest = first_where-own p q xs {x = y} d.1 e' t in ground (arith, apart, rest)
  ]
