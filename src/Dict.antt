-- ===== src/Dict.antt =====
-- Python's `dict`, as an association list in insertion order, and the index that
-- several services build with `defaultdict(list)`.
use sustentra_platform.Prelude.{
  ◌≡◌, refl, ◌↔◌, ◌&&◌, Bool, true, false, Option, none, some, List, [], ◌∷◌, ◌++◌, append_assoc,
  append-nil, arith, filter, if◌then◌else◌, Bool-cases, inl, inr,
}
use sustentra_platform.Text.{Text, ◌==◌, eq_iff}

-- Keys with their test of equality.
pub record Key (K : Type 0) : Type 0 where
  pub same : K → K → Bool
  pub same_iff : (a b : K) → (same a b ≡ true) ↔ (a ≡ b)

instance abbrev pub text_key : Key Text
text_key = record { same = λ a b. a == b; same_iff = eq_iff }

pub pair_iff : (a b : Text × Text) → ((a.0 == b.0 && a.1 == b.1) ≡ true) ↔ (a ≡ b)
pair_iff (a, a') (b, b') = ground (arith, eq_iff a b, eq_iff a' b')

instance abbrev pub pair_key : Key (Text × Text)
pair_key = record { same = λ a b. a.0 == b.0 && a.1 == b.1; same_iff = pair_iff }

abbrev pub Map {ℓ} : Type 0 → Type ℓ → Type ℓ
Map K V = List (K × V)

abbrev pub Dict {ℓ} : Type ℓ → Type ℓ
Dict V = Map Text V

split_head {ℓ} :
    {V : Type ℓ} (b : Bool) (v : V) (xs : List V)
    → (if b then v ∷ [] else []) ++ xs ≡ (if b then v ∷ xs else xs)
split_head true v xs = refl
split_head false v xs = refl

module _ {ℓ} {K : Type 0} ⦃keys : Key K⦄ {V : Type ℓ} where
  -- `d.get(k)`
  unfoldable pub get : K → Map K V → Option V
  get k [] = none
  get k ((j, v) ∷ d) = if keys.same j k then some v else get k d

  -- `d[k] = v`
  unfoldable pub put : K → V → Map K V → Map K V
  put k v [] = (k, v) ∷ []
  put k v ((j, w) ∷ d) = if keys.same j k then (j, v) ∷ d else (j, w) ∷ put k v d

  pub get-put :
      (k j : K) (v : V) (d : Map K V)
      → get j (put k v d) ≡ (if keys.same k j then some v else get j d)
  unfolding get put
  get-put k j v [] = refl
  get-put k j v ((i, w) ∷ d) =
      ground (arith, keys.same_iff k j, keys.same_iff i k, keys.same_iff i j, get-put k j v d)

  -- `d.get(k, ())`
  unfoldable pub get_list : K → Map K (List V) → List V
  get_list k [] = []
  get_list k ((j, vs) ∷ d) = if keys.same j k then vs else get_list k d

  -- `d[k].append(v)` on a `defaultdict(list)`
  unfoldable pub append_at : K → V → Map K (List V) → Map K (List V)
  append_at k v [] = (k, v ∷ []) ∷ []
  append_at k v ((j, vs) ∷ d) =
      if keys.same j k then (j, vs ++ v ∷ []) ∷ d else (j, vs) ∷ append_at k v d

  pub get_list-append_at :
      (k j : K) (v : V) (d : Map K (List V))
      → get_list j (append_at k v d)
        ≡ (if keys.same k j then get_list j d ++ v ∷ [] else get_list j d)
  unfolding get_list append_at
  get_list-append_at k j v [] = refl
  get_list-append_at k j v ((i, vs) ∷ d) =
      ground
        (arith, keys.same_iff k j, keys.same_iff i k, keys.same_iff i j, get_list-append_at k j v d)

  -- One turn of the loop: an item with no key is skipped.
  abbrev pub index_item : Option K → V → Map K (List V) → Map K (List V)
  index_item none v d = d
  index_item (some k) v d = append_at k v d

  -- `for v in vs: if key(v): indexed[key(v)].append(v)`
  unfoldable pub index_from : (V → Option K) → List V → Map K (List V) → Map K (List V)
  index_from key [] d = d
  index_from key (v ∷ vs) d = index_from key vs (index_item (key v) v d)

  abbrev pub has_key : (V → Option K) → K → V → Bool
  has_key key j v = elim (key v) [ none ↦ false | some k ↦ keys.same k j ]

  index_item-get :
      (o : Option K) (j : K) (v : V) (d : Map K (List V))
      → get_list j (index_item o v d)
        ≡ get_list j d
          ++ (if (elim o [ none ↦ false | some k ↦ keys.same k j ]) then v ∷ [] else [])
  index_item-get none j v d = rw append-nil
  index_item-get (some k) j v d = elim (Bool-cases (keys.same k j)) [
    | inl e ↦ rw get_list-append_at (rw e)
    | inr e ↦ rw get_list-append_at (rw e (rw append-nil))
  ]

  -- Looking a key up in the index is filtering the items by it.
  pub get_list-index_from :
      (key : V → Option K) (j : K) (vs : List V) (d : Map K (List V))
      → get_list j (index_from key vs d) ≡ get_list j d ++ filter (has_key key j) vs
  unfolding index_from
  get_list-index_from key j [] d = rw append-nil
  get_list-index_from key j (v ∷ vs) d =
      simp (get_list-index_from key j vs, index_item-get, append_assoc, split_head)

  unfoldable pub index : (V → Option K) → List V → Map K (List V)
  unfolding index_from
  index key vs = index_from key vs []

  pub get_list-index :
      (key : V → Option K) (j : K) (vs : List V)
      → get_list j (index key vs) ≡ filter (has_key key j) vs
  unfolding index get_list
  get_list-index key j vs = get_list-index_from key j vs []
