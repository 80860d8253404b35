-- ===== src/Identity/StoreLaws.antt =====
-- A record store is a map from ids to the records that are not deleted.
use mathlib.Core.Path.{fun_ext, subst}
use mathlib.Core.Option.{some_inj}
use sustentra_platform.Prelude.{
  ◌≡◌, refl, sym, ap, ◌∙◌, any, Bool, true, false, Option, none, some, List, [], ◌∷◌, is_empty, All,
  arith, if◌then◌else◌, Bool-cases, inl, inr,
}
use sustentra_platform.Text.{Text, ◌==◌}
use sustentra_platform.Dict.{Dict, text_key, get, put, get-put}
use sustentra_platform.Identity.Store.{
  Stored, unless_deleted, save, last_version, find_version, index_versions, latest_by_id, get_by_id,
}

none-some : {A : Type 0} {a : A} → ¬ (none ≡ some a)
none-some p = cc

module _ {A : Type 0} where
  last_version-save :
      (p : A → Bool) (r : A) (versions : List A) (m : Option A)
      → last_version p (save r versions) m ≡ (if p r then some r else last_version p versions m)
  unfolding last_version
  last_version-save p r [] m = refl
  last_version-save p r (v ∷ versions) m =
      last_version-save p r versions (if p v then some v else m)

  -- The version that is saved is found by what it has, and hides no other.
  pub find_version-save :
      (p : A → Bool) (r : A) (versions : List A)
      → find_version p (save r versions) ≡ (if p r then some r else find_version p versions)
  unfolding find_version
  find_version-save p r versions = last_version-save p r versions none

  last_version-All :
      (P : A → Type 0) (p : A → Bool) (versions : List A) (m : Option A) {r : A}
      → All P versions
      → ((a : A) → m ≡ some a → P a)
      → last_version p versions m ≡ some r
      → P r
  unfolding last_version
  last_version-All P p [] m {r = r} h k e = k r e
  last_version-All P p (v ∷ versions) m {r = r} h k e =
      last_version-All P p versions (if p v then some v else m) {r = r} h.1
        (λ a found. elim (Bool-cases (p v)) [
          | inl t ↦ subst P (some_inj.0 (rw t at found)) h.0
          | inr t ↦ k a (rw t at found)
        ])
        e

  -- What holds of all versions holds of one that is found.
  pub find_version-All :
      (P : A → Type 0) (p : A → Bool) (versions : List A) {r : A}
      → All P versions
      → find_version p versions ≡ some r
      → P r
  unfolding find_version
  find_version-All P p versions {r = r} h e =
      last_version-All P p versions none {r = r} h (λ a found. absurd (none-some found)) e

  last_version-holds :
      (p : A → Bool) (versions : List A) (m : Option A) {r : A}
      → ((a : A) → m ≡ some a → p a ≡ true)
      → last_version p versions m ≡ some r
      → p r ≡ true
  unfolding last_version
  last_version-holds p [] m {r = r} k e = k r e
  last_version-holds p (v ∷ versions) m {r = r} k e =
      last_version-holds p versions (if p v then some v else m) {r = r}
        (λ a found. elim (Bool-cases (p v)) [
          | inl t ↦ subst (λ x. p x ≡ true) (some_inj.0 (rw t at found)) t
          | inr t ↦ k a (rw t at found)
        ])
        e

  pub find_version-holds :
      (p : A → Bool) (versions : List A) {r : A} → find_version p versions ≡ some r → p r ≡ true
  unfolding find_version
  find_version-holds p versions {r = r} e =
      last_version-holds p versions none {r = r} (λ a found. absurd (none-some found)) e

  last_version_congr :
      (p q : A → Bool) (versions : List A) (m : Option A)
      → All (λ v. p v ≡ q v) versions
      → last_version p versions m ≡ last_version q versions m
  unfolding last_version
  last_version_congr p q [] m h = refl
  last_version_congr p q (v ∷ versions) m h =
      ap (λ b. last_version p versions (if b then some v else m)) h.0
      ∙ last_version_congr p q versions (if q v then some v else m) h.1

  pub find_version_congr :
      (p q : A → Bool) (versions : List A)
      → All (λ v. p v ≡ q v) versions
      → find_version p versions ≡ find_version q versions
  unfolding find_version
  find_version_congr p q versions h = last_version_congr p q versions none h

  last_version-none :
      (p : A → Bool) (versions : List A) (m : Option A)
      → any p versions ≡ false
      → last_version p versions m ≡ m
  unfolding last_version
  last_version-none p [] m h = refl
  last_version-none p (v ∷ versions) m h = ground (arith, last_version-none p versions m)

  pub find_version-none :
      (p : A → Bool) (versions : List A) → any p versions ≡ false → find_version p versions ≡ none
  unfolding find_version
  find_version-none p versions h = last_version-none p versions none h

empty-apart : (s k : Text) → is_empty s ≡ true → is_empty k ≡ false → (s == k) ≡ false
unfolding ◌==◌
empty-apart [] [] blank full = cc
empty-apart [] (c ∷ k) blank full = refl
empty-apart (d ∷ s) k blank full = cc

module _ {A : Type 0} ⦃stored : Stored A⦄ where
  get-step :
      (k : Text) (v : A) (d : Dict A)
      → is_empty k ≡ false
      → get k (if is_empty (stored.id v) then d else put (stored.id v) v d)
        ≡ (if stored.id v == k then some v else get k d)
  get-step k v d h = elim (Bool-cases (is_empty (stored.id v))) [
    | inl blank ↦ rw blank (rw (empty-apart (stored.id v) k blank h))
    | inr full ↦ rw full (get-put (stored.id v) k v d)
  ]

  get-index :
      (k : Text) (versions : List A) (d : Dict A)
      → is_empty k ≡ false
      → get k (index_versions versions d) ≡ last_version (λ r. stored.id r == k) versions (get k d)
  unfolding index_versions last_version
  get-index k [] d h = refl
  get-index k (v ∷ versions) d h =
      get-index k versions _ h ∙ ap (last_version _ versions) (get-step k v d h)

  -- Looking an id up in the index is finding its last version.
  pub get-latest_by_id :
      (k : Text) (versions : List A)
      → is_empty k ≡ false
      → get k (latest_by_id versions) ≡ find_version (λ r. stored.id r == k) versions
  unfolding latest_by_id find_version get
  get-latest_by_id k versions h = get-index k versions [] h

  index-save :
      (r : A) (versions : List A) (d : Dict A)
      → is_empty (stored.id r) ≡ false
      → index_versions (save r versions) d ≡ put (stored.id r) r (index_versions versions d)
  unfolding index_versions
  index-save r [] d h = rw h
  index-save r (v ∷ versions) d h = index-save r versions _ h

  -- A map from ids, changed at one.
  abbrev pub update : (Text → Option A) → Text → Option A → Text → Option A
  update f id value k = if id == k then value else f k

  -- Saving a record is an update of the map from ids to records that `get_by_id` reads off the
  -- versions: at the id of the record, to the record itself, or to nothing if it is deleted. The id
  -- must not be empty.
  pub get_by_id-save :
      (r : A) (versions : List A)
      → is_empty (stored.id r) ≡ false
      → (λ k. get_by_id k (save r versions))
        ≡ update
            (λ k. get_by_id k versions)
            (stored.id r)
            (unless_deleted stored.is_deleted (some r))
  unfolding get_by_id latest_by_id
  get_by_id-save r versions h = fun_ext λ k. elim (Bool-cases (stored.id r == k)) [
    | inl same ↦ rw (index-save r versions [] h) (rw (get-put (stored.id r) k r _) (rw same))
    | inr apart ↦ rw (index-save r versions [] h) (rw (get-put (stored.id r) k r _) (rw apart))
  ]

  undeleted :
      (o : Option A) {a : A}
      → unless_deleted stored.is_deleted o ≡ some a
      → (o ≡ some a) × (stored.is_deleted a ≡ false)
  undeleted none {a = a} e = cc
  undeleted (some b) {a = a} e = ground arith

  -- A record that is found by an id has it, and is not deleted.
  pub get_by_id-holds :
      (k : Text) (versions : List A) {a : A}
      → is_empty k ≡ false
      → get_by_id k versions ≡ some a
      → ((stored.id a == k) ≡ true) × (stored.is_deleted a ≡ false)
  unfolding get_by_id
  get_by_id-holds k versions {a = a} full found =
      let (e, kept) = undeleted (find_version (λ r. stored.id r == k) versions) {a = a} (
        subst (λ o. unless_deleted stored.is_deleted o ≡ some a) (get-latest_by_id k versions full)
          found) in
      (find_version-holds (λ r. stored.id r == k) versions {r = a} e, kept)

  -- A change of a record that is found by its id is found by it.
  pub get_by_id-change :
      (k : Text) (versions : List A) (b : A) {a : A}
      → is_empty k ≡ false
      → get_by_id k versions ≡ some a
      → stored.id b ≡ stored.id a
      → stored.is_deleted b ≡ stored.is_deleted a
      → get_by_id k (save b versions) ≡ some b
  unfolding get_by_id
  get_by_id-change k versions b {a = a} full found same alike =
      let (own, kept) = get_by_id-holds k versions {a = a} full found in
      let b_own : (stored.id b == k) ≡ true = subst (λ i. (i == k) ≡ true) (sym same) own in
      let e : get k (latest_by_id (save b versions)) ≡ some b =
        get-latest_by_id k (save b versions) full
        ∙ (find_version-save (λ r. stored.id r == k) b versions ∙ rw b_own refl) in
      ap (unless_deleted stored.is_deleted) e ∙ rw (alike ∙ kept) refl
