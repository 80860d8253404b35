-- ===== src/Identity/Store.antt =====
-- The record stores of backend/app/repositories/identity_repository.py: a list of versions, the
-- oldest first, of which the last with an id counts.
use sustentra_platform.Prelude.{
  Bool, not, Option, none, some, List, [], ◌∷◌, ◌++◌, map, filter, is_empty, if◌then◌else◌,
}
use sustentra_platform.Text.{Text}
use sustentra_platform.Dict.{Dict, text_key, get, put}

-- What the store reads of a record: its id, and whether its status is "deleted".
pub record Stored (A : Type 0) : Type 0 where
  pub id : A → Text
  pub is_deleted : A → Bool

abbrev pub unless_deleted : {A : Type 0} → (A → Bool) → Option A → Option A
unless_deleted deleted none = none
unless_deleted deleted (some a) = if deleted a then none else some a

module _ {A : Type 0} where
  -- `save`
  abbrev pub save : A → List A → List A
  save r versions = versions ++ r ∷ []

  -- The loop of `find_latest`.
  unfoldable pub last_version : (A → Bool) → List A → Option A → Option A
  last_version p [] match = match
  last_version p (r ∷ versions) match = last_version p versions (if p r then some r else match)

  -- `find_latest(p, include_deleted=True)`
  unfoldable pub find_version : (A → Bool) → List A → Option A
  find_version p versions = last_version p versions none

module _ {A : Type 0} ⦃stored : Stored A⦄ where
  -- `find_latest(p)`
  unfoldable pub find_latest : (A → Bool) → List A → Option A
  find_latest p versions = unless_deleted stored.is_deleted (find_version p versions)

  -- The loop of `latest_by_id`.
  unfoldable pub index_versions : List A → Dict A → Dict A
  index_versions [] latest = latest
  index_versions (r ∷ versions) latest =
      index_versions versions
        (if is_empty (stored.id r) then latest else put (stored.id r) r latest)

  -- `latest_by_id`
  unfoldable pub latest_by_id : List A → Dict A
  latest_by_id versions = index_versions versions []

  -- `get_by_id`
  unfoldable pub get_by_id : Text → List A → Option A
  get_by_id id versions = unless_deleted stored.is_deleted (get id (latest_by_id versions))

  -- `list_active`
  unfoldable pub list_active : List A → List A
  list_active versions =
      filter (λ r. not (stored.is_deleted r)) (map (λ p. p.1) (latest_by_id versions))
