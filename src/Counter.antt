-- ===== src/Counter.antt =====
-- `dict(sorted(Counter(...).items()))` over statuses, and the look-up `_count_status`
-- (backend/app/services/s2_orchestration_service.py), for a type with a test of equality and its
-- values in the order of their names.
use sustentra_platform.Prelude.{
  ℕ, ◌+◌, ◌≡◌, refl, ◌↔◌, Bool, true, List, [], ◌∷◌, filter, length, arith, ltb, if◌then◌else◌, ◌∙◌,
}

pub record Statuses (S : Type 0) : Type 0 where
  pub same : S → S → Bool
  pub order : List S
  pub same_iff : (a b : S) → (same a b ≡ true) ↔ (a ≡ b)
  pub once : (a : S) → length (filter (λ s. same a s) order) ≡ 1

abbrev pub total : {S : Type 0} → List (S × ℕ) → ℕ
total [] = 0
total ((s, n) ∷ counts) = n + total counts

module _ {S : Type 0} ⦃statuses : Statuses S⦄ where
  -- `Counter(xs)[s]`
  abbrev pub occurrences : S → List S → ℕ
  occurrences s xs = length (filter (λ x. statuses.same x s) xs)

  abbrev pub count_each : List S → List S → List (S × ℕ)
  count_each [] xs = []
  count_each (s ∷ ss) xs = (s, occurrences s xs) ∷ count_each ss xs

  -- A counter lists what occurs.
  unfoldable pub sorted_counts : List S → List (S × ℕ)
  sorted_counts xs = filter (λ p. ltb 0 p.1) (count_each statuses.order xs)

  -- `counts.get(status, 0)`
  unfoldable pub count_status : S → List (S × ℕ) → ℕ
  count_status s [] = 0
  count_status s ((r, n) ∷ counts) = if statuses.same r s then n else count_status s counts

  total-nonzero : (counts : List (S × ℕ)) → total (filter (λ p. ltb 0 p.1) counts) ≡ total counts
  total-nonzero [] = refl
  total-nonzero ((s, n) ∷ counts) = ground (arith, total-nonzero counts)

  total-count_each_nil : (ss : List S) → total (count_each ss []) ≡ 0
  total-count_each_nil [] = refl
  total-count_each_nil (s ∷ ss) = omega (arith, total-count_each_nil ss)

  total-count_each :
      (ss : List S) (x : S) (xs : List S)
      → total (count_each ss (x ∷ xs))
        ≡ length (filter (λ s. statuses.same x s) ss) + total (count_each ss xs)
  total-count_each [] x xs = omega arith
  total-count_each (s ∷ ss) x xs = ground (arith, total-count_each ss x xs)

  -- The counts add up to the number of items.
  pub total-sorted_counts : (xs : List S) → total (sorted_counts xs) ≡ length xs
  unfolding sorted_counts
  total-sorted_counts [] = total-nonzero _ ∙ total-count_each_nil statuses.order
  total-sorted_counts (x ∷ xs) = omega (
    arith,
    total-nonzero (count_each statuses.order (x ∷ xs)),
    total-nonzero (count_each statuses.order xs),
    total-count_each statuses.order x xs,
    statuses.once x,
    total-sorted_counts xs,
  )

  count_status-absent :
      (s : S) (ss xs : List S)
      → length (filter (λ r. statuses.same s r) ss) ≡ 0
      → count_status s (filter (λ p. ltb 0 p.1) (count_each ss xs)) ≡ 0
  unfolding count_status
  count_status-absent s [] xs h = refl
  count_status-absent s (r ∷ ss) xs h =
      ground (arith, statuses.same_iff s r, statuses.same_iff r s, count_status-absent s ss xs)

  count_status-each :
      (s : S) (ss xs : List S)
      → length (filter (λ r. statuses.same s r) ss) ≡ 1
      → count_status s (filter (λ p. ltb 0 p.1) (count_each ss xs)) ≡ occurrences s xs
  unfolding count_status
  count_status-each s [] xs h = absurd (omega arith)
  count_status-each s (r ∷ ss) xs h = ground (
    arith,
    statuses.same_iff s r,
    statuses.same_iff r s,
    count_status-absent s ss xs,
    count_status-each s ss xs,
  )

  -- What is looked up in the counts is how often the status occurs.
  pub count_status-sorted_counts :
      (s : S) (xs : List S) → count_status s (sorted_counts xs) ≡ occurrences s xs
  unfolding sorted_counts
  count_status-sorted_counts s xs = count_status-each s statuses.order xs (statuses.once s)
