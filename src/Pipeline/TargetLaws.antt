-- ===== src/Pipeline/TargetLaws.antt =====
-- Which targets are planned, and in what order.
use mathlib.Core.Path.{subst}
use sustentra_platform.Prelude.{
  ℕ, ◌+◌, ◌<◌, ◌≡◌, ◌≢◌, ◌⊎◌, refl, sym, ap, ◌∙◌, Bool, true, false, List, [], ◌∷◌, ◌++◌, map,
  filter, any, any-append, All, All-map, ltb, nat_eq, arith, if◌then◌else◌, Bool-cases, inl, inr,
}
use sustentra_platform.Text.{Text, lit, ◌==◌, eq_iff}
use sustentra_platform.Pipeline.Targets.{
  ExtractionConfig, Target, Classification, required_order, text_le, stands_before, to_target,
  get_targets_for_canonical_type, add_unseen, add_types, has_status,
  get_targets_for_classification_result, sort_configs,
}
use sustentra_platform.Pipeline.Sorting.{
  IsOrdered, sort_configs-IsOrdered, count, count-sort_configs, sort_configs-All, config-to_target,
  is_wanted, get_targets_for_canonical_type_lem,
}

-- The words for a required status, in the order of their targets; all others come behind them.
abbrev pub levels : List Text
levels = lit "core" ∷ lit "conditional" ∷ lit "optional" ∷ lit "derived" ∷ []

-- The place of a word in a list, or the length of the list.
abbrev pub place : Text → List Text → ℕ
place s [] = 0
place s (t ∷ ts) = let rest = place s ts in if s == t then 0 else rest + 1

-- The lexicographic order by code points.
pub data LexLe : Text → Text → Type 0 where
  shorter : {t : Text} → LexLe [] t
  lower : {c d : ℕ} {s t : Text} → c < d → LexLe (c ∷ s) (d ∷ t)
  further : {c : ℕ} {s t : Text} → LexLe s t → LexLe (c ∷ s) (c ∷ t)

abbrev pub ComesFirst : ExtractionConfig → ExtractionConfig → Type 0
ComesFirst a b =
    (place a.required_status levels < place b.required_status levels)
    ⊎ ((place a.required_status levels ≡ place b.required_status levels)
        × LexLe a.field_id b.field_id)

-- Each configuration comes before those behind it.
abbrev pub IsSorted : List ExtractionConfig → Type 0
IsSorted [] = Unit
IsSorted (c ∷ cs) = All (ComesFirst c) cs × IsSorted cs

-- A configuration of the type, not optional or deprecated unless these are asked for.
abbrev pub IsWanted : Text → Bool → Bool → ExtractionConfig → Type 0
IsWanted id include_optional include_deprecated c =
    (c.canonical_type_id ≡ id)
    × ((include_optional ≡ true) ⊎ (c.required_status ≢ lit "optional"))
    × ((include_deprecated ≡ true)
        ⊎ ((c.population_status ≢ lit "deprecated") × (c.population_status ≢ lit "archived")))

text_le-LexLe : (s t : Text) → text_le s t ≡ true → LexLe s t
unfolding text_le
text_le-LexLe [] t h = shorter
text_le-LexLe (c ∷ s) [] h = absurd cc
text_le-LexLe (c ∷ s) (d ∷ t) h = elim (Bool-cases (ltb c d)) [
  | inl less ↦ lower (ground arith)
  | inr more ↦
      let same : c ≡ d = ground arith in
      subst (λ e. LexLe (c ∷ s) (e ∷ t)) same (further (text_le-LexLe s t (ground arith)))
]

order-place :
    (s t : Text)
    → ltb (required_order s) (required_order t) ≡ true
    → place s levels < place t levels
order-place s t h = ground arith

same_order :
    (s t : Text)
    → nat_eq (required_order s) (required_order t) ≡ true
    → place s levels ≡ place t levels
same_order s t h = ground arith

stands_before-ComesFirst : (a b : ExtractionConfig) → stands_before a b ≡ true → ComesFirst a b
stands_before-ComesFirst a b h =
    elim (Bool-cases (ltb (required_order a.required_status) (required_order b.required_status))) [
      | inl less ↦ inl (order-place a.required_status b.required_status less)
      | inr more ↦ inr (
        same_order a.required_status b.required_status (ground arith),
        text_le-LexLe a.field_id b.field_id (ground arith),
      )
    ]

IsOrdered-IsSorted : (cs : List ExtractionConfig) → IsOrdered cs → IsSorted cs
IsOrdered-IsSorted [] h = tt
IsOrdered-IsSorted (c ∷ cs) h =
    (All-map _ _ cs (λ d e. stands_before-ComesFirst c d e) h.0, IsOrdered-IsSorted cs h.1)

is_wanted-IsWanted :
    (id : Text) (include_optional include_deprecated : Bool) (c : ExtractionConfig)
    → IsWanted id include_optional include_deprecated c
    → is_wanted id include_optional include_deprecated c ≡ true
is_wanted-IsWanted id include_optional include_deprecated c h = ground (
  arith,
  eq_iff c.canonical_type_id id,
  eq_iff c.required_status (lit "optional"),
  eq_iff c.population_status (lit "deprecated"),
  eq_iff c.population_status (lit "archived"),
)

only-IsWanted :
    (id : Text) (include_optional include_deprecated : Bool) (c : ExtractionConfig)
    → is_wanted id include_optional include_deprecated c ≡ true
    → IsWanted id include_optional include_deprecated c
only-IsWanted id include_optional include_deprecated c h = ground (
  arith,
  eq_iff c.canonical_type_id id,
  eq_iff c.required_status (lit "optional"),
  eq_iff c.population_status (lit "deprecated"),
  eq_iff c.population_status (lit "archived"),
)

filter-All_wanted :
    (P : ExtractionConfig → Type 0) (w : ExtractionConfig → Bool) (cs : List ExtractionConfig)
    → ((c : ExtractionConfig) → w c ≡ true → P c)
    → All P (filter w cs)
filter-All_wanted P w [] h = tt
filter-All_wanted P w (c ∷ cs) h = elim (Bool-cases (w c)) [
  | inl e ↦ rw e (h c e, filter-All_wanted P w cs h)
  | inr e ↦ rw e (filter-All_wanted P w cs h)
]

count-filter :
    (p w : ExtractionConfig → Bool) (cs : List ExtractionConfig)
    → ((c : ExtractionConfig) → p c ≡ true → w c ≡ true)
    → count p (filter w cs) ≡ count p cs
count-filter p w [] h = refl
count-filter p w (c ∷ cs) h = ground (arith, h c, count-filter p w cs h)

-- The target is that of its configuration, which is wanted.
abbrev pub IsTargetOf : Text → Bool → Bool → Target → Type 0
IsTargetOf id include_optional include_deprecated t =
    IsWanted id include_optional include_deprecated t.config
    × (t.target_id ≡ lit "target::" ++ t.config.canonical_type_id ++ lit "::" ++ t.config.field_id)

to_target-IsTargetOf :
    (id : Text) (include_optional include_deprecated : Bool) (cs : List ExtractionConfig)
    → All (IsWanted id include_optional include_deprecated) cs
    → All (IsTargetOf id include_optional include_deprecated) (map to_target cs)
to_target-IsTargetOf id include_optional include_deprecated [] h = tt
to_target-IsTargetOf id include_optional include_deprecated (c ∷ cs) h =
    ((h.0, refl), to_target-IsTargetOf id include_optional include_deprecated cs h.1)

-- The targets that are planned for a canonical type are of configurations of this type, which are not
-- optional unless optional ones are asked for, and not deprecated or archived unless these are; each
-- has the id of its type and field. They come in the order of the required status (core, conditional,
-- optional, derived, then the rest) and, within it, of the field's id. Of the configurations with any
-- property that only such configurations have, as many are planned as there are.
pub targets-IsSorted :
    (configs : List ExtractionConfig) (id : Text) (include_optional include_deprecated : Bool)
    (p : ExtractionConfig → Bool)
    → ((c : ExtractionConfig) → p c ≡ true → IsWanted id include_optional include_deprecated c)
    → let targets = get_targets_for_canonical_type configs id include_optional include_deprecated in
      IsSorted (map (λ t. t.config) targets)
      × All (IsTargetOf id include_optional include_deprecated) targets
      × (count p (map (λ t. t.config) targets) ≡ count p configs)
targets-IsSorted configs id include_optional include_deprecated p wanted =
    let w = is_wanted id include_optional include_deprecated in
    let sorted = sort_configs (filter w configs) in
    rw (get_targets_for_canonical_type_lem configs id include_optional include_deprecated) (
      subst IsSorted (sym (config-to_target sorted))
          (IsOrdered-IsSorted sorted (sort_configs-IsOrdered (filter w configs))),
      to_target-IsTargetOf id include_optional include_deprecated sorted (
          sort_configs-All _ (filter w configs)
            (filter-All_wanted _ w configs (only-IsWanted id include_optional include_deprecated))),
      ap (count p) (config-to_target sorted)
          ∙ (count-sort_configs p (filter w configs)
              ∙ count-filter p w configs (λ c e.
                is_wanted-IsWanted id include_optional include_deprecated c (wanted c e))),
    )

-- No target has the id of another one.
abbrev pub IsDistinct : List Target → Type 0
IsDistinct [] = Unit
IsDistinct (t ∷ ts) = (any (λ s. s.target_id == t.target_id) ts ≡ false) × IsDistinct ts

append-IsDistinct :
    (ts : List Target) (t : Target)
    → any (λ s. s.target_id == t.target_id) ts ≡ false
    → IsDistinct ts
    → IsDistinct (ts ++ t ∷ [])
append-IsDistinct [] t e h = (refl, tt)
append-IsDistinct (s ∷ ts) t e h = (
  ground (
    arith,
    any-append (λ r. r.target_id == s.target_id) ts (t ∷ []),
    eq_iff s.target_id t.target_id,
    eq_iff t.target_id s.target_id,
  ),
  append-IsDistinct ts t (ground arith) h.1,
)

add_unseen-IsDistinct : (new ts : List Target) → IsDistinct ts → IsDistinct (add_unseen new ts)
unfolding add_unseen
add_unseen-IsDistinct [] ts h = h
add_unseen-IsDistinct (t ∷ new) ts h =
    elim (Bool-cases (any (λ s. s.target_id == t.target_id) ts)) [
      | inl e ↦ rw e (add_unseen-IsDistinct new ts h)
      | inr e ↦ rw e (add_unseen-IsDistinct new (ts ++ t ∷ []) (append-IsDistinct ts t e h))
    ]

add_types-IsDistinct :
    (configs : List ExtractionConfig) (include_optional include_deprecated : Bool) (ids : List Text)
    (ts : List Target)
    → IsDistinct ts
    → IsDistinct (add_types configs include_optional include_deprecated ids ts)
unfolding add_types
add_types-IsDistinct configs include_optional include_deprecated [] ts h = h
add_types-IsDistinct configs include_optional include_deprecated (id ∷ ids) ts h =
    add_types-IsDistinct configs include_optional include_deprecated ids _
      (add_unseen-IsDistinct _ ts h)

-- The targets that are planned for a classification other than "classified" have ids that differ,
-- although several candidate types may have the same configuration.
pub multi_type-IsDistinct :
    (configs : List ExtractionConfig) (c : Classification)
    (include_optional include_deprecated : Bool)
    → has_status c.status (lit "classified") ≡ false
    → IsDistinct
        (get_targets_for_classification_result configs c include_optional include_deprecated)
unfolding get_targets_for_classification_result
multi_type-IsDistinct configs c include_optional include_deprecated h =
    rw h (elim (Bool-cases (has_status c.status (lit "multi_type_candidate"))) [
      | inl e ↦ rw e (add_types-IsDistinct configs include_optional include_deprecated _ [] tt)
      | inr e ↦ rw e tt
    ])
