-- ===== src/Pipeline/Sorting.antt =====
-- How the targets of a canonical type are filtered and sorted.
use sustentra_platform.Prelude.{
  ℕ, ◌≡◌, refl, ap, ◌∙◌, Bool, true, false, ◌&&◌, some, List, [], ◌∷◌, map, filter, filter-filter,
  All, All-map, length, arith, Bool-cases, inl, inr,
}
use sustentra_platform.Text.{Text, ◌==◌}
use sustentra_platform.Dict.{text_key, get_list-index}
use sustentra_platform.Pipeline.Targets.{
  ExtractionConfig, text_le, stands_before, insert_config, sort_configs, is_selected, to_target,
  get_targets_for_canonical_type,
}

text_le_total : (s t : Text) → text_le s t ≡ false → text_le t s ≡ true
unfolding text_le
text_le_total [] t h = cc
text_le_total (c ∷ s) [] h = refl
text_le_total (c ∷ s) (d ∷ t) h = ground (arith, text_le_total s t)

text_le_trans : (s t u : Text) → text_le s t ≡ true → text_le t u ≡ true → text_le s u ≡ true
unfolding text_le
text_le_trans [] t u h k = refl
text_le_trans (c ∷ s) [] u h k = cc
text_le_trans (c ∷ s) (d ∷ t) [] h k = cc
text_le_trans (c ∷ s) (d ∷ t) (e ∷ u) h k = ground (arith, text_le_trans s t u)

stands_before_total :
    (a b : ExtractionConfig) → stands_before a b ≡ false → stands_before b a ≡ true
stands_before_total a b h = ground (arith, text_le_total a.field_id b.field_id)

stands_before_trans :
    (a b c : ExtractionConfig)
    → stands_before a b ≡ true
    → stands_before b c ≡ true
    → stands_before a c ≡ true
stands_before_trans a b c h k = ground (arith, text_le_trans a.field_id b.field_id c.field_id)

-- Each configuration stands before those behind it.
abbrev pub IsOrdered : List ExtractionConfig → Type 0
IsOrdered [] = Unit
IsOrdered (c ∷ cs) = All (λ d. stands_before c d ≡ true) cs × IsOrdered cs

insert_config-All :
    (P : ExtractionConfig → Type 0) (c : ExtractionConfig) (ds : List ExtractionConfig)
    → P c
    → All P ds
    → All P (insert_config c ds)
unfolding insert_config
insert_config-All P c [] h k = (h, tt)
insert_config-All P c (d ∷ ds) h k = elim (Bool-cases (stands_before c d)) [
  | inl e ↦ rw e (h, k)
  | inr e ↦ rw e (k.0, insert_config-All P c ds h k.1)
]

insert_config-IsOrdered :
    (c : ExtractionConfig) (ds : List ExtractionConfig)
    → IsOrdered ds
    → IsOrdered (insert_config c ds)
unfolding insert_config
insert_config-IsOrdered c [] h = (tt, tt)
insert_config-IsOrdered c (d ∷ ds) h = elim (Bool-cases (stands_before c d)) [
  | inl e ↦ rw e ((e, All-map _ _ ds (λ x before. stands_before_trans c d x e before) h.0), h)
  | inr e ↦
      rw e
        (insert_config-All _ c ds (stands_before_total c d e) h.0, insert_config-IsOrdered c ds h.1)
]

pub sort_configs-IsOrdered : (cs : List ExtractionConfig) → IsOrdered (sort_configs cs)
unfolding sort_configs
sort_configs-IsOrdered [] = tt
sort_configs-IsOrdered (c ∷ cs) = insert_config-IsOrdered c _ (sort_configs-IsOrdered cs)

pub sort_configs-All :
    (P : ExtractionConfig → Type 0) (cs : List ExtractionConfig)
    → All P cs
    → All P (sort_configs cs)
unfolding sort_configs
sort_configs-All P [] h = tt
sort_configs-All P (c ∷ cs) h = insert_config-All P c _ h.0 (sort_configs-All P cs h.1)

-- How many items have a property.
abbrev pub count : {A : Type 0} → (A → Bool) → List A → ℕ
count p xs = length (filter p xs)

count-insert_config :
    (p : ExtractionConfig → Bool) (c : ExtractionConfig) (ds : List ExtractionConfig)
    → count p (insert_config c ds) ≡ count p (c ∷ ds)
unfolding insert_config
count-insert_config p c [] = refl
count-insert_config p c (d ∷ ds) = ground (arith, count-insert_config p c ds)

pub count-sort_configs :
    (p : ExtractionConfig → Bool) (cs : List ExtractionConfig)
    → count p (sort_configs cs) ≡ count p cs
unfolding sort_configs
count-sort_configs p [] = refl
count-sort_configs p (c ∷ cs) =
    ground (arith, count-insert_config p c (sort_configs cs), count-sort_configs p cs)

pub config-to_target : (cs : List ExtractionConfig) → map (λ t. t.config) (map to_target cs) ≡ cs
config-to_target [] = refl
config-to_target (c ∷ cs) = ap (λ ds. c ∷ ds) (config-to_target cs)

-- A configuration of this type that the flags let through.
abbrev pub is_wanted : Text → Bool → Bool → ExtractionConfig → Bool
is_wanted id include_optional include_deprecated c =
    is_selected include_optional include_deprecated c && c.canonical_type_id == id

pub get_targets_for_canonical_type_lem :
    (configs : List ExtractionConfig) (id : Text) (include_optional include_deprecated : Bool)
    → get_targets_for_canonical_type configs id include_optional include_deprecated
      ≡ map to_target
          (sort_configs (filter (is_wanted id include_optional include_deprecated) configs))
unfolding get_targets_for_canonical_type
get_targets_for_canonical_type_lem configs id include_optional include_deprecated =
    ap
      (λ cs.
        map to_target (sort_configs (filter (is_selected include_optional include_deprecated) cs)))
      (get_list-index (λ c. some c.canonical_type_id) id configs)
    ∙ ap (λ cs. map to_target (sort_configs cs)) (filter-filter _ _ configs)
