-- ===== src/Pipeline/Targets.antt =====
-- backend/app/services/extraction_target_service.py. Of an extraction configuration, the model has what
-- the service reads; it copies the other fields into the target.
use sustentra_platform.Prelude.{
  ℕ, Bool, true, false, not, ◌&&◌, ◌||◌, Option, none, some, List, [], ◌∷◌, ◌++◌, map, filter, any,
  ltb, nat_eq, is_empty, if◌then◌else◌,
}
use sustentra_platform.Text.{Text, lit, ◌==◌}
use sustentra_platform.Dict.{text_key, get_list, index}

-- `ExtractionConfig`
pub record ExtractionConfig : Type 0 where
  pub canonical_type_id : Text
  pub field_id : Text
  pub required_status : Text
  pub population_status : Text

pub record Target : Type 0 where
  pub target_id : Text
  pub config : ExtractionConfig

-- `document_classification_result`, with the canonical types of the candidate matches.
pub record Classification : Type 0 where
  pub status : Option Text
  pub primary_canonical_type_id : Option Text
  pub candidate_matches : List (Option Text)

-- `_REQUIRED_STATUS_ORDER.get(s, 99)`
abbrev pub required_order : Text → ℕ
required_order s =
    if s == lit "core"
    then 0
    else if s == lit "conditional"
    then 1
    else if s == lit "optional"
    then 2
    else if s == lit "derived"
    then 3
    else 99

-- `s <= t` of texts
unfoldable pub text_le : Text → Text → Bool
text_le [] t = true
text_le (c ∷ s) [] = false
text_le (c ∷ s) (d ∷ t) = let rest = text_le s t in ltb c d || (nat_eq c d && rest)

-- The order of the sorting keys `(order of the status, field_id)`.
abbrev pub stands_before : ExtractionConfig → ExtractionConfig → Bool
stands_before a b =
    ltb (required_order a.required_status) (required_order b.required_status)
    || (nat_eq (required_order a.required_status) (required_order b.required_status)
        && text_le a.field_id b.field_id)

-- `selected.sort(…)`, which is stable
unfoldable pub insert_config : ExtractionConfig → List ExtractionConfig → List ExtractionConfig
insert_config c [] = c ∷ []
insert_config c (d ∷ ds) =
    let rest = insert_config c ds in if stands_before c d then c ∷ d ∷ ds else d ∷ rest

unfoldable pub sort_configs : List ExtractionConfig → List ExtractionConfig
sort_configs [] = []
sort_configs (c ∷ cs) = insert_config c (sort_configs cs)

-- `population_status in _EXCLUDED_BY_DEFAULT_POPULATION`
abbrev pub is_excluded : Text → Bool
is_excluded s = s == lit "deprecated" || s == lit "archived"

-- The tests of the loop of `get_targets_for_canonical_type`.
abbrev pub is_selected : Bool → Bool → ExtractionConfig → Bool
is_selected include_optional include_deprecated c =
    not (not include_deprecated && is_excluded c.population_status)
    && not (not include_optional && c.required_status == lit "optional")

-- `_to_target`
abbrev pub to_target : ExtractionConfig → Target
to_target c = record {
  target_id = lit "target::" ++ c.canonical_type_id ++ lit "::" ++ c.field_id;
  config = c;
}

-- `get_targets_for_canonical_type` of the service with these configurations
unfoldable pub get_targets_for_canonical_type :
    List ExtractionConfig → Text → Bool → Bool → List Target
get_targets_for_canonical_type configs id include_optional include_deprecated = map to_target (
    sort_configs (
      filter (is_selected include_optional include_deprecated)
        (get_list id (index (λ c. some c.canonical_type_id) configs))))

-- `id and id not in ordered`
abbrev pub add_id : Option Text → List Text → List Text
add_id none ordered = ordered
add_id (some id) ordered =
    if is_empty id || any (λ t. t == id) ordered then ordered else ordered ++ id ∷ []

unfoldable pub add_ids : List (Option Text) → List Text → List Text
add_ids [] ordered = ordered
add_ids (id ∷ ids) ordered = add_ids ids (add_id id ordered)

-- `_collect_candidate_canonical_type_ids`
unfoldable pub collect_candidate_ids : Classification → List Text
collect_candidate_ids c = add_ids c.candidate_matches (add_id c.primary_canonical_type_id [])

-- The inner loop: the targets whose id was not seen are appended.
unfoldable pub add_unseen : List Target → List Target → List Target
add_unseen [] targets = targets
add_unseen (t ∷ ts) targets =
    add_unseen ts
      (if any (λ s. s.target_id == t.target_id) targets then targets else targets ++ t ∷ [])

unfoldable pub add_types :
    List ExtractionConfig → Bool → Bool → List Text → List Target → List Target
add_types configs include_optional include_deprecated [] targets = targets
add_types configs include_optional include_deprecated (id ∷ ids) targets =
    add_types configs include_optional include_deprecated ids (
      add_unseen (get_targets_for_canonical_type configs id include_optional include_deprecated)
        targets)

abbrev pub targets_of_primary : List ExtractionConfig → Option Text → Bool → Bool → List Target
targets_of_primary configs none include_optional include_deprecated = []
targets_of_primary configs (some id) include_optional include_deprecated =
    if is_empty id
    then []
    else get_targets_for_canonical_type configs id include_optional include_deprecated

abbrev pub has_status : Option Text → Text → Bool
has_status none s = false
has_status (some t) s = t == s

-- `get_targets_for_classification_result`
unfoldable pub get_targets_for_classification_result :
    List ExtractionConfig → Classification → Bool → Bool → List Target
get_targets_for_classification_result configs c include_optional include_deprecated =
    if has_status c.status (lit "classified")
    then targets_of_primary configs c.primary_canonical_type_id include_optional include_deprecated
    else if has_status c.status (lit "multi_type_candidate")
    then add_types configs include_optional include_deprecated (collect_candidate_ids c) []
    else []
