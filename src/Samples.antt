-- ===== src/Samples.antt =====
-- Whole numbers in the place of Python's, a row and a value, to run the definitions on.
use sustentra_platform.Prelude.{
  ℕ, ◌+◌, ◌-◌, ◌*◌, Option, none, some, [], ◌∷◌, nat_eq, leb, ◌&&◌, if◌then◌else◌,
}
use sustentra_platform.Text.{Text, lit}
use sustentra_platform.Value.{Numbers, text}
use sustentra_platform.Methodology.Types.{SchemaRow, s1, MethodologyValue}

abbrev pub digits_from : ℕ → Text → Option ℕ
digits_from n [] = some n
digits_from n (c ∷ s) =
    let rest = digits_from (n * 10 + (c - 48)) s in if leb 48 c && leb c 57 then rest else none

abbrev pub parse_digits : Text → Option ℕ
parse_digits [] = none
parse_digits (c ∷ s) = digits_from 0 (c ∷ s)

instance abbrev pub whole : Numbers ℕ
whole = record {
  show = λ n. (n + 48) ∷ [];
  parse_float = parse_digits;
  integral = λ n. n;
  to_float = λ n. n;
  zero = 0;
  add = λ a b. a + b;
  sub = λ a b. a - b;
  mul = λ a b. a * b;
  is_zero = λ n. nat_eq n 0;
}

abbrev pub row : SchemaRow
row = record {
  field_id = lit "S1-STC-010";
  layer = s1;
  grain = none;
  data_schema_fields = lit "fuel_quantity" ∷ [];
  value_origin = some (lit "Extracted");
  requirement_level = some (lit " core");
  condition = none;
  derived_from = [];
}

abbrev pub value : MethodologyValue ℕ
value = record {
  methodology_value_id = lit "v1";
  engagement_id = lit "e";
  evidence_id = lit "ev";
  document_id = lit "d";
  methodology_field_id = lit "S1-STC-010";
  data_schema_field = lit "fuel_quantity";
  grain = none;
  record_key = lit "k";
  approved_value = text (lit "12");
  approved_unit = none;
  approved_evidence_id = lit "ae";
  review_decision_id = lit "r";
  created_at = lit "t";
}
