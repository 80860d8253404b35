-- ===== src/Methodology/Types.antt =====
-- Rows, edges, rules and values, with the fields that the services read. The other columns of the
-- workbooks are carried along by the program and read nowhere in the modelled code.
use sustentra_platform.Prelude.{Bool, Option, List}
use sustentra_platform.Text.{Text}
use sustentra_platform.Value.{Value}

-- `MethodologyLayer`
pub data Layer : Type 0 where
  gen s1 s2 : Layer

abbrev pub same_layer : Layer → Layer → Bool
same_layer gen gen = Bool.true
same_layer s1 s1 = Bool.true
same_layer s2 s2 = Bool.true
same_layer _ _ = Bool.false

-- `MethodologySchemaRow`
pub record SchemaRow : Type 0 where
  pub field_id : Text
  pub layer : Layer
  pub grain : Option Text
  pub data_schema_fields : List Text
  pub value_origin : Option Text
  pub requirement_level : Option Text
  pub condition : Option Text
  pub derived_from : List Text

-- `MethodologyEdge`
pub record Edge : Type 0 where
  pub edge_id : Text
  pub reference_type : Option Text

-- `RuntimeVerificationRule`
pub record Rule : Type 0 where
  pub rule_id : Text
  pub rule_type : Option Text
  pub assertion : Option Text
  pub is_provisional : Bool
  pub resolvable_applies_to : List Text
  pub unresolved_applies_to : List Text

-- `MethodologyValue`; the source reference is carried along as the text of its record key.
pub record MethodologyValue (N : Type 0) : Type 0 where
  pub methodology_value_id : Text
  pub engagement_id : Text
  pub evidence_id : Text
  pub document_id : Text
  pub methodology_field_id : Text
  pub data_schema_field : Text
  pub grain : Option Text
  pub record_key : Text
  pub approved_value : Value N
  pub approved_unit : Option Text
  pub approved_evidence_id : Text
  pub review_decision_id : Text
  pub created_at : Text
