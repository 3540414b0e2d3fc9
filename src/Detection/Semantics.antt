-- ===== src/Detection/Semantics.antt =====
-- backend/app/detection/semantics.py: the types of fields, and the operands that a rule may give.
pub mod Fields
pub mod Tables
pub mod Kinds
use soc_investigation_lab.Common.{
  ℕ, String, ◌≡◌, Bool, true, false, ◌&&◌, ◌||◌, not, Option, none, some, List, [], ◌∷◌, Result, ok,
  err, ◌>>=◌, ◌>>◌, guard, ◌==◌, string_eq, is_unique, member, if◌then◌else◌,
}
use soc_investigation_lab.Python.Int.{ℤ}
use soc_investigation_lab.Python.Text.{startswith}
use soc_investigation_lab.Python.Datetime.{Datetime, has_offset, astimezone_utc}
use soc_investigation_lab.Python.Address.{Address, Network}
use soc_investigation_lab.Python.Exceptions.{Exception}
use soc_investigation_lab.Python.Value.{Value, integer, string}
use soc_investigation_lab.Models.Event.{EventCategory}
use soc_investigation_lab.Models.Condition.{
  DetectionOperator, contains, contains_any, starts_with, ends_with, ip_in_cidr, operator_value,
  is_one_of, integer_operators, list_operators, existence_operators, Operand, omitted, given,
  listed, has_value, LeafCondition, ConditionNode, Nodes,
}
use soc_investigation_lab.Models.Rule.{DetectionRule, Sources, only}
use soc_investigation_lab.Detection.Errors.{EvaluationError, incompatible}
use soc_investigation_lab.Detection.Semantics.Fields.{
  FieldType, string_field, integer_field, timestamp_field, ip_field, field_type_eq, field_type,
}

-- `str | int | datetime | IPv4Address | IPv6Address`
pub data Scalar : Type 0 where
  of_str : String → Scalar
  of_int : ℤ → Scalar
  of_datetime : Datetime → Scalar
  of_address : Address → Scalar

-- `Scalar | IPv4Network | IPv6Network`
pub data Literal : Type 0 where
  scalar : Scalar → Literal
  network : Network → Literal

-- The parsers of the standard library that read a text: `none` is a ValueError.
pub record TextParsers : Type 0 where
  pub ip_address : String → Option Address
  pub ip_network : String → Option Network
  pub fromisoformat : String → Option Datetime

abbrev pub string_only : List DetectionOperator
string_only = contains ∷ contains_any ∷ starts_with ∷ ends_with ∷ []

-- `op in ops and kind is not required`
abbrev needs : List DetectionOperator → FieldType → DetectionOperator → FieldType → Bool
needs ops required op kind = is_one_of op ops && not (kind == required)

unfoldable pub incompatible_field_type : DetectionOperator → FieldType → Bool
incompatible_field_type op kind =
    needs string_only string_field op kind
    || needs integer_operators integer_field op kind
    || needs (ip_in_cidr ∷ []) ip_field op kind

abbrev pub is_nonempty_list : Operand → Bool
is_nonempty_list (listed []) = false
is_nonempty_list (listed (v ∷ vs)) = true
is_nonempty_list _ = false

-- `[field_type(field, category) for category in categories]`
unfoldable pub field_types : String → List EventCategory → Result EvaluationError (List FieldType)
field_types field [] = ok []
field_types field (c ∷ cs) = do
  kind ← field_type field c
  kinds ← field_types field cs
  ok (kind ∷ kinds)

abbrev pub same_kinds : FieldType → List FieldType → Bool
same_kinds k [] = true
same_kinds k (j ∷ js) = k == j && same_kinds k js

-- `kinds[0]`, if `len(set(kinds)) == 1`
unfoldable pub only_kind : List FieldType → Option FieldType
only_kind [] = none
only_kind (k ∷ ks) = if same_kinds k ks then some k else none

-- `not rule.sources`
abbrev pub lacks_sources : Sources → Bool
lacks_sources (only (s ∷ ss)) = false
lacks_sources _ = true

abbrev pub or_incompatible {ℓ} :
    {A : Type ℓ} → String → DetectionOperator → String → Option A → Result EvaluationError A
or_incompatible field op reason (some a) = ok a
or_incompatible field op reason none = err (incompatible field (operator_value op) reason)

module _ (parsers : TextParsers) where
  -- A zone that `fromisoformat` makes does not raise.
  abbrev to_utc : Datetime → Option Scalar
  to_utc d = elim (has_offset d) [
    | ok true ↦ elim (astimezone_utc d) [ ok u ↦ some (of_datetime u) | err e ↦ none ]
    | _ ↦ none
  ]

  abbrev as_address : Option Address → Option Scalar
  as_address none = none
  as_address (some a) = some (of_address a)

  abbrev as_timestamp : Option Datetime → Option Scalar
  as_timestamp none = none
  as_timestamp (some d) = to_utc d

  -- The literal of a text, or `none` where `_literal` falls through to its last line.
  abbrev text_literal : FieldType → String → Option Scalar
  text_literal string_field s = some (of_str s)
  text_literal integer_field s = none
  text_literal timestamp_field s = as_timestamp (parsers.fromisoformat s)
  text_literal ip_field s = as_address (parsers.ip_address s)

  abbrev value_literal : FieldType → Value → Option Scalar
  value_literal integer_field (integer n) = some (of_int n)
  value_literal kind (string s) = text_literal kind s
  value_literal _ _ = none

  unfoldable pub literal :
      String → FieldType → DetectionOperator → Value → Result EvaluationError Scalar
  unfolding has_offset astimezone_utc
  literal field kind op value =
      or_incompatible field op "invalid_literal_type_or_value" (value_literal kind value)

  unfoldable pub literals :
      String → FieldType → DetectionOperator → List Value → Result EvaluationError (List Literal)
  unfolding literal
  literals field kind op [] = ok []
  literals field kind op (v ∷ vs) = do
    s ← literal field kind op v
    rest ← literals field kind op vs
    ok (scalar s ∷ rest)

  abbrev cidr_network : Operand → Option Network
  cidr_network (given (string s)) = parsers.ip_network s
  cidr_network _ = none

  -- The operand of `ip_in_cidr`.
  unfoldable pub cidr_operand :
      String → DetectionOperator → Operand → Result EvaluationError (List Literal)
  cidr_operand field op value = do
    n ← or_incompatible field op "invalid_cidr" (cidr_network value)
    ok (network n ∷ [])

  -- The operands of the operators that take a list.
  unfoldable pub list_operand :
      String → FieldType → DetectionOperator → Operand → Result EvaluationError (List Literal)
  unfolding literals
  list_operand field kind op (listed (v ∷ vs)) = literals field kind op (v ∷ vs)
  list_operand field kind op _ = err (incompatible field (operator_value op) "invalid_operand_list")

  -- The one operand of the other operators. Neither a list nor an omitted value, which reads as
  -- None, is a literal.
  unfoldable pub single_operand :
      String → FieldType → DetectionOperator → Operand → Result EvaluationError (List Literal)
  unfolding literal
  single_operand field kind op (given v) = do s ← literal field kind op v; ok (scalar s ∷ [])
  single_operand field kind op _ =
      err (incompatible field (operator_value op) "invalid_literal_type_or_value")

  unfoldable pub validated_operands :
      FieldType → LeafCondition → Result EvaluationError (List Literal)
  unfolding incompatible_field_type cidr_operand list_operand single_operand
  validated_operands kind leaf =
      if is_one_of leaf.op existence_operators
      then (if has_value leaf.value
          then err (incompatible leaf.field (operator_value leaf.op) "unexpected_operand")
          else ok [])
      else if incompatible_field_type leaf.op kind
      then err (incompatible leaf.field (operator_value leaf.op) "incompatible_field_type")
      else if is_one_of leaf.op (ip_in_cidr ∷ [])
      then cidr_operand leaf.field leaf.op leaf.value
      else if is_one_of leaf.op list_operators
      then list_operand leaf.field kind leaf.op leaf.value
      else single_operand leaf.field kind leaf.op leaf.value

  -- The checks of a leaf for the categories and sources that a rule targets.
  unfoldable pub validate_leaf_semantics :
      List EventCategory → Sources → LeafCondition → Result EvaluationError (Unit {0})
  validate_leaf_semantics categories sources leaf = do
    guard (not (startswith leaf.field "source_data." && lacks_sources sources))
        (incompatible leaf.field (operator_value leaf.op) "sources_required")
    kinds ← field_types leaf.field categories
    kind ← or_incompatible leaf.field leaf.op "incompatible_category_types" (only_kind kinds)
    operands ← validated_operands kind leaf
    ok tt

  unfoldable mutual
    pub validate_node :
        List EventCategory → Sources → ConditionNode → Result EvaluationError (Unit {0})
    validate_node categories sources (ConditionNode.leaf l) =
        validate_leaf_semantics categories sources l
    validate_node categories sources (ConditionNode.all ns) = validate_nodes categories sources ns
    validate_node categories sources (ConditionNode.any ns) = validate_nodes categories sources ns
    validate_node categories sources (ConditionNode.not_ n) = validate_node categories sources n

    pub validate_nodes : List EventCategory → Sources → Nodes → Result EvaluationError (Unit {0})
    validate_nodes categories sources Nodes.nil = ok tt
    validate_nodes categories sources (Nodes.cons n ns) = do
      validate_node categories sources n
      validate_nodes categories sources ns

  unfoldable pub validate_detection_rule_semantics :
      DetectionRule → Result EvaluationError (Unit {0})
  validate_detection_rule_semantics rule = validate_node rule.categories rule.sources rule.condition
