-- ===== src/Detection/Evaluator.antt =====
-- backend/app/detection/evaluator.py: resolution of fields, comparison, and evaluation of a tree.
pub mod Dump
pub mod Resolve
pub mod Compare
pub mod Resolution
pub mod Comparison
pub mod Leaves
pub mod Totality
pub mod Kleene
pub mod Meaning
pub mod Networks
pub mod Validated
pub mod Explanation
use soc_investigation_lab.Common.{
  ℕ, ◌+◌, String, Bool, true, false, ◌&&◌, ◌||◌, not, Option, none, some, List, [], ◌∷◌, Result, ok,
  err, ◌>>=◌, ◌>>◌, guard, map_err, eqb, ◌==◌, string_eq, lookup, any_of, if◌then◌else◌,
}
use soc_investigation_lab.Python.Int.{ltb_ℤ, leb_ℤ, eqb_ℤ}
use soc_investigation_lab.Python.Text.{◌<>◌, split, startswith, endswith, contains as text_contains}
use soc_investigation_lab.Python.Exceptions.{
  Exception, type_error, index_error, key_error, other_error,
}
use soc_investigation_lab.Python.Datetime.{has_offset, astimezone_utc, datetime_eq}
use soc_investigation_lab.Python.Address.{address_eq, in_network}
use soc_investigation_lab.Python.Value.{
  Value, none_value, integer, string, enum_text, timestamp, address,
}
use soc_investigation_lab.Models.Event.{NormalizedEvent, context_category, category_eq}
use soc_investigation_lab.Models.Condition.{
  DetectionOperator, equals, not_equals, in_list, not_in_list, contains, contains_any, starts_with,
  ends_with, greater_than, greater_or_equal, less_than, less_or_equal, ip_in_cidr, exists,
  not_exists, is_one_of, existence_operators, Operand, omitted, LeafCondition, ConditionNode, Nodes,
}
use soc_investigation_lab.Models.Trace.{
  ConditionOutcome, true_outcome, false_outcome, unknown, outcome_eq, Kind, leaf_kind, all_kind,
  any_kind, not_kind, Absence, missing, absent, Evidence, ConditionTrace, Traces, evidence,
  child_location, condition_trace,
}
use soc_investigation_lab.Detection.Errors.{
  EvaluationError, incompatible, evaluation_error, Raised, controlled, uncontrolled, builtin,
  checked,
}
use soc_investigation_lab.Detection.Semantics.Fields.{
  FieldType, string_field, integer_field, timestamp_field, ip_field, field_type,
}
use soc_investigation_lab.Detection.Semantics.{
  Scalar, of_str, of_int, of_datetime, of_address, Literal, scalar, network, TextParsers,
  validated_operands,
}
use soc_investigation_lab.Detection.Evaluator.Resolve.{
  FieldPresence, present, missing_field, absent_field, ResolvedField, scalar_object,
  resolve_event_field,
}
use soc_investigation_lab.Detection.Evaluator.Compare.{compare_scalar}

abbrev pub outcome_of : Bool → ConditionOutcome
outcome_of true = true_outcome
outcome_of false = false_outcome

-- The outcome of a leaf: existence is about presence, anything else needs a value.
unfoldable pub leaf_outcome :
    DetectionOperator → Option Scalar → List Literal → Result Exception ConditionOutcome
unfolding compare_scalar
leaf_outcome op none operands =
    if is_one_of op existence_operators
    then ok (outcome_of (is_one_of op (not_exists ∷ [])))
    else ok unknown
leaf_outcome op (some actual) operands =
    if is_one_of op existence_operators
    then ok (outcome_of (is_one_of op (exists ∷ [])))
    else (do answer ← compare_scalar actual op operands; ok (outcome_of answer))

-- The presence of a field that is not there.
abbrev absence_of : FieldPresence → Option Absence
absence_of present = none
absence_of missing_field = some missing
absence_of absent_field = some absent

abbrev pub present_value : ResolvedField → Option Scalar
present_value f = elim f.presence [ present ↦ f.value | _ ↦ none ]

abbrev pub actual_of : Option Scalar → Option Value
actual_of none = none
actual_of (some s) = some (scalar_object s)

-- The fields of the trace of a leaf.
abbrev pub leaf_evidence : String → LeafCondition → ResolvedField → ConditionOutcome → Evidence
leaf_evidence location leaf f outcome = record {
  location = location;
  kind = leaf_kind;
  outcome = outcome;
  field = some leaf.field;
  op = some leaf.op;
  expected = if is_one_of leaf.op existence_operators then omitted else leaf.value;
  actual = actual_of (present_value f);
  absence = absence_of f.presence;
  redacted = false;
  redaction_marker = none;
}

-- The fields of the trace of a logical node.
abbrev pub node_evidence : String → Kind → ConditionOutcome → Evidence
node_evidence location kind outcome = record {
  location = location;
  kind = kind;
  outcome = outcome;
  field = none;
  op = none;
  expected = omitted;
  actual = none;
  absence = none;
  redacted = false;
  redaction_marker = none;
}

-- The outcome of a `not`.
abbrev pub negated : ConditionOutcome → ConditionOutcome
negated true_outcome = false_outcome
negated false_outcome = true_outcome
negated unknown = unknown

-- `outcome in {child.outcome for child in children}`
unfoldable pub some_child : ConditionOutcome → Traces → Bool
some_child o Traces.nil = false
some_child o (Traces.cons t ts) = o == (evidence t).outcome || some_child o ts

-- The outcome of an `all` (a conjunction) or an `any` over its children.
unfoldable pub aggregate : Bool → Traces → ConditionOutcome
unfolding some_child
aggregate conjunction ts =
    let decisive = if conjunction then false_outcome else true_outcome in
    if some_child decisive ts
    then decisive
    else if some_child unknown ts
    then unknown
    else if conjunction
    then true_outcome
    else false_outcome

abbrev pub is_conjunction : Kind → Bool
is_conjunction all_kind = true
is_conjunction _ = false

module _ (parsers : TextParsers) (event : NormalizedEvent) where
  unfoldable pub evaluate_leaf : LeafCondition → String → Result Raised ConditionTrace
  evaluate_leaf leaf location = do
    f ← resolve_event_field event leaf.field
    operands ← checked (validated_operands parsers f.field_type leaf)
    outcome ← builtin (leaf_outcome leaf.op (present_value f) operands)
    builtin (condition_trace (leaf_evidence location leaf f outcome) Traces.nil)

  -- The trace of a logical node over the traces of its children.
  abbrev pub node_trace : String → Kind → ConditionOutcome → Traces → Result Raised ConditionTrace
  node_trace location kind outcome ts =
      builtin (condition_trace (node_evidence location kind outcome) ts)

  -- Every child is evaluated before the outcomes are joined.
  unfoldable mutual
    pub evaluate : ConditionNode → String → Result Raised ConditionTrace
    evaluate (ConditionNode.leaf l) location = evaluate_leaf l location
    evaluate (ConditionNode.not_ n) location = do
      child ← evaluate n (location <> ".not")
      node_trace location not_kind (negated (evidence child).outcome) (Traces.cons child Traces.nil)
    evaluate (ConditionNode.all ns) location = do
      ts ← evaluate_children ns location all_kind 0
      node_trace location all_kind (aggregate true ts) ts
    evaluate (ConditionNode.any ns) location = do
      ts ← evaluate_children ns location any_kind 0
      node_trace location any_kind (aggregate false ts) ts

    pub evaluate_children : Nodes → String → Kind → ℕ → Result Raised Traces
    evaluate_children Nodes.nil location kind index = ok Traces.nil
    evaluate_children (Nodes.cons n ns) location kind index = do
      t ← evaluate n (child_location location kind index)
      ts ← evaluate_children ns location kind (index + 1)
      ok (Traces.cons t ts)

-- `except (TypeError, ValueError, AttributeError, KeyError, OverflowError, RecursionError)`
abbrev pub is_guarded : Exception → Bool
is_guarded index_error = false
is_guarded other_error = false
is_guarded _ = true

abbrev pub guarded : Raised → Raised
guarded (controlled e) = controlled e
guarded (uncontrolled e) =
    if is_guarded e
    then controlled (evaluation_error "invalid_evaluation_input")
    else uncontrolled e

module _ (parsers : TextParsers) (event : NormalizedEvent) where
  unfoldable pub evaluate_condition : ConditionNode → Result Raised ConditionTrace
  evaluate_condition condition = map_err guarded (evaluate parsers event condition "$")
