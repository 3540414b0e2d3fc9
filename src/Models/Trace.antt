-- ===== src/Models/Trace.antt =====
-- backend/app/models/detection.py, `_safe_actual` and `ConditionTrace` with its validator.
pub mod Location
use soc_investigation_lab.Common.{
  ℕ, ◌+◌, String, ◌≡◌, ◌↔◌, Bool, true, false, ◌&&◌, ◌||◌, not, Option, none, some, Result, ok, err,
  eqb, arith, ◌==◌, Eq, string_eq, if◌then◌else◌,
}
use soc_investigation_lab.Python.Text.{◌<>◌, decimal}
use soc_investigation_lab.Python.Exceptions.{Exception, validation_error}
use soc_investigation_lab.Python.Datetime.{has_offset}
use soc_investigation_lab.Python.Value.{
  Value, none_value, other, boolean, integer, string, enum_text, timestamp, address,
}
use soc_investigation_lab.Models.Condition.Paths.{valid_path}
use soc_investigation_lab.Models.Condition.{
  DetectionOperator, existence_operators, is_one_of, Operand, has_value, valid_operand,
}
use soc_investigation_lab.Models.Trace.Location.{valid_location}

pub data ConditionOutcome : Type 0 where
  true_outcome false_outcome unknown : ConditionOutcome

abbrev pub outcome_index : ConditionOutcome → ℕ
outcome_index true_outcome = 0
outcome_index false_outcome = 1
outcome_index unknown = 2

pub outcome_eq_iff :
    (a b : ConditionOutcome) → (eqb (outcome_index a) (outcome_index b) ≡ true) ↔ (a ≡ b)
outcome_eq_iff a b = ground arith

instance abbrev pub outcome_eq : Eq ConditionOutcome
outcome_eq = record {
  beq = λ a b. eqb (outcome_index a) (outcome_index b);
  beq_iff = outcome_eq_iff;
}

-- `Literal["leaf", "all", "any", "not"]`
pub data Kind : Type 0 where
  leaf_kind all_kind any_kind not_kind : Kind

abbrev pub kind_value : Kind → String
kind_value leaf_kind = "leaf"
kind_value all_kind = "all"
kind_value any_kind = "any"
kind_value not_kind = "not"

-- `Literal["missing", "absent"]`
pub data Absence : Type 0 where
  missing absent : Absence

-- The fields but the children. `actual` is `none` where it is not among `model_fields_set`.
pub record Evidence : Type 0 where
  pub location : String
  pub kind : Kind
  pub outcome : ConditionOutcome
  pub field : Option String
  pub op : Option DetectionOperator
  pub expected : Operand
  pub actual : Option Value
  pub absence : Option Absence
  pub redacted : Bool
  pub redaction_marker : Option String

mutual
  pub data ConditionTrace : Type 0 where
    trace : Evidence → Traces → ConditionTrace

  pub data Traces : Type 0 where
    nil : Traces
    cons : ConditionTrace → Traces → Traces

abbrev pub evidence : ConditionTrace → Evidence
evidence (trace e ts) = e

abbrev pub children : ConditionTrace → Traces
children (trace e ts) = ts

-- A datetime is safe if its offset is known; an exception of the tzinfo passes through the validator
-- only as a failure.
abbrev aware : Result Exception Bool → Bool
aware (ok b) = b
aware (err e) = false

unfoldable pub safe_actual : Value → Bool
unfolding has_offset
safe_actual none_value = false
safe_actual other = false
safe_actual (boolean b) = true
safe_actual (integer n) = true
safe_actual (string s) = true
safe_actual (enum_text s) = true
safe_actual (timestamp d) = aware (has_offset d)
safe_actual (address a) = true

abbrev pub is_some {ℓ} : {A : Type ℓ} → Option A → Bool
is_some none = false
is_some (some a) = true

abbrev pub no_children : Traces → Bool
no_children nil = true
no_children (cons t ts) = false

-- The checks on a leaf: a field, an operator, no children, and an operand that suits.
unfoldable pub valid_leaf_trace : Option String → Option DetectionOperator → Operand → Traces → Bool
unfolding valid_path valid_operand
valid_leaf_trace (some field) (some op) expected nil =
    valid_path field
    && (if is_one_of op existence_operators
        then not (has_value expected)
        else has_value expected && valid_operand op expected)
valid_leaf_trace _ _ _ _ = false

-- `self.children[0].location == f"{self.location}.not"`, for the one child.
abbrev pub valid_negation : String → Traces → Bool
valid_negation location (cons child nil) = (evidence child).location == location <> ".not"
valid_negation location _ = false

-- The location of a child of an `all` or an `any`.
abbrev pub child_location : String → Kind → ℕ → String
child_location location kind index =
    location <> "." <> kind_value kind <> "[" <> decimal index <> "]"

-- `child.location == f"{self.location}.{self.kind}[{index}]"` for each child from `index` on.
unfoldable pub valid_locations : String → Kind → ℕ → Traces → Bool
valid_locations location kind index nil = true
valid_locations location kind index (cons child ts) =
    (evidence child).location == child_location location kind index
    && valid_locations location kind (index + 1) ts

-- The checks on a logical node: no evidence of a leaf, and children that fit the kind.
unfoldable pub valid_children : Kind → String → Traces → Bool
unfolding valid_locations
valid_children leaf_kind location ts = true
valid_children not_kind location ts = valid_negation location ts
valid_children kind location ts = not (no_children ts) && valid_locations location kind 0 ts

abbrev no_leaf_evidence : Evidence → Bool
no_leaf_evidence e =
    not (is_some e.field)
    && not (is_some e.op)
    && not (has_value e.expected)
    && not (is_some e.actual)
    && not (is_some e.absence)

abbrev pub is_leaf_kind : Kind → Bool
is_leaf_kind leaf_kind = true
is_leaf_kind _ = false

abbrev valid_marker : Option String → Bool
valid_marker none = true
valid_marker (some m) = not (m == "")

-- A marker exactly when redacted, a leaf only, and no actual value beside it.
abbrev valid_redaction : Evidence → Bool
valid_redaction e =
    (if e.redacted then is_some e.redaction_marker else not (is_some e.redaction_marker))
    && valid_marker e.redaction_marker
    && (is_leaf_kind e.kind || not e.redacted)
    && not (e.redacted && is_some e.actual)

abbrev is_safe : Option Value → Bool
is_safe none = true
is_safe (some v) = safe_actual v

-- Absence excludes an actual value, an actual value is safe, and a leaf has some evidence.
abbrev valid_actual : Evidence → Bool
valid_actual e =
    not (is_some e.absence && is_some e.actual)
    && is_safe e.actual
    && (not (is_leaf_kind e.kind) || is_some e.actual || is_some e.absence || e.redacted)

-- Whether `ConditionTrace(...)` accepts the fields.
unfoldable pub validate_trace : Evidence → Traces → Bool
unfolding valid_location valid_leaf_trace valid_children safe_actual
validate_trace e ts =
    valid_location e.location
    && (if is_leaf_kind e.kind
        then valid_leaf_trace e.field e.op e.expected ts
        else no_leaf_evidence e)
    && valid_children e.kind e.location ts
    && valid_redaction e
    && valid_actual e

-- `ConditionTrace(...)`
unfoldable pub condition_trace : Evidence → Traces → Result Exception ConditionTrace
condition_trace e ts = if validate_trace e ts then ok (trace e ts) else err validation_error
