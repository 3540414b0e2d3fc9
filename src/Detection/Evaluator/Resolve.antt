-- ===== src/Detection/Evaluator/Resolve.antt =====
-- `FieldPresence`, `ResolvedField`, `_resolved` and `resolve_event_field` of
-- backend/app/detection/evaluator.py.
use soc_investigation_lab.Common.{
  String, Bool, true, false, Option, none, some, List, ◌∷◌, Result, ok, err, ◌>>=◌, ◌>>◌, guard,
  ◌==◌, string_eq, lookup, if◌then◌else◌,
}
use soc_investigation_lab.Python.Text.{split, startswith}
use soc_investigation_lab.Python.Exceptions.{Exception, index_error}
use soc_investigation_lab.Python.Datetime.{has_offset}
use soc_investigation_lab.Python.Value.{
  Value, none_value, integer, string, enum_text, timestamp, address,
}
use soc_investigation_lab.Models.Event.{NormalizedEvent, context_category, category_eq}
use soc_investigation_lab.Models.Trace.{outcome_eq}
use soc_investigation_lab.Detection.Errors.{
  incompatible, evaluation_error, Raised, controlled, uncontrolled, builtin, checked,
}
use soc_investigation_lab.Detection.Semantics.Fields.{
  FieldType, string_field, integer_field, timestamp_field, ip_field, field_type,
}
use soc_investigation_lab.Detection.Semantics.{Scalar, of_str, of_int, of_datetime, of_address}
use soc_investigation_lab.Detection.Evaluator.Dump.{dump_event, dump_context}

pub data FieldPresence : Type 0 where
  present missing_field absent_field : FieldPresence

pub record ResolvedField : Type 0 where
  pub path : String
  pub field_type : FieldType
  pub presence : FieldPresence
  pub value : Option Scalar

-- The scalar as the object that it is.
abbrev pub scalar_object : Scalar → Value
scalar_object (of_str s) = string s
scalar_object (of_int n) = integer n
scalar_object (of_datetime d) = timestamp d
scalar_object (of_address a) = address a

-- An aware datetime, or the wrong type.
abbrev aware_only : Scalar → Bool → Option Scalar
aware_only d true = some d
aware_only d false = none

-- The value of the field if its type is the declared one. A member of the event's enumerations is
-- read by its value.
unfoldable pub typed_value : FieldType → Value → Result Exception (Option Scalar)
unfolding has_offset
typed_value string_field (enum_text s) = ok (some (of_str s))
typed_value string_field (string s) = ok (some (of_str s))
typed_value integer_field (integer n) = ok (some (of_int n))
typed_value ip_field (address a) = ok (some (of_address a))
typed_value timestamp_field (timestamp d) = do
  offset ← has_offset d
  ok (aware_only (of_datetime d) offset)
typed_value _ _ = ok none

abbrev present_field : String → FieldType → Option Scalar → Result Raised ResolvedField
present_field path kind (some s) =
    ok (record { path = path; field_type = kind; presence = present; value = some s })
present_field path kind none = err (controlled (incompatible path "resolve" "invalid_actual_type"))

-- `_resolved`
unfoldable pub resolved : String → FieldType → Value → Result Raised ResolvedField
unfolding typed_value
resolved path kind none_value =
    ok (record { path = path; field_type = kind; presence = absent_field; value = none })
resolved path kind value = do s ← builtin (typed_value kind value); present_field path kind s

-- `field_path.split(".")[1]`
abbrev pub second_part : List String → Result Raised String
second_part (prefix ∷ name ∷ rest) = ok name
second_part _ = err (uncontrolled index_error)

-- A retained source field, or a missing one.
abbrev source_field : String → FieldType → Option String → Result Raised ResolvedField
source_field path kind (some s) = resolved path kind (string s)
source_field path kind none =
    ok (record { path = path; field_type = kind; presence = missing_field; value = none })

-- A declared field of the dumped model.
abbrev declared_field : String → FieldType → Option Value → Result Raised ResolvedField
declared_field path kind (some v) = resolved path kind v
declared_field path kind none = err (controlled (evaluation_error "invalid_evaluation_input"))

-- The retained text of a `source_data` path.
unfoldable pub resolve_source_data :
    NormalizedEvent → String → FieldType → Result Raised ResolvedField
unfolding split lookup resolved
resolve_source_data event path kind = do
  name ← second_part (split b'.' path)
  source_field path kind (lookup name event.source_data)

-- The field of a `context` path, in a context of the event's category only.
unfoldable pub resolve_context : NormalizedEvent → String → FieldType → Result Raised ResolvedField
unfolding split lookup dump_context resolved
resolve_context event path kind = do
  guard (context_category event.context == event.category)
      (controlled (evaluation_error "invalid_context_type"))
  name ← second_part (split b'.' path)
  declared_field path kind (lookup name (dump_context event.context))

unfoldable pub resolve_common : NormalizedEvent → String → FieldType → Result Raised ResolvedField
unfolding lookup dump_event resolved
resolve_common event path kind = declared_field path kind (lookup path (dump_event event))

unfoldable pub resolve_event_field : NormalizedEvent → String → Result Raised ResolvedField
unfolding field_type startswith resolve_source_data resolve_context resolve_common
resolve_event_field event path = do
  kind ← checked (field_type path event.category)
  if startswith path "source_data."
      then resolve_source_data event path kind
      else if startswith path "context."
      then resolve_context event path kind
      else resolve_common event path kind
