-- ===== src/Alerts/Creation.antt =====
-- backend/app/alerts/creation.py: `create_alert`.
pub mod Laws
use soc_investigation_lab.Common.{String, Option, none, some, Result, ok, err}
use soc_investigation_lab.Python.Exceptions.{
  Exception, type_error, value_error, validation_error, overflow_error,
}
use soc_investigation_lab.Python.Value.{Value}
use soc_investigation_lab.Models.Match.{DetectionMatch}
use soc_investigation_lab.Models.Alert.{Alert, new, AlertSeverity, AlertPriority}
use soc_investigation_lab.Models.Alert.Construct.{
  AlertField, alert_id_field, source_match_field, created_at_field, state_field,
  state_changed_at_field, severity_field, priority_field, updated_at_field, AlertFields,
  ConstructionError, invalid, propagated, construct_alert,
}

-- `AlertCreationError(field)`, or an exception that the handlers let through.
pub data CreationError : Type 0 where
  creation_error : Option String → CreationError
  unhandled : Exception → CreationError

-- `_PUBLIC_FIELDS.get(...)`
abbrev pub public_field : AlertField → Option String
public_field source_match_field = some "match"
public_field alert_id_field = some "alert_id"
public_field created_at_field = some "created_at"
public_field state_changed_at_field = some "created_at"
public_field updated_at_field = some "created_at"
public_field _ = none

abbrev public_location : Option AlertField → Option String
public_location none = none
public_location (some f) = public_field f

-- The handlers of the construction.
unfoldable pub creation_failure : ConstructionError → CreationError
creation_failure (invalid location) = creation_error (public_location location)
creation_failure (propagated type_error) = creation_error none
creation_failure (propagated value_error) = creation_error none
creation_failure (propagated validation_error) = creation_error none
creation_failure (propagated overflow_error) = creation_error none
creation_failure (propagated e) = unhandled e

-- The fields that the constructor is given.
abbrev pub initial_fields :
    Option DetectionMatch → Value → Value → AlertSeverity → AlertPriority → AlertFields
initial_fields m alert_id created_at severity priority = record {
  alert_id = alert_id;
  source_match = m;
  created_at = created_at;
  state = some new;
  state_changed_at = created_at;
  severity = some severity;
  priority = some priority;
  updated_at = created_at;
}

abbrev pub or_creation_error : Result ConstructionError Alert → Result CreationError Alert
or_creation_error (ok a) = ok a
or_creation_error (err e) = err (creation_failure e)

-- `create_alert`: `none` stands for an object that is no match, severity or priority.
unfoldable pub create_alert :
    Option DetectionMatch
    → Value
    → Value
    → Option AlertSeverity
    → Option AlertPriority
    → Result CreationError Alert
create_alert m alert_id created_at none priority = err (creation_error (some "severity"))
create_alert m alert_id created_at (some severity) none = err (creation_error (some "priority"))
create_alert m alert_id created_at (some severity) (some priority) =
    or_creation_error (construct_alert (initial_fields m alert_id created_at severity priority))
