-- ===== src/Alerts/Policy.antt =====
-- backend/app/alerts/policy.py: the severity and the priority of an active alert.
pub mod Changes
use soc_investigation_lab.Common.{
  String, ℕ, Bool, Option, none, some, Result, ok, err, ◌>>=◌, ◌>>◌, guard, not, ◌==◌,
  if◌then◌else◌,
}
use soc_investigation_lab.Python.Datetime.{Datetime, datetime_ltb}
use soc_investigation_lab.Python.Value.{Value, timestamp}
use soc_investigation_lab.Models.Alert.{
  Alert, AlertState, closed, AlertSeverity, AlertPriority, state_eq, severity_eq, priority_eq,
}
use soc_investigation_lab.Models.Alert.Construct.{AlertFields}
use soc_investigation_lab.Alerts.Validation.{
  AlertObject, read_alert_snapshot, normalize_change_time, validate_alert_fields,
}
use soc_investigation_lab.Alerts.Lifecycle.{ChangeError, change_error, or_error}

-- A request: `"severity"` or `"priority"` with a value, `none` for an object of another type.
pub data Policy : Type 0 where
  severity_policy : Option AlertSeverity → Policy
  priority_policy : Option AlertPriority → Policy

-- A request whose value has the type of the field.
pub data Change : Type 0 where
  to_severity : AlertSeverity → Change
  to_priority : AlertPriority → Change

abbrev pub field_name : Policy → String
field_name (severity_policy v) = "severity"
field_name (priority_policy v) = "priority"

-- `type(value) is type(previous)`
abbrev pub typed_change : Policy → Option Change
typed_change (severity_policy none) = none
typed_change (severity_policy (some v)) = some (to_severity v)
typed_change (priority_policy none) = none
typed_change (priority_policy (some v)) = some (to_priority v)

-- `value is previous`
abbrev pub is_previous : Alert → Change → Bool
is_previous a (to_severity v) = v == a.severity
is_previous a (to_priority v) = v == a.priority

-- `fields[field] = value` and `fields["updated_at"] = instant`
abbrev pub update_policy : AlertFields → Change → Datetime → AlertFields
update_policy f (to_severity v) instant = record {
  alert_id = f.alert_id;
  source_match = f.source_match;
  created_at = f.created_at;
  state = f.state;
  state_changed_at = f.state_changed_at;
  severity = some v;
  priority = f.priority;
  updated_at = timestamp instant;
}
update_policy f (to_priority v) instant = record {
  alert_id = f.alert_id;
  source_match = f.source_match;
  created_at = f.created_at;
  state = f.state;
  state_changed_at = f.state_changed_at;
  severity = f.severity;
  priority = some v;
  updated_at = timestamp instant;
}

-- The change itself, once the instant is in order and the alert is active.
unfoldable pub change_policy : Alert → AlertFields → Datetime → Change → Result ChangeError Alert
change_policy current fields instant change =
    if is_previous current change
    then ok current
    else or_error "invalid_alert" "alert"
        (validate_alert_fields (update_policy fields change instant))

-- `_set_policy`
unfoldable pub set_policy : AlertObject → Policy → Value → Result ChangeError Alert
set_policy alert policy changed_at = do
  (current, fields) ← or_error "invalid_alert" "alert" (read_alert_snapshot alert)
  change ← or_error "invalid_value" (field_name policy) (typed_change policy)
  instant ← or_error "invalid_changed_at" "changed_at" (normalize_change_time changed_at)
  guard (not (datetime_ltb instant current.updated_at))
      (change_error "out_of_order_changed_at" "changed_at")
  guard (not (current.state == closed)) (change_error "closed_alert" "state")
  change_policy current fields instant change

unfoldable pub set_severity : AlertObject → Option AlertSeverity → Value → Result ChangeError Alert
unfolding set_policy
set_severity alert value changed_at = set_policy alert (severity_policy value) changed_at

unfoldable pub set_priority : AlertObject → Option AlertPriority → Value → Result ChangeError Alert
unfolding set_policy
set_priority alert value changed_at = set_policy alert (priority_policy value) changed_at
