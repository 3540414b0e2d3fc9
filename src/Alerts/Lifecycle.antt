-- ===== src/Alerts/Lifecycle.antt =====
-- backend/app/alerts/lifecycle.py: the transitions of an alert's state.
pub mod Moves
use soc_investigation_lab.Common.{
  String, Bool, Option, none, some, Result, ok, err, ◌>>=◌, ◌>>◌, guard, not, ◌==◌, if◌then◌else◌,
}
use soc_investigation_lab.Python.Datetime.{Datetime, datetime_ltb}
use soc_investigation_lab.Python.Value.{Value, timestamp}
use soc_investigation_lab.Models.Alert.{
  Alert, AlertState, new, acknowledged, closed, state_eq, severity_eq, priority_eq,
}
use soc_investigation_lab.Models.Alert.Construct.{AlertFields}
use soc_investigation_lab.Alerts.Validation.{
  AlertObject, read_alert_snapshot, normalize_change_time, validate_alert_fields,
}

-- `AlertTransitionError` and `AlertPolicyError`: the reason and the field.
pub data ChangeError : Type 0 where
  change_error : String → String → ChangeError

abbrev pub or_error {ℓ} : {A : Type ℓ} → String → String → Option A → Result ChangeError A
or_error reason field (some a) = ok a
or_error reason field none = err (change_error reason field)

-- `fields.update(state=..., state_changed_at=..., updated_at=...)`
abbrev pub update_state : AlertFields → AlertState → Datetime → AlertFields
update_state f target instant = record {
  alert_id = f.alert_id;
  source_match = f.source_match;
  created_at = f.created_at;
  state = some target;
  state_changed_at = timestamp instant;
  severity = f.severity;
  priority = f.priority;
  updated_at = timestamp instant;
}

-- The moves from the state at hand, once the instant is in order.
unfoldable pub change_state :
    Alert → AlertFields → Datetime → AlertState → AlertState → Result ChangeError Alert
change_state current fields instant source target =
    if current.state == target
    then ok current
    else if not (current.state == source)
    then err (change_error "forbidden_transition" "state")
    else or_error "invalid_alert" "alert"
        (validate_alert_fields (update_state fields target instant))

-- `_transition`
unfoldable pub transition : AlertObject → Value → AlertState → AlertState → Result ChangeError Alert
transition alert at source target = do
  (current, fields) ← or_error "invalid_alert" "alert" (read_alert_snapshot alert)
  instant ← or_error "invalid_at" "at" (normalize_change_time at)
  guard (not (datetime_ltb instant current.updated_at)) (change_error "out_of_order_at" "at")
  change_state current fields instant source target

unfoldable pub acknowledge_alert : AlertObject → Value → Result ChangeError Alert
unfolding transition
acknowledge_alert alert at = transition alert at new acknowledged

unfoldable pub close_alert : AlertObject → Value → Result ChangeError Alert
unfolding transition
close_alert alert at = transition alert at acknowledged closed
