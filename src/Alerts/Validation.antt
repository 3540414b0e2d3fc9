-- ===== src/Alerts/Validation.antt =====
-- backend/app/alerts/_validation.py: reading an alert that may have bypassed validation.
pub mod Laws
use soc_investigation_lab.Common.{
  Bool, true, false, ◌&&◌, Option, none, some, Result, ok, err, if◌then◌else◌,
}
use soc_investigation_lab.Python.Datetime.{Datetime, is_utc}
use soc_investigation_lab.Python.Value.{Value, timestamp}
use soc_investigation_lab.Models.Alert.{Alert}
use soc_investigation_lab.Models.Alert.Construct.{
  AlertFields, Checked, accepted, rejected, raised, require_aware_utc_instant, construct_alert,
}

-- An object handed to an operation: an instance of Alert, with whether its `vars` and its iteration
-- name exactly the fields of the model, and the objects in its fields; or something else.
-- `model_copy` can put any object into a field and add names.
pub data AlertObject : Type 0 where
  alert_object : Bool → AlertFields → AlertObject
  other_object : AlertObject

abbrev pub accepted_only {ℓ} : {A : Type ℓ} → Checked A → Option A
accepted_only (accepted a) = some a
accepted_only rejected = none
accepted_only (raised e) = none

unfoldable pub normalize_change_time : Value → Option Datetime
unfolding require_aware_utc_instant
normalize_change_time value = accepted_only (require_aware_utc_instant value)

abbrev pub returned_only {ℓ κ} : {E : Type ℓ} {A : Type κ} → Result E A → Option A
returned_only (ok a) = some a
returned_only (err e) = none

unfoldable pub validate_alert_fields : AlertFields → Option Alert
validate_alert_fields fields = returned_only (construct_alert fields)

-- `isinstance(value, datetime) and value.tzinfo is UTC`
abbrev pub is_canonical : Value → Bool
is_canonical (timestamp d) = is_utc d
is_canonical _ = false

unfoldable pub has_canonical_timestamps : AlertFields → Bool
has_canonical_timestamps f =
    is_canonical f.created_at && is_canonical f.state_changed_at && is_canonical f.updated_at

abbrev pub with_fields : AlertFields → Option Alert → Option (Alert × AlertFields)
with_fields fields none = none
with_fields fields (some a) = some (a, fields)

unfoldable pub read_alert_snapshot : AlertObject → Option (Alert × AlertFields)
read_alert_snapshot other_object = none
read_alert_snapshot (alert_object has_model_fields fields) =
    if has_model_fields && has_canonical_timestamps fields
    then with_fields fields (validate_alert_fields fields)
    else none
