-- ===== src/Models/Alert/Construct.antt =====
-- The validators of `Alert` in backend/app/models/alert.py, and what its constructor makes of fields
-- of any type. An error of a field is a ValueError, which pydantic collects; another exception
-- passes through the constructor.
pub mod Laws
use soc_investigation_lab.Common.{
  ℕ, String, Bool, true, false, ◌&&◌, ◌||◌, Option, none, some, Result, ok, err, leb, if◌then◌else◌,
  length,
}
use soc_investigation_lab.Python.Text.{text_length}
use soc_investigation_lab.Python.Exceptions.{Exception, value_error, validation_error}
use soc_investigation_lab.Python.Datetime.{Datetime, has_offset, astimezone_utc, datetime_leb}
use soc_investigation_lab.Python.Value.{Value, string, timestamp}
use soc_investigation_lab.Models.Event.{validate_event}
use soc_investigation_lab.Models.Rule.{is_slug}
use soc_investigation_lab.Models.Trace.{ConditionTrace, Traces, trace, validate_trace}
use soc_investigation_lab.Models.Match.{DetectionMatch, validate_match}
use soc_investigation_lab.Models.Alert.{Alert, AlertState, AlertSeverity, AlertPriority}

-- The fields of an alert as objects of any type: `none` stands for an object of another class.
pub record AlertFields : Type 0 where
  pub alert_id : Value
  pub source_match : Option DetectionMatch
  pub created_at : Value
  pub state : Option AlertState
  pub state_changed_at : Value
  pub severity : Option AlertSeverity
  pub priority : Option AlertPriority
  pub updated_at : Value

-- `dict(alert)`
abbrev pub fields_of : Alert → AlertFields
fields_of a = record {
  alert_id = string a.alert_id;
  source_match = some a.source_match;
  created_at = timestamp a.created_at;
  state = some a.state;
  state_changed_at = timestamp a.state_changed_at;
  severity = some a.severity;
  priority = some a.priority;
  updated_at = timestamp a.updated_at;
}

pub data AlertField : Type 0 where
  alert_id_field source_match_field created_at_field state_field state_changed_at_field : AlertField
  severity_field priority_field updated_at_field : AlertField

-- What the validation of one field gives.
pub data Checked {ℓ} (A : Type ℓ) : Type ℓ where
  accepted : A → Checked A
  rejected : Checked A
  raised : Exception → Checked A

-- An exception in a validator: pydantic takes a ValueError for a rejection.
abbrev pub from_validator : Exception → Checked Datetime
from_validator value_error = rejected
from_validator validation_error = rejected
from_validator e = raised e

abbrev pub utc_of : Result Exception Datetime → Checked Datetime
utc_of (ok u) = accepted u
utc_of (err e) = from_validator e

abbrev pub aware_utc : Datetime → Result Exception Bool → Checked Datetime
aware_utc d (ok true) = utc_of (astimezone_utc d)
aware_utc d (ok false) = rejected
aware_utc d (err e) = from_validator e

-- `require_aware_utc_instant`
unfoldable pub require_aware_utc_instant : Value → Checked Datetime
require_aware_utc_instant (timestamp d) = aware_utc d (has_offset d)
require_aware_utc_instant _ = rejected

-- `StrictStr` of 1 to 128 characters, and a slug.
unfoldable pub valid_alert_id : String → Bool
unfolding is_slug
valid_alert_id s = leb 1 (text_length s) && leb (text_length s) 128 && is_slug s

unfoldable pub check_alert_id : Value → Checked String
check_alert_id (string s) = if valid_alert_id s then accepted s else rejected
check_alert_id _ = rejected

-- The models accept every node of the trace.
unfoldable mutual
  pub validate_trace_tree : ConditionTrace → Bool
  validate_trace_tree (trace e ts) = validate_trace e ts && validate_trace_trees ts

  pub validate_trace_trees : Traces → Bool
  validate_trace_trees Traces.nil = true
  validate_trace_trees (Traces.cons t ts) = validate_trace_tree t && validate_trace_trees ts

-- `DetectionMatch.model_validate(data, strict=True)` of a dumped match: the event, the trace and the
-- match are validated again. The fields have their types here, so that the dump of a match, read
-- strictly, has the fields of the match, and only the validators can reject it.
unfoldable pub revalidate_match : DetectionMatch → Bool
revalidate_match m = validate_event m.event && validate_trace_tree m.trace && validate_match m

-- `own_validated_match`: with typed fields the copy equals the original, so that the comparison of
-- the two is left out.
unfoldable pub own_validated_match : Option DetectionMatch → Checked DetectionMatch
own_validated_match none = rejected
own_validated_match (some m) = if revalidate_match m then accepted m else rejected

-- A member of the field's enumeration.
abbrev pub check_member {ℓ} : {A : Type ℓ} → Option A → Checked A
check_member none = rejected
check_member (some a) = accepted a

-- The fields validated so far: all of them are good, or the first bad one, or an exception.
pub data Draft {ℓ} (A : Type ℓ) : Type ℓ where
  complete : A → Draft A
  incomplete : AlertField → Draft A
  failed : Exception → Draft A

-- Validate one more field.
abbrev pub with_field {ℓ κ} :
    {A : Type ℓ} {B : Type κ} → Draft (A → B) → AlertField → Checked A → Draft B
with_field (complete f) field (accepted a) = complete (f a)
with_field (complete f) field rejected = incomplete field
with_field (incomplete first) field (accepted a) = incomplete first
with_field (incomplete first) field rejected = incomplete first
with_field (failed e) field _ = failed e
with_field _ field (raised e) = failed e

abbrev pub new_alert :
    String
    → DetectionMatch
    → Datetime
    → AlertState
    → Datetime
    → AlertSeverity
    → AlertPriority
    → Datetime
    → Alert
new_alert id m created s changed sev prio updated = record {
  alert_id = id;
  source_match = m;
  created_at = created;
  state = s;
  state_changed_at = changed;
  severity = sev;
  priority = prio;
  updated_at = updated;
}

-- A constructor and the checks of its arguments, in the order of the model's fields.
abbrev pub draft_alert :
    (String
      → DetectionMatch
      → Datetime
      → AlertState
      → Datetime
      → AlertSeverity
      → AlertPriority
      → Datetime
      → Alert)
    → Checked String
    → Checked DetectionMatch
    → Checked Datetime
    → Checked AlertState
    → Checked Datetime
    → Checked AlertSeverity
    → Checked AlertPriority
    → Checked Datetime
    → Draft Alert
draft_alert build id m created state changed severity priority updated =
    let d = with_field (complete build) alert_id_field id in
    let d = with_field d source_match_field m in
    let d = with_field d created_at_field created in
    let d = with_field d state_field state in
    let d = with_field d state_changed_at_field changed in
    let d = with_field d severity_field severity in
    let d = with_field d priority_field priority in with_field d updated_at_field updated

-- `validate_timestamp_order`
unfoldable pub validate_timestamp_order : Alert → Bool
validate_timestamp_order a =
    datetime_leb a.created_at a.state_changed_at && datetime_leb a.state_changed_at a.updated_at

-- A ValidationError with the first field that was rejected, or `none` for the whole model; or
-- another exception.
pub data ConstructionError : Type 0 where
  invalid : Option AlertField → ConstructionError
  propagated : Exception → ConstructionError

abbrev pub finish : Draft Alert → Result ConstructionError Alert
finish (complete a) = if validate_timestamp_order a then ok a else err (invalid none)
finish (incomplete field) = err (invalid (some field))
finish (failed e) = err (propagated e)

-- `Alert(...)`, the fields in their order.
unfoldable pub construct_alert : AlertFields → Result ConstructionError Alert
construct_alert f = finish (
    draft_alert new_alert (check_alert_id f.alert_id) (own_validated_match f.source_match)
      (require_aware_utc_instant f.created_at) (check_member f.state)
      (require_aware_utc_instant f.state_changed_at) (check_member f.severity)
      (check_member f.priority) (require_aware_utc_instant f.updated_at))
