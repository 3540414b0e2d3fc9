-- ===== src/Alerts/Lifecycle/Moves.antt =====
-- What a transition does to a validated alert at an instant in order.
use soc_investigation_lab.Common.{
  ◌≡◌, refl, true, false, none, some, Result, ok, err, arith, ◌==◌, if◌then◌else◌, sym, ◌∙◌, ◌⊎◌,
  inl, inr, Option-cases, Bool-cases,
}
use soc_investigation_lab.Python.Datetime.{Datetime, datetime_ltb, is_utc}
use soc_investigation_lab.Python.Value.{Value}
use soc_investigation_lab.Models.Alert.{
  Alert, AlertState, new, acknowledged, closed, state_eq, severity_eq, priority_eq, state_eq_iff,
}
use soc_investigation_lab.Models.Alert.Construct.{fields_of, validate_timestamp_order}
use soc_investigation_lab.Models.Alert.Construct.Laws.{IsValid}
use soc_investigation_lab.Alerts.Validation.{normalize_change_time, validate_alert_fields}
use soc_investigation_lab.Alerts.Validation.Laws.{
  object_of, read_alert_snapshot-object_of, validate_alert_fields-fields_of,
  normalize_change_time-is_utc,
}
use soc_investigation_lab.Alerts.Lifecycle.{
  ChangeError, change_error, change_state, transition, acknowledge_alert, close_alert,
}

-- The alert in a state since an instant.
abbrev pub moved : Alert → AlertState → Datetime → Alert
moved a target instant = record {
  alert_id = a.alert_id;
  source_match = a.source_match;
  created_at = a.created_at;
  state = target;
  state_changed_at = instant;
  severity = a.severity;
  priority = a.priority;
  updated_at = instant;
}

moved-ordered :
    (a : Alert) (target : AlertState) (u : Datetime)
    → validate_timestamp_order a ≡ true
    → datetime_ltb u a.updated_at ≡ false
    → validate_timestamp_order (moved a target u) ≡ true
unfolding validate_timestamp_order
moved-ordered a target u ordered late = ground (arith, ordered, late)

pub moved-IsValid :
    (a : Alert) (target : AlertState) (u : Datetime)
    → IsValid a
    → is_utc u ≡ true
    → datetime_ltb u a.updated_at ≡ false
    → IsValid (moved a target u)
moved-IsValid a target u v in_utc late = record {
  identity = v.identity;
  evidence = v.evidence;
  created_in_utc = v.created_in_utc;
  changed_in_utc = in_utc;
  updated_in_utc = in_utc;
  ordered = moved-ordered a target u v.ordered late;
}

-- A no-op at the target, a move from the source, and an error from any other state.
abbrev pub answer : Alert → Datetime → AlertState → AlertState → Result ChangeError Alert
answer a u source target =
    if a.state == target
    then ok a
    else if a.state == source
    then ok (moved a target u)
    else err (change_error "forbidden_transition" "state")

change_state-answer :
    (a : Alert) (u : Datetime) (source target : AlertState)
    → validate_alert_fields (fields_of (moved a target u)) ≡ some (moved a target u)
    → change_state a (fields_of a) u source target ≡ answer a u source target
unfolding change_state
change_state-answer a u source target e = elim (Bool-cases (a.state == target)) [
  | inl at_target ↦ rw at_target refl
  | inr elsewhere ↦ elim (Bool-cases (a.state == source)) [
    | inl here ↦ rw (elsewhere, here, e) refl
    | inr there ↦ rw (elsewhere, there) refl
  ]
]

pub transition-answer :
    (a : Alert) (at : Value) (u : Datetime) (source target : AlertState)
    → IsValid a
    → normalize_change_time at ≡ some u
    → datetime_ltb u a.updated_at ≡ false
    → transition (object_of a) at source target ≡ answer a u source target
unfolding transition
transition-answer a at u source target v e late =
    rw (read_alert_snapshot-object_of a v, e, late)
      (change_state-answer a u source target (
        validate_alert_fields-fields_of (moved a target u)
          (moved-IsValid a target u v (normalize_change_time-is_utc at e) late)))

-- For a validated alert that nobody changed and an instant that is aware and not before the
-- alert's last update, both operations answer: at the target state the alert as it is; from the
-- state before it the alert moved to the target at the instant in UTC, with its last update there
-- and every other field as it was; and from any other state the error `forbidden_transition`.
pub acknowledge-close-answer :
    (a : Alert) (at : Value) (u : Datetime)
    → IsValid a
    → normalize_change_time at ≡ some u
    → datetime_ltb u a.updated_at ≡ false
    → (acknowledge_alert (object_of a) at ≡ answer a u new acknowledged)
      × (close_alert (object_of a) at ≡ answer a u acknowledged closed)
unfolding acknowledge_alert close_alert
acknowledge-close-answer a at u v e late = (
  transition-answer a at u new acknowledged v e late,
  transition-answer a at u acknowledged closed v e late,
)

-- What a transition that returned did.
abbrev pub Moves : Alert → AlertState → AlertState → Alert → Type 0
Moves a source target b =
    (b ≡ a)
    ⊎ ((u : Datetime) × (a.state ≡ source)
        × (is_utc u ≡ true)
        × (datetime_ltb u a.updated_at ≡ false)
        × (b ≡ moved a target u))

answer-Moves :
    (a : Alert) (u : Datetime) (source target : AlertState) {b : Alert}
    → is_utc u ≡ true
    → datetime_ltb u a.updated_at ≡ false
    → answer a u source target ≡ ok b
    → Moves a source target b
answer-Moves a u source target {b} in_utc late h = elim (Bool-cases (a.state == target)) [
  | inl at_target ↦ let same : ok a ≡ ok b = rw at_target at h in inl cc
  | inr elsewhere ↦ elim (Bool-cases (a.state == source)) [
    | inl here ↦
        let same : ok (moved a target u) ≡ ok b = rw (elsewhere, here) at h in
        inr (u, (state_eq_iff a.state source).0 here, in_utc, late, cc)
    | inr there ↦
        let failed : err (change_error "forbidden_transition" "state") ≡ ok b =
          rw (elsewhere, there) at h in
        cc
  ]
]

pub transition-invalid_at :
    (a : Alert) (at : Value) (source target : AlertState)
    → IsValid a
    → normalize_change_time at ≡ none
    → transition (object_of a) at source target ≡ err (change_error "invalid_at" "at")
unfolding transition
transition-invalid_at a at source target v e = rw (read_alert_snapshot-object_of a v, e) refl

pub transition-out_of_order :
    (a : Alert) (at : Value) (u : Datetime) (source target : AlertState)
    → IsValid a
    → normalize_change_time at ≡ some u
    → datetime_ltb u a.updated_at ≡ true
    → transition (object_of a) at source target ≡ err (change_error "out_of_order_at" "at")
unfolding transition
transition-out_of_order a at u source target v e early =
    rw (read_alert_snapshot-object_of a v, e, early) refl

pub transition-Moves :
    (a : Alert) (at : Value) (source target : AlertState) {b : Alert}
    → IsValid a
    → transition (object_of a) at source target ≡ ok b
    → Moves a source target b
transition-Moves a at source target {b} v h = elim (Option-cases (normalize_change_time at)) [
  | inl none_at ↦ let failed = sym (transition-invalid_at a at source target v none_at) ∙ h in cc
  | inr (u, e) ↦ elim (Bool-cases (datetime_ltb u a.updated_at)) [
    | inl early ↦
        let failed = sym (transition-out_of_order a at u source target v e early) ∙ h in cc
    | inr late ↦
        answer-Moves a u source target (normalize_change_time-is_utc at e) late
          (sym (transition-answer a at u source target v e late) ∙ h)
  ]
]
