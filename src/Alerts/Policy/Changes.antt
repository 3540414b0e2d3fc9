-- ===== src/Alerts/Policy/Changes.antt =====
-- What a policy change does to a validated alert at an instant in order.
use soc_investigation_lab.Common.{
  ◌≡◌, refl, sym, ◌∙◌, ◌⊎◌, true, false, ◌&&◌, none, some, Result, ok, err, arith, ◌==◌,
  if◌then◌else◌, inl, inr, err-ok, Bool-cases, Option-cases,
}
use soc_investigation_lab.Python.Datetime.{Datetime, datetime_ltb, datetime_leb, is_utc}
use soc_investigation_lab.Python.Value.{Value}
use soc_investigation_lab.Models.Alert.{Alert, closed, state_eq, severity_eq, priority_eq}
use soc_investigation_lab.Models.Alert.Construct.{fields_of, validate_timestamp_order}
use soc_investigation_lab.Models.Alert.Construct.Laws.{IsValid}
use soc_investigation_lab.Alerts.Validation.{normalize_change_time}
use soc_investigation_lab.Alerts.Validation.Laws.{
  object_of, read_alert_snapshot-object_of, validate_alert_fields-fields_of,
  normalize_change_time-is_utc,
}
use soc_investigation_lab.Alerts.Lifecycle.{ChangeError, change_error}
use soc_investigation_lab.Alerts.Policy.{
  Policy, Change, to_severity, to_priority, typed_change, is_previous, field_name, change_policy,
  update_policy, set_policy,
}

-- The alert with another severity or priority since an instant.
abbrev pub changed : Alert → Change → Datetime → Alert
changed a (to_severity s) instant = record {
  alert_id = a.alert_id;
  source_match = a.source_match;
  created_at = a.created_at;
  state = a.state;
  state_changed_at = a.state_changed_at;
  severity = s;
  priority = a.priority;
  updated_at = instant;
}
changed a (to_priority p) instant = record {
  alert_id = a.alert_id;
  source_match = a.source_match;
  created_at = a.created_at;
  state = a.state;
  state_changed_at = a.state_changed_at;
  severity = a.severity;
  priority = p;
  updated_at = instant;
}

order_later :
    (a : Alert) (u : Datetime)
    → validate_timestamp_order a ≡ true
    → datetime_ltb u a.updated_at ≡ false
    → (datetime_leb a.created_at a.state_changed_at && datetime_leb a.state_changed_at u) ≡ true
unfolding validate_timestamp_order
order_later a u ordered late = ground (arith, ordered, late)

changed-ordered :
    (a : Alert) (c : Change) (u : Datetime)
    → validate_timestamp_order a ≡ true
    → datetime_ltb u a.updated_at ≡ false
    → validate_timestamp_order (changed a c u) ≡ true
unfolding validate_timestamp_order
changed-ordered a (to_severity s) u ordered late = order_later a u ordered late
changed-ordered a (to_priority s) u ordered late = order_later a u ordered late

pub changed-IsValid :
    (a : Alert) (c : Change) (u : Datetime)
    → IsValid a
    → is_utc u ≡ true
    → datetime_ltb u a.updated_at ≡ false
    → IsValid (changed a c u)
changed-IsValid a (to_severity s) u v in_utc late = record {
  identity = v.identity;
  evidence = v.evidence;
  created_in_utc = v.created_in_utc;
  changed_in_utc = v.changed_in_utc;
  updated_in_utc = in_utc;
  ordered = changed-ordered a (to_severity s) u v.ordered late;
}
changed-IsValid a (to_priority s) u v in_utc late = record {
  identity = v.identity;
  evidence = v.evidence;
  created_in_utc = v.created_in_utc;
  changed_in_utc = v.changed_in_utc;
  updated_in_utc = in_utc;
  ordered = changed-ordered a (to_priority s) u v.ordered late;
}

-- A closed alert refuses every change; a value that is there already changes nothing.
abbrev pub policy_answer : Alert → Datetime → Change → Result ChangeError Alert
policy_answer a u c =
    if a.state == closed
    then err (change_error "closed_alert" "state")
    else if is_previous a c
    then ok a
    else ok (changed a c u)

update_policy-fields_of :
    (a : Alert) (c : Change) (u : Datetime)
    → update_policy (fields_of a) c u ≡ fields_of (changed a c u)
update_policy-fields_of a (to_severity s) u = refl
update_policy-fields_of a (to_priority s) u = refl

change_policy-answer :
    (a : Alert) (u : Datetime) (c : Change)
    → IsValid (changed a c u)
    → change_policy a (fields_of a) u c ≡ (if is_previous a c then ok a else ok (changed a c u))
unfolding change_policy
change_policy-answer a u c v =
    rw (update_policy-fields_of a c u, validate_alert_fields-fields_of (changed a c u) v) refl

-- For a validated alert that nobody changed, a value of the field's type, and an instant that is
-- aware and not before the alert's last update, `_set_policy` answers: on a closed alert the error
-- `closed_alert`, also for the value that it has; on an active alert with that value already the
-- alert as it is; and else the alert with the value, last updated at the instant in UTC, with its
-- state, the instant of its state and the other policy as they were.
pub set_policy-answer :
    (a : Alert) (policy : Policy) (c : Change) (at : Value) (u : Datetime)
    → IsValid a
    → typed_change policy ≡ some c
    → normalize_change_time at ≡ some u
    → datetime_ltb u a.updated_at ≡ false
    → set_policy (object_of a) policy at ≡ policy_answer a u c
unfolding set_policy
set_policy-answer a policy c at u v typed e late = elim (Bool-cases (a.state == closed)) [
  | inl is_closed ↦ rw (read_alert_snapshot-object_of a v, typed, e, late, is_closed) refl
  | inr active ↦
      rw (read_alert_snapshot-object_of a v, typed, e, late, active)
        (change_policy-answer a u c
          (changed-IsValid a c u v (normalize_change_time-is_utc at e) late))
]

-- A request that fails before the state is looked at.
pub set_policy-invalid_value :
    (a : Alert) (policy : Policy) (at : Value)
    → IsValid a
    → typed_change policy ≡ none
    → set_policy (object_of a) policy at ≡ err (change_error "invalid_value" (field_name policy))
unfolding set_policy
set_policy-invalid_value a policy at v typed = rw (read_alert_snapshot-object_of a v, typed) refl

pub set_policy-invalid_changed_at :
    (a : Alert) (policy : Policy) (c : Change) (at : Value)
    → IsValid a
    → typed_change policy ≡ some c
    → normalize_change_time at ≡ none
    → set_policy (object_of a) policy at ≡ err (change_error "invalid_changed_at" "changed_at")
unfolding set_policy
set_policy-invalid_changed_at a policy c at v typed e =
    rw (read_alert_snapshot-object_of a v, typed, e) refl

pub set_policy-out_of_order :
    (a : Alert) (policy : Policy) (c : Change) (at : Value) (u : Datetime)
    → IsValid a
    → typed_change policy ≡ some c
    → normalize_change_time at ≡ some u
    → datetime_ltb u a.updated_at ≡ true
    → set_policy (object_of a) policy at ≡ err (change_error "out_of_order_changed_at" "changed_at")
unfolding set_policy
set_policy-out_of_order a policy c at u v typed e early =
    rw (read_alert_snapshot-object_of a v, typed, e, early) refl

-- What a policy change that returned did.
abbrev pub Changes : Alert → Alert → Type 0
Changes a b =
    (b ≡ a)
    ⊎ ((c : Change) × (u : Datetime) × ((a.state == closed) ≡ false)
        × (is_utc u ≡ true)
        × (datetime_ltb u a.updated_at ≡ false)
        × (b ≡ changed a c u))

policy_answer-Changes :
    (a : Alert) (u : Datetime) (c : Change) {b : Alert}
    → is_utc u ≡ true
    → datetime_ltb u a.updated_at ≡ false
    → policy_answer a u c ≡ ok b
    → Changes a b
policy_answer-Changes a u c {b} in_utc late h = elim (Bool-cases (a.state == closed)) [
  | inl is_closed ↦
      let failed : err (change_error "closed_alert" "state") ≡ ok b = rw is_closed at h in
      absurd (err-ok failed)
  | inr active ↦ elim (Bool-cases (is_previous a c)) [
    | inl same ↦ let kept : ok a ≡ ok b = rw (active, same) at h in inl cc
    | inr other ↦
        let made : ok (changed a c u) ≡ ok b = rw (active, other) at h in
        inr (c, u, active, in_utc, late, cc)
  ]
]

at-Changes :
    (a : Alert) (policy : Policy) (c : Change) (at : Value) {b : Alert}
    → IsValid a
    → typed_change policy ≡ some c
    → set_policy (object_of a) policy at ≡ ok b
    → Changes a b
at-Changes a policy c at {b} v typed h = elim (Option-cases (normalize_change_time at)) [
  | inl none_at ↦
      absurd (err-ok (sym (set_policy-invalid_changed_at a policy c at v typed none_at) ∙ h))
  | inr (u, e) ↦ elim (Bool-cases (datetime_ltb u a.updated_at)) [
    | inl early ↦
        absurd (err-ok (sym (set_policy-out_of_order a policy c at u v typed e early) ∙ h))
    | inr late ↦
        policy_answer-Changes a u c (normalize_change_time-is_utc at e) late
          (sym (set_policy-answer a policy c at u v typed e late) ∙ h)
  ]
]

pub set_policy-Changes :
    (a : Alert) (policy : Policy) (at : Value) {b : Alert}
    → IsValid a
    → set_policy (object_of a) policy at ≡ ok b
    → Changes a b
set_policy-Changes a policy at v h = elim (Option-cases (typed_change policy)) [
  | inl untyped ↦ absurd (err-ok (sym (set_policy-invalid_value a policy at v untyped) ∙ h))
  | inr (c, typed) ↦ at-Changes a policy c at v typed h
]
