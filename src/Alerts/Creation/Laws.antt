-- ===== src/Alerts/Creation/Laws.antt =====
-- What `create_alert` returns, for all its inputs.
use soc_investigation_lab.Common.{
  String, ◌≡◌, refl, not, true, Option, none, some, Result, ok, err, arith, inl, inr, Result-cases,
  err-ok, if◌then◌else◌,
}
use soc_investigation_lab.Python.Datetime.{Datetime}
use soc_investigation_lab.Python.Value.{Value, string}
use soc_investigation_lab.Models.Match.{DetectionMatch}
use soc_investigation_lab.Models.Alert.{Alert, new, AlertSeverity, AlertPriority}
use soc_investigation_lab.Models.Alert.Construct.{
  Checked, accepted, rejected, raised, propagated, valid_alert_id, check_alert_id, revalidate_match,
  own_validated_match, require_aware_utc_instant, validate_timestamp_order, construct_alert,
}
use soc_investigation_lab.Models.Alert.Construct.Laws.{IsValid, construct_alert-IsValid}
use soc_investigation_lab.Alerts.Creation.{
  CreationError, creation_error, creation_failure, initial_fields, create_alert,
}

-- A new alert, all of whose timestamps are one instant.
abbrev pub created : DetectionMatch → String → Datetime → AlertSeverity → AlertPriority → Alert
created m id u severity priority = record {
  alert_id = id;
  source_match = m;
  created_at = u;
  state = new;
  state_changed_at = u;
  severity = severity;
  priority = priority;
  updated_at = u;
}

created-ordered :
    (m : DetectionMatch) (id : String) (u : Datetime) (s : AlertSeverity) (p : AlertPriority)
    → validate_timestamp_order (created m id u s p) ≡ true
unfolding validate_timestamp_order
created-ordered m id u s p = ground arith

construct_alert-created :
    (m : DetectionMatch) (id : String) (at : Value) (u : Datetime) (s : AlertSeverity)
    (p : AlertPriority)
    → revalidate_match m ≡ true
    → valid_alert_id id ≡ true
    → require_aware_utc_instant at ≡ accepted u
    → construct_alert (initial_fields (some m) (string id) at s p) ≡ ok (created m id u s p)
unfolding construct_alert check_alert_id own_validated_match creation_failure
construct_alert-created m id at u s p evidence identity instant =
    rw (identity, evidence, instant, created-ordered m id u s p) refl

-- Where every input is accepted, `create_alert` returns the new alert, which is valid.
pub create_alert-created :
    (m : DetectionMatch) (id : String) (at : Value) (u : Datetime) (s : AlertSeverity)
    (p : AlertPriority)
    → revalidate_match m ≡ true
    → valid_alert_id id ≡ true
    → require_aware_utc_instant at ≡ accepted u
    → (create_alert (some m) (string id) at (some s) (some p) ≡ ok (created m id u s p))
      × IsValid (created m id u s p)
unfolding create_alert
create_alert-created m id at u s p evidence identity instant =
    let made = construct_alert-created m id at u s p evidence identity instant in
    (rw made refl, construct_alert-IsValid (initial_fields (some m) (string id) at s p) made)

-- What is created is valid, whatever the inputs.
pub create_alert-IsValid :
    (m : Option DetectionMatch) (id at : Value) (s : Option AlertSeverity)
    (p : Option AlertPriority) {a : Alert}
    → create_alert m id at s p ≡ ok a
    → IsValid a
unfolding create_alert
create_alert-IsValid m id at none p h = absurd (err-ok h)
create_alert-IsValid m id at (some s) none h = absurd (err-ok h)
create_alert-IsValid m id at (some s) (some p) {a} h =
    elim (Result-cases (construct_alert (initial_fields m id at s p))) [
      | inl (b, e) ↦
          let made : ok b ≡ ok a = rw e at h in
          let same : b ≡ a = cc in
          rw (← same) (construct_alert-IsValid (initial_fields m id at s p) e)
      | inr (x, e) ↦ let lost : err (creation_failure x) ≡ ok a = rw e at h in absurd (err-ok lost)
    ]

-- The alert, or the error of the timestamp.
abbrev at_instant :
    DetectionMatch
    → String
    → AlertSeverity
    → AlertPriority
    → Checked Datetime
    → Result CreationError Alert
at_instant m id s p (accepted u) = ok (created m id u s p)
at_instant m id s p rejected = err (creation_error (some "created_at"))
at_instant m id s p (raised e) = err (creation_failure (propagated e))

-- An exception of the timestamp's validation decides before anything else, since it ends the
-- validation of the fields; otherwise the first input that is not accepted decides.
abbrev pub first_failure :
    DetectionMatch
    → String
    → AlertSeverity
    → AlertPriority
    → Checked Datetime
    → Result CreationError Alert
first_failure m id s p (raised e) = err (creation_failure (propagated e))
first_failure m id s p c =
    if not (valid_alert_id id)
    then err (creation_error (some "alert_id"))
    else if not (revalidate_match m)
    then err (creation_error (some "match"))
    else at_instant m id s p c
