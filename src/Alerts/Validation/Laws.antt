-- ===== src/Alerts/Validation/Laws.antt =====
-- Reading an alert back: a snapshot is a validated alert with exactly its own fields.
use soc_investigation_lab.Common.{
  ◌≡◌, refl, true, ◌&&◌, Option, none, some, Result-cases, Bool-cases, inl, inr,
}
use soc_investigation_lab.Python.Datetime.{Datetime, is_utc}
use soc_investigation_lab.Python.Value.{Value}
use soc_investigation_lab.Models.Alert.{Alert}
use soc_investigation_lab.Models.Alert.Construct.{
  AlertFields, fields_of, Checked, accepted, rejected, raised, require_aware_utc_instant,
  construct_alert,
}
use soc_investigation_lab.Models.Alert.Construct.Laws.{
  IsValid, construct_alert-IsValid, construct_alert-fields_of, require_aware_utc_instant-is_utc,
}
use soc_investigation_lab.Alerts.Validation.{
  AlertObject, alert_object, other_object, accepted_only, normalize_change_time,
  validate_alert_fields, has_canonical_timestamps, with_fields, read_alert_snapshot,
}

-- The object of an alert that nobody changed.
abbrev pub object_of : Alert → AlertObject
object_of a = alert_object true (fields_of a)

pub validate_alert_fields-IsValid :
    (f : AlertFields) {a : Alert} → validate_alert_fields f ≡ some a → IsValid a
unfolding validate_alert_fields
validate_alert_fields-IsValid f {a} h = elim (Result-cases (construct_alert f)) [
  | inl (b, e) ↦
      let found : some b ≡ some a = rw e at h in
      let same : b ≡ a = cc in rw (← same) (construct_alert-IsValid f e)
  | inr (x, e) ↦ let lost : none ≡ some a = rw e at h in cc
]

pub validate_alert_fields-fields_of :
    (a : Alert) → IsValid a → validate_alert_fields (fields_of a) ≡ some a
unfolding validate_alert_fields
validate_alert_fields-fields_of a v = rw (construct_alert-fields_of a v) refl

-- A validated alert that nobody changed is read as it is.
pub read_alert_snapshot-object_of :
    (a : Alert) → IsValid a → read_alert_snapshot (object_of a) ≡ some (a, fields_of a)
unfolding read_alert_snapshot has_canonical_timestamps
read_alert_snapshot-object_of a v =
    rw (v.created_in_utc, v.changed_in_utc, v.updated_in_utc, validate_alert_fields-fields_of a v)
      refl

none-some {ℓ} : {A : Type ℓ} {a : A} → none ≡ some a → ⊥
none-some h = cc

with_fields-eq-some :
    (f : AlertFields) (o : Option Alert) {a : Alert} {g : AlertFields}
    → with_fields f o ≡ some (a, g)
    → o ≡ some a
with_fields-eq-some f none h = cc
with_fields-eq-some f (some b) h = cc

-- Whatever the object, what is read is a validated alert.
pub read_alert_snapshot-IsValid :
    (o : AlertObject) {a : Alert} {g : AlertFields}
    → read_alert_snapshot o ≡ some (a, g)
    → IsValid a
unfolding read_alert_snapshot
read_alert_snapshot-IsValid other_object h = cc
read_alert_snapshot-IsValid (alert_object names f) {a} {g} h =
    elim (Bool-cases (names && has_canonical_timestamps f)) [
      | inl fine ↦
          validate_alert_fields-IsValid f
            (with_fields-eq-some f (validate_alert_fields f) (rw fine at h))
      | inr bad ↦ let lost : none ≡ some (a, g) = rw bad at h in absurd (none-some lost)
    ]

accepted_only-eq-some {ℓ} :
    {A : Type ℓ} (c : Checked A) {a : A} → accepted_only c ≡ some a → c ≡ accepted a
accepted_only-eq-some (accepted b) h = cc
accepted_only-eq-some rejected h = cc
accepted_only-eq-some (raised e) h = cc

pub normalize_change_time-is_utc :
    (v : Value) {u : Datetime} → normalize_change_time v ≡ some u → is_utc u ≡ true
unfolding normalize_change_time
normalize_change_time-is_utc v h =
    require_aware_utc_instant-is_utc v (accepted_only-eq-some (require_aware_utc_instant v) h)
