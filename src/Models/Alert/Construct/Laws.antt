-- ===== src/Models/Alert/Construct/Laws.antt =====
-- Validated alerts: what the constructor returns, and that it returns a validated alert as it is.
use soc_investigation_lab.Common.{
  ℕ, ◌+◌, arith, leb, ltb, if-eq-ok, String, ◌≡◌, refl, Bool, true, false, Option, none, some,
  Result, ok, err, if◌then◌else◌,
}
use soc_investigation_lab.Python.Exceptions.{Exception, overflow_error}
use soc_investigation_lab.Python.Datetime.{
  Datetime, Zone, utc, ahead, behind, no_offset, broken, has_offset, astimezone_utc, is_utc,
  end_of_time,
}
use soc_investigation_lab.Python.Value.{
  Value, none_value, other, boolean, integer, string, enum_text, timestamp, address,
}
use soc_investigation_lab.Models.Match.{DetectionMatch}
use soc_investigation_lab.Models.Alert.{Alert, AlertState, AlertSeverity, AlertPriority}
use soc_investigation_lab.Models.Alert.Construct.{
  AlertFields, fields_of, AlertField, Checked, accepted, rejected, raised, Draft, complete,
  incomplete, failed, with_field, finish, new_alert, valid_alert_id, check_alert_id,
  revalidate_match, own_validated_match, check_member, require_aware_utc_instant,
  validate_timestamp_order, invalid, from_validator, utc_of, aware_utc, construct_alert,
  draft_alert, alert_id_field, source_match_field, created_at_field, state_field,
  state_changed_at_field, severity_field, priority_field, updated_at_field,
}

-- The promises of an alert.
pub record IsValid (a : Alert) : Type 0 where
  pub identity : valid_alert_id a.alert_id ≡ true
  pub evidence : revalidate_match a.source_match ≡ true
  pub created_in_utc : is_utc a.created_at ≡ true
  pub changed_in_utc : is_utc a.state_changed_at ≡ true
  pub updated_in_utc : is_utc a.updated_at ≡ true
  pub ordered : validate_timestamp_order a ≡ true

-- An instant that is in UTC already is taken as it is.
utc_at :
    (w : ℕ) (z : Option Zone)
    → is_utc (record { wall = w; tzinfo = z }) ≡ true
    → require_aware_utc_instant (timestamp (record { wall = w; tzinfo = z }))
      ≡ accepted (record { wall = w; tzinfo = z })
unfolding require_aware_utc_instant has_offset astimezone_utc
utc_at w none h = cc
utc_at w (some utc) h = refl
utc_at w (some (ahead n)) h = cc
utc_at w (some (behind n)) h = cc
utc_at w (some no_offset) h = cc
utc_at w (some (broken e)) h = cc

pub require_aware_utc_instant-utc :
    (d : Datetime) → is_utc d ≡ true → require_aware_utc_instant (timestamp d) ≡ accepted d
require_aware_utc_instant-utc d h = utc_at d.wall d.tzinfo h

astimezone_utc-is_utc :
    (w : ℕ) (z : Option Zone) {u : Datetime}
    → astimezone_utc (record { wall = w; tzinfo = z }) ≡ ok u
    → is_utc u ≡ true
unfolding astimezone_utc
astimezone_utc-is_utc w none h = cc
astimezone_utc-is_utc w (some utc) {u} h =
    let same : record { wall = w; tzinfo = some utc } ≡ u = cc in rw (← same) refl
astimezone_utc-is_utc w (some (ahead n)) h =
    let (fits, same) = if-eq-ok (leb n w) _ overflow_error h in rw (← same) refl
astimezone_utc-is_utc w (some (behind n)) h =
    let (fits, same) = if-eq-ok (ltb (w + n) end_of_time) _ overflow_error h in rw (← same) refl
astimezone_utc-is_utc w (some no_offset) h = cc
astimezone_utc-is_utc w (some (broken e)) h = cc

from_validator-accepted :
    (e : Exception) {u : Datetime} → from_validator e ≡ accepted u → is_utc u ≡ true
from_validator-accepted e h = ground arith

utc_of-is_utc :
    (d : Datetime) (r : Result Exception Datetime) {u : Datetime}
    → astimezone_utc d ≡ r
    → utc_of r ≡ accepted u
    → is_utc u ≡ true
utc_of-is_utc d (ok t) {u} e h =
    let same : t ≡ u = cc in rw (← same) (astimezone_utc-is_utc d.wall d.tzinfo e)
utc_of-is_utc d (err x) e h = from_validator-accepted x h

aware_utc-is_utc :
    (d : Datetime) (r : Result Exception Bool) {u : Datetime}
    → aware_utc d r ≡ accepted u
    → is_utc u ≡ true
aware_utc-is_utc d (ok true) h = utc_of-is_utc d (astimezone_utc d) refl h
aware_utc-is_utc d (ok false) h = cc
aware_utc-is_utc d (err x) h = from_validator-accepted x h

-- What the validator accepts is in UTC.
pub require_aware_utc_instant-is_utc :
    (v : Value) {u : Datetime} → require_aware_utc_instant v ≡ accepted u → is_utc u ≡ true
unfolding require_aware_utc_instant
require_aware_utc_instant-is_utc (timestamp d) h = aware_utc-is_utc d (has_offset d) h
require_aware_utc_instant-is_utc none_value h = cc
require_aware_utc_instant-is_utc other h = cc
require_aware_utc_instant-is_utc (boolean b) h = cc
require_aware_utc_instant-is_utc (integer n) h = cc
require_aware_utc_instant-is_utc (string s) h = cc
require_aware_utc_instant-is_utc (enum_text s) h = cc
require_aware_utc_instant-is_utc (address a) h = cc

with_field-eq-complete {ℓ κ} :
    {A : Type ℓ} {B : Type κ} (d : Draft (A → B)) (field : AlertField) (c : Checked A) {b : B}
    → with_field d field c ≡ complete b
    → (f : A → B) × (a : A) × (d ≡ complete f) × (c ≡ accepted a) × (f a ≡ b)
with_field-eq-complete (complete f) field (accepted a) h = (f, a, refl, refl, cc)
with_field-eq-complete (complete f) field rejected h = cc
with_field-eq-complete (complete f) field (raised e) h = cc
with_field-eq-complete (incomplete g) field (accepted a) h = cc
with_field-eq-complete (incomplete g) field rejected h = cc
with_field-eq-complete (incomplete g) field (raised e) h = cc
with_field-eq-complete (failed x) field c h = cc

finish-eq-ok :
    (d : Draft Alert) {a : Alert}
    → finish d ≡ ok a
    → (d ≡ complete a) × (validate_timestamp_order a ≡ true)
finish-eq-ok (complete b) {a} h =
    let (fine, same) = if-eq-ok (validate_timestamp_order b) b (invalid none) h in
    rw (← same) (refl, fine)
finish-eq-ok (incomplete f) h = cc
finish-eq-ok (failed e) h = cc

if-eq-accepted {ℓ} :
    {A : Type ℓ} (b : Bool) (a : A) {c : A}
    → (if b then accepted a else rejected) ≡ accepted c
    → (b ≡ true) × (a ≡ c)
if-eq-accepted true a h = (refl, cc)
if-eq-accepted false a h = cc

check_alert_id-accepted :
    (v : Value) {s : String} → check_alert_id v ≡ accepted s → valid_alert_id s ≡ true
unfolding check_alert_id
check_alert_id-accepted (string t) h =
    let (fine, same) = if-eq-accepted (valid_alert_id t) t h in rw (← same) fine
check_alert_id-accepted none_value h = cc
check_alert_id-accepted other h = cc
check_alert_id-accepted (boolean b) h = cc
check_alert_id-accepted (integer n) h = cc
check_alert_id-accepted (timestamp d) h = cc
check_alert_id-accepted (enum_text s) h = cc
check_alert_id-accepted (address a) h = cc

own_validated_match-accepted :
    (o : Option DetectionMatch) {m : DetectionMatch}
    → own_validated_match o ≡ accepted m
    → revalidate_match m ≡ true
unfolding own_validated_match
own_validated_match-accepted none h = cc
own_validated_match-accepted (some o) h =
    let (fine, same) = if-eq-accepted (revalidate_match o) o h in rw (← same) fine

draft_alert-eq-complete :
    (build : String
      → DetectionMatch
      → Datetime
      → AlertState
      → Datetime
      → AlertSeverity
      → AlertPriority
      → Datetime
      → Alert)
    (c1 : Checked String) (c2 : Checked DetectionMatch) (c3 : Checked Datetime)
    (c4 : Checked AlertState) (c5 : Checked Datetime) (c6 : Checked AlertSeverity)
    (c7 : Checked AlertPriority) (c8 : Checked Datetime) {a : Alert}
    → draft_alert build c1 c2 c3 c4 c5 c6 c7 c8 ≡ complete a
    → (id : String) × (m : DetectionMatch) × (created : Datetime) × (state : AlertState)
      × (changed : Datetime) × (severity : AlertSeverity) × (priority : AlertPriority)
      × (updated : Datetime) × (c1 ≡ accepted id)
      × (c2 ≡ accepted m)
      × (c3 ≡ accepted created)
      × (c5 ≡ accepted changed)
      × (c8 ≡ accepted updated)
      × (build id m created state changed severity priority updated ≡ a)
draft_alert-eq-complete build c1 c2 c3 c4 c5 c6 c7 c8 {a} h =
    let (f8, updated, e8, at_updated, s8) = with_field-eq-complete _ updated_at_field c8 h in
    let (f7, prio, e7, at_prio, s7) = with_field-eq-complete _ priority_field c7 e8 in
    let (f6, sev, e6, at_sev, s6) = with_field-eq-complete _ severity_field c6 e7 in
    let (f5, changed, e5, at_changed, s5) = with_field-eq-complete _ state_changed_at_field c5 e6 in
    let (f4, state, e4, at_state, s4) = with_field-eq-complete _ state_field c4 e5 in
    let (f3, created, e3, at_created, s3) = with_field-eq-complete _ created_at_field c3 e4 in
    let (f2, m, e2, at_match, s2) = with_field-eq-complete _ source_match_field c2 e3 in
    let (f1, id, e1, at_id, s1) = with_field-eq-complete (complete build) alert_id_field c1 e2 in
    (
      id, m, created, state, changed, sev, prio, updated, at_id, at_match, at_created, at_changed,
      at_updated, cc,
    )

-- Whatever the constructor is given, it returns only validated alerts.
pub construct_alert-IsValid : (f : AlertFields) {a : Alert} → construct_alert f ≡ ok a → IsValid a
unfolding construct_alert
construct_alert-IsValid f {a} h =
    let (all, ordered) = finish-eq-ok _ h in
    let (id, m, created, state, changed, severity, priority, updated, e1, e2, e3, e5, e8, same) =
      draft_alert-eq-complete new_alert (check_alert_id f.alert_id)
        (own_validated_match f.source_match) (require_aware_utc_instant f.created_at)
        (check_member f.state) (require_aware_utc_instant f.state_changed_at)
        (check_member f.severity) (check_member f.priority) (require_aware_utc_instant f.updated_at)
        all in
    record {
      identity = rw (← same) (check_alert_id-accepted f.alert_id e1);
      evidence = rw (← same) (own_validated_match-accepted f.source_match e2);
      created_in_utc = rw (← same) (require_aware_utc_instant-is_utc f.created_at e3);
      changed_in_utc = rw (← same) (require_aware_utc_instant-is_utc f.state_changed_at e5);
      updated_in_utc = rw (← same) (require_aware_utc_instant-is_utc f.updated_at e8);
      ordered = ordered;
    }

-- A validated alert is validated again to itself.
pub construct_alert-fields_of : (a : Alert) → IsValid a → construct_alert (fields_of a) ≡ ok a
unfolding construct_alert check_alert_id own_validated_match
construct_alert-fields_of a v =
    rw
      (
        v.identity,
        v.evidence,
        require_aware_utc_instant-utc a.created_at v.created_in_utc,
        require_aware_utc_instant-utc a.state_changed_at v.changed_in_utc,
        require_aware_utc_instant-utc a.updated_at v.updated_in_utc,
        v.ordered,
      )
      refl
