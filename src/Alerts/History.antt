-- ===== src/Alerts/History.antt =====
-- The life of an alert: any sequence of the four operations, at any requests.
pub mod Stages
use soc_investigation_lab.Common.{
  ◌≤◌, ◌≡◌, refl, ap, sym, ◌∙◌, false, Option, ok, arith, inl, inr, ◌==◌,
}
use soc_investigation_lab.Python.Datetime.{Datetime, datetime_ltb}
use soc_investigation_lab.Python.Value.{Value}
use soc_investigation_lab.Models.Alert.{
  Alert, AlertState, new, acknowledged, closed, state_index, AlertSeverity, AlertPriority, state_eq,
}
use soc_investigation_lab.Models.Alert.Construct.Laws.{IsValid}
use soc_investigation_lab.Alerts.Validation.Laws.{object_of}
use soc_investigation_lab.Alerts.Lifecycle.{acknowledge_alert, close_alert}
use soc_investigation_lab.Alerts.Lifecycle.Moves.{moved, moved-IsValid, Moves, transition-Moves}
use soc_investigation_lab.Alerts.Policy.{
  Change, to_severity, to_priority, severity_policy, priority_policy, set_severity, set_priority,
}
use soc_investigation_lab.Alerts.Policy.Changes.{
  changed, changed-IsValid, Changes, set_policy-Changes,
}

-- One operation that returned.
pub data Step : Alert → Alert → Type 0 where
  acknowledge : {a b : Alert} (at : Value) → acknowledge_alert (object_of a) at ≡ ok b → Step a b
  close : {a b : Alert} (at : Value) → close_alert (object_of a) at ≡ ok b → Step a b
  reseverity :
      {a b : Alert} (s : Option AlertSeverity) (at : Value)
      → set_severity (object_of a) s at ≡ ok b
      → Step a b
  reprioritise :
      {a b : Alert} (p : Option AlertPriority) (at : Value)
      → set_priority (object_of a) p at ≡ ok b
      → Step a b

pub data History : Alert → Alert → Type 0 where
  start : {a : Alert} → History a a
  next : {a b c : Alert} → Step a b → History b c → History a c

-- What no history changes, and what it only moves forward.
pub record Continues (a b : Alert) : Type 0 where
  pub identity : b.alert_id ≡ a.alert_id
  pub evidence : b.source_match ≡ a.source_match
  pub created : b.created_at ≡ a.created_at
  pub forward : state_index a.state ≤ state_index b.state
  pub later : a.updated_at.wall ≤ b.updated_at.wall
  pub final : a.state ≡ closed → b ≡ a

later_than : (a b : Datetime) → datetime_ltb a b ≡ false → b.wall ≤ a.wall
later_than a b h = ground (arith, h)

still_active : (s : AlertState) → s ≡ closed → (s == closed) ≡ false → ⊥
still_active s e n = ground (arith, e, n)

Continues-refl : (a : Alert) → Continues a a
Continues-refl a = record {
  identity = refl;
  evidence = refl;
  created = refl;
  forward = omega arith;
  later = omega arith;
  final = λ h. refl;
}

Continues-trans : (a b c : Alert) → Continues a b → Continues b c → Continues a c
Continues-trans a b c h k = record {
  identity = k.identity ∙ h.identity;
  evidence = k.evidence ∙ h.evidence;
  created = k.created ∙ h.created;
  forward = omega (arith, h.forward, k.forward);
  later = omega (arith, h.later, k.later);
  final = λ e. k.final (ap (λ x. x.state) (h.final e) ∙ e) ∙ h.final e;
}

-- A valid continuation.
abbrev Keeps : Alert → Alert → Type 0
Keeps a b = IsValid b × Continues a b

moved-Continues :
    (a : Alert) (source target : AlertState) (u : Datetime)
    → a.state ≡ source
    → ((source ≡ closed) → ⊥)
    → state_index source ≤ state_index target
    → datetime_ltb u a.updated_at ≡ false
    → Continues a (moved a target u)
moved-Continues a source target u here active up late = record {
  identity = refl;
  evidence = refl;
  created = refl;
  forward = rw here up;
  later = later_than u a.updated_at late;
  final = λ e. absurd (active (sym here ∙ e));
}

Moves-Keeps :
    (a : Alert) (source target : AlertState) {b : Alert}
    → IsValid a
    → ((source ≡ closed) → ⊥)
    → state_index source ≤ state_index target
    → Moves a source target b
    → Keeps a b
Moves-Keeps a source target v active up (inl same) = rw same (v, Continues-refl a)
Moves-Keeps a source target v active up (inr (u, here, in_utc, late, same)) =
    rw same (
      moved-IsValid a target u v in_utc late,
      moved-Continues a source target u here active up late,
    )

changed-Continues :
    (a : Alert) (c : Change) (u : Datetime)
    → (a.state == closed) ≡ false
    → datetime_ltb u a.updated_at ≡ false
    → Continues a (changed a c u)
changed-Continues a (to_severity s) u active late = record {
  identity = refl;
  evidence = refl;
  created = refl;
  forward = omega arith;
  later = later_than u a.updated_at late;
  final = λ e. absurd (still_active a.state e active);
}
changed-Continues a (to_priority s) u active late = record {
  identity = refl;
  evidence = refl;
  created = refl;
  forward = omega arith;
  later = later_than u a.updated_at late;
  final = λ e. absurd (still_active a.state e active);
}

Changes-Keeps : (a : Alert) {b : Alert} → IsValid a → Changes a b → Keeps a b
Changes-Keeps a v (inl same) = rw same (v, Continues-refl a)
Changes-Keeps a v (inr (c, u, active, in_utc, late, same)) =
    rw same (changed-IsValid a c u v in_utc late, changed-Continues a c u active late)

Step-Keeps : {a b : Alert} → IsValid a → Step a b → Keeps a b
unfolding acknowledge_alert close_alert set_severity set_priority
Step-Keeps {a} v (acknowledge at e) =
    Moves-Keeps a new acknowledged v (λ h. ground (arith, h)) (omega arith)
      (transition-Moves a at new acknowledged v e)
Step-Keeps {a} v (close at e) =
    Moves-Keeps a acknowledged closed v (λ h. ground (arith, h)) (omega arith)
      (transition-Moves a at acknowledged closed v e)
Step-Keeps {a} v (reseverity s at e) =
    Changes-Keeps a v (set_policy-Changes a (severity_policy s) at v e)
Step-Keeps {a} v (reprioritise p at e) =
    Changes-Keeps a v (set_policy-Changes a (priority_policy p) at v e)

-- After any sequence of successful `acknowledge_alert`, `close_alert`, `set_severity` and
-- `set_priority` from a validated alert, the alert is valid again (slug identity, revalidated
-- match, timestamps in UTC and in order), keeps its identity, its evidence and its creation time,
-- never goes back in its state or in the time of its last update, and is unchanged if it was
-- closed at the start.
pub History-Continues : (a b : Alert) → IsValid a → History a b → IsValid b × Continues a b
History-Continues a _ v start = (v, Continues-refl a)
History-Continues a c v (next {b = b} s h) =
    let (w, k) = Step-Keeps v s in
    let (w', k') = History-Continues b c w h in (w', Continues-trans a b c k k')
