-- ===== src/Alerts/History/Stages.antt =====
-- The states of an alert are passed one by one.
use soc_investigation_lab.Common.{◌+◌, ◌≤◌, ◌≡◌, refl, arith, inl, inr}
use soc_investigation_lab.Python.Datetime.{Datetime}
use soc_investigation_lab.Models.Alert.{Alert, AlertState, new, acknowledged, closed, state_index}
use soc_investigation_lab.Models.Alert.Construct.Laws.{IsValid}
use soc_investigation_lab.Alerts.Lifecycle.{acknowledge_alert, close_alert}
use soc_investigation_lab.Alerts.Lifecycle.Moves.{Moves, transition-Moves}
use soc_investigation_lab.Alerts.Policy.{
  Change, to_severity, to_priority, severity_policy, priority_policy, set_severity, set_priority,
}
use soc_investigation_lab.Alerts.Policy.Changes.{Changes, changed, set_policy-Changes}
use soc_investigation_lab.Alerts.History.{Step, acknowledge, close, reseverity, reprioritise}

-- The next state at most.
abbrev Advances : Alert → Alert → Type 0
Advances a b = state_index b.state ≤ state_index a.state + 1

stay : (a : Alert) → Advances a a
stay a = omega arith

changed-state : (a : Alert) (c : Change) (u : Datetime) → (changed a c u).state ≡ a.state
changed-state a (to_severity s) u = refl
changed-state a (to_priority p) u = refl

Moves-Advances :
    (a : Alert) (source target : AlertState) {b : Alert}
    → state_index target ≤ state_index source + 1
    → Moves a source target b
    → Advances a b
Moves-Advances a source target near (inl same) = rw same (stay a)
Moves-Advances a source target near (inr (u, here, in_utc, late, same)) = rw (same, here) near

Changes-Advances : (a : Alert) {b : Alert} → Changes a b → Advances a b
Changes-Advances a (inl same) = rw same (stay a)
Changes-Advances a (inr (c, u, active, in_utc, late, same)) =
    rw (same, changed-state a c u) (stay a)

-- One successful operation on a validated alert goes at most one state further on the way from new
-- over acknowledged to closed, so that an alert is never closed without being acknowledged first.
pub Step-Advances :
    {a b : Alert} → IsValid a → Step a b → state_index b.state ≤ state_index a.state + 1
unfolding acknowledge_alert close_alert set_severity set_priority
Step-Advances {a} v (acknowledge at e) =
    Moves-Advances a new acknowledged (omega arith) (transition-Moves a at new acknowledged v e)
Step-Advances {a} v (close at e) =
    Moves-Advances a acknowledged closed (omega arith)
      (transition-Moves a at acknowledged closed v e)
Step-Advances {a} v (reseverity s at e) =
    Changes-Advances a (set_policy-Changes a (severity_policy s) at v e)
Step-Advances {a} v (reprioritise p at e) =
    Changes-Advances a (set_policy-Changes a (priority_policy p) at v e)
