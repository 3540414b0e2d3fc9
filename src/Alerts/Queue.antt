-- ===== src/Alerts/Queue.antt =====
-- backend/app/alerts/queue.py: filtering and ordering of a collection of alerts.
pub mod Order
pub mod Listing
use soc_investigation_lab.Common.{
  String, ℕ, Bool, true, false, ◌&&◌, ◌||◌, Option, none, some, List, [], ◌∷◌, Result, ok, err,
  ◌>>=◌, ◌>>◌, guard, eqb, not, ltb, length, leb, member, keep, Eq, ◌==◌, string_eq, if◌then◌else◌,
}
use soc_investigation_lab.Python.Text.{text_leb}
use soc_investigation_lab.Python.Sorted.{sorted}
use soc_investigation_lab.Python.Datetime.{datetime_ltb, datetime_eq}
use soc_investigation_lab.Models.Alert.{
  Alert, AlertState, new, acknowledged, closed, AlertSeverity, unassigned, informational, medium,
  critical, AlertPriority, normal, urgent, state_eq, severity_eq, priority_eq,
}
use soc_investigation_lab.Alerts.Validation.{AlertObject, read_alert_snapshot}
use soc_investigation_lab.Alerts.Lifecycle.{ChangeError, change_error, or_error}

abbrev pub priority_rank : AlertPriority → ℕ
priority_rank urgent = 0
priority_rank AlertPriority.high = 1
priority_rank normal = 2
priority_rank AlertPriority.low = 3

abbrev pub severity_rank : AlertSeverity → ℕ
severity_rank critical = 0
severity_rank AlertSeverity.high = 1
severity_rank medium = 2
severity_rank AlertSeverity.low = 3
severity_rank informational = 4
severity_rank unassigned = 5

abbrev active_states : List AlertState
active_states = new ∷ acknowledged ∷ []

-- A collection: what `len` says, or `none` where the object is no collection of the kind or `len`
-- raises; the entries that its iterator yields; and whether the iterator raises after them.
pub record CollectionObject : Type 0 where
  pub size : Option ℕ
  pub entries : List AlertObject
  pub raises : Bool

-- `tuple(islice(alerts, size + 1))` raises if the iterator does before it has yielded as many; the
-- snapshot is taken if it has exactly `size` entries.
abbrev of_size : CollectionObject → ℕ → Result ChangeError (List AlertObject)
of_size c n =
    if eqb (length c.entries) n && not c.raises
    then ok c.entries
    else err (change_error "invalid_collection" "alerts")

abbrev sized : CollectionObject → Option ℕ → Result ChangeError (List AlertObject)
sized c none = err (change_error "invalid_collection" "alerts")
sized c (some n) = of_size c n

-- `_snapshot_collection`
unfoldable pub snapshot_collection : CollectionObject → Result ChangeError (List AlertObject)
snapshot_collection c = sized c c.size

-- A filter: None, a built-in set with its elements (`none` for an object of another type), or an
-- object of another type.
pub data Filter {ℓ} (E : Type ℓ) : Type ℓ where
  no_filter : Filter E
  set_of : List (Option E) → Filter E
  other_filter : Filter E

unfoldable pub members_only {ℓ} : {E : Type ℓ} → List (Option E) → Option (List E)
members_only [] = some []
members_only (none ∷ vs) = none
members_only (some v ∷ vs) = elim (members_only vs) [ none ↦ none | some ws ↦ some (v ∷ ws) ]

abbrev nonempty_selection {ℓ} :
    {E : Type ℓ} → String → Option (List E) → Result ChangeError (Option (List E))
nonempty_selection field (some (v ∷ vs)) = ok (some (v ∷ vs))
nonempty_selection field _ = err (change_error "invalid_filter" field)

-- `_read_filter`
unfoldable pub read_filter {ℓ} :
    {E : Type ℓ} → Filter E → String → Result ChangeError (Option (List E))
unfolding members_only
read_filter no_filter field = ok none
read_filter (set_of vs) field = nonempty_selection field (members_only vs)
read_filter other_filter field = err (change_error "invalid_filter" field)

-- The loop over the entries, with the identities seen so far.
unfoldable pub validate_alerts : List String → List AlertObject → Result ChangeError (List Alert)
validate_alerts seen [] = ok []
validate_alerts seen (entry ∷ entries) = do
  (alert, fields) ← or_error "invalid_alert" "alerts" (read_alert_snapshot entry)
  guard (not (member alert.alert_id seen)) (change_error "duplicate_alert_id" "alert_id")
  rest ← validate_alerts (alert.alert_id ∷ seen) entries
  ok (alert ∷ rest)

abbrev pub or_active : Option (List AlertState) → List AlertState
or_active none = active_states
or_active (some states) = states

-- `selected is None or value in selected`
abbrev pub unrestricted_or {ℓ} : {E : Type ℓ} ⦃e : Eq E⦄ → Option (List E) → E → Bool
unrestricted_or none value = true
unrestricted_or (some selected) value = member value selected

unfoldable pub is_selected :
    List AlertState → Option (List AlertSeverity) → Option (List AlertPriority) → Alert → Bool
is_selected states severities priorities alert =
    member alert.state states
    && unrestricted_or severities alert.severity
    && unrestricted_or priorities alert.priority

-- `_queue_key(a) <= _queue_key(b)`: tuples compare at the first difference.
unfoldable pub queue_leb : Alert → Alert → Bool
queue_leb a b =
    if not (eqb (priority_rank a.priority) (priority_rank b.priority))
    then ltb (priority_rank a.priority) (priority_rank b.priority)
    else if not (eqb (severity_rank a.severity) (severity_rank b.severity))
    then ltb (severity_rank a.severity) (severity_rank b.severity)
    else if not (datetime_eq a.created_at b.created_at)
    then datetime_ltb a.created_at b.created_at
    else text_leb a.alert_id b.alert_id

unfoldable pub list_alerts :
    CollectionObject
    → Filter AlertState
    → Filter AlertSeverity
    → Filter AlertPriority
    → Result ChangeError (List Alert)
list_alerts alerts states severities priorities = do
  entries ← snapshot_collection alerts
  validated ← validate_alerts [] entries
  selected_states ← read_filter states "states"
  selected_severities ← read_filter severities "severities"
  selected_priorities ← read_filter priorities "priorities"
  ok (
      sorted queue_leb (
        keep (is_selected (or_active selected_states) selected_severities selected_priorities)
          validated))
