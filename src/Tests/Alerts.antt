-- ===== src/Tests/Alerts.antt =====
-- The theorems on alerts at concrete alerts.
use mathlib.Core.List.{Permᴰ}
use soc_investigation_lab.Common.{◌≤◌, ◌+◌, ◌≡◌, refl, true, none, some, List, [], ◌∷◌, ok}
use soc_investigation_lab.Python.Datetime.{has_offset, astimezone_utc}
use soc_investigation_lab.Python.Text.{startswith}
use soc_investigation_lab.Python.Value.{timestamp, Value}
use soc_investigation_lab.Python.Datetime.{ahead}
use soc_investigation_lab.Models.Event.{validate_event}
use soc_investigation_lab.Models.Match.{validate_match}
use soc_investigation_lab.Models.Trace.{validate_trace}
use soc_investigation_lab.Models.Alert.{
  state_index, Alert, AlertState, new, acknowledged, closed, AlertSeverity, AlertPriority, critical,
}
use soc_investigation_lab.Models.Alert.Construct.{
  revalidate_match, validate_trace_tree, valid_alert_id, validate_timestamp_order,
  require_aware_utc_instant, accepted, fields_of,
}
use soc_investigation_lab.Models.Alert.Construct.Laws.{
  IsValid, construct_alert-IsValid, construct_alert-fields_of,
}
use soc_investigation_lab.Alerts.Validation.{normalize_change_time}
use soc_investigation_lab.Alerts.Validation.Laws.{object_of}
use soc_investigation_lab.Alerts.Lifecycle.{acknowledge_alert, close_alert}
use soc_investigation_lab.Alerts.Lifecycle.Moves.{moved, answer, acknowledge-close-answer}
use soc_investigation_lab.Alerts.Policy.{severity_policy, to_severity, set_policy}
use soc_investigation_lab.Alerts.Policy.Changes.{policy_answer, set_policy-answer}
use soc_investigation_lab.Alerts.History.{
  Step, History, Continues, start, next, acknowledge, History-Continues,
}
use soc_investigation_lab.Alerts.History.Stages.{Step-Advances}
use soc_investigation_lab.Alerts.Queue.{Filter, no_filter, list_alerts, read_filter}
use soc_investigation_lab.Alerts.Queue.Listing.{collection_of, list_alerts-perm}
use soc_investigation_lab.Tests.{evidence_match, new_case, urgent_case, later_value, later}

evidence_match-revalidates : revalidate_match evidence_match ≡ true
unfolding revalidate_match validate_event validate_match validate_trace_tree validate_trace
    startswith
evidence_match-revalidates = refl

new_case-IsValid : IsValid new_case
unfolding valid_alert_id validate_timestamp_order
new_case-IsValid = record {
  identity = refl;
  evidence = evidence_match-revalidates;
  created_in_utc = refl;
  changed_in_utc = refl;
  updated_in_utc = refl;
  ordered = refl;
}

urgent_case-IsValid : IsValid urgent_case
unfolding valid_alert_id validate_timestamp_order
urgent_case-IsValid = record {
  identity = refl;
  evidence = evidence_match-revalidates;
  created_in_utc = refl;
  changed_in_utc = refl;
  updated_in_utc = refl;
  ordered = refl;
}

later-read : require_aware_utc_instant later_value ≡ accepted later
unfolding require_aware_utc_instant has_offset astimezone_utc
later-read = refl

later-normal : normalize_change_time later_value ≡ some later
unfolding normalize_change_time require_aware_utc_instant has_offset astimezone_utc
later-normal = refl

acknowledge-close-answer_example :
    (acknowledge_alert (object_of new_case) later_value ≡ answer new_case later new acknowledged)
    × (close_alert (object_of new_case) later_value ≡ answer new_case later acknowledged closed)
acknowledge-close-answer_example =
    acknowledge-close-answer new_case later_value later new_case-IsValid later-normal refl

set_policy-answer_example :
    set_policy (object_of new_case) (severity_policy (some critical)) later_value
    ≡ policy_answer new_case later (to_severity critical)
set_policy-answer_example =
    set_policy-answer new_case (severity_policy (some critical)) (to_severity critical) later_value
      later new_case-IsValid refl later-normal refl

acknowledgement : Step new_case (moved new_case acknowledged later)
acknowledgement =
    acknowledge later_value
      (acknowledge-close-answer new_case later_value later new_case-IsValid later-normal refl).0

one_acknowledgement : History new_case (moved new_case acknowledged later)
one_acknowledgement = next acknowledgement start

History-Continues_example :
    IsValid (moved new_case acknowledged later)
    × Continues new_case (moved new_case acknowledged later)
History-Continues_example =
    History-Continues new_case (moved new_case acknowledged later) new_case-IsValid
      one_acknowledgement

construct_alert-IsValid_example : IsValid new_case
construct_alert-IsValid_example =
    construct_alert-IsValid (fields_of new_case)
      (construct_alert-fields_of new_case new_case-IsValid)

abbrev any_state : Filter AlertState
any_state = no_filter

abbrev any_severity : Filter AlertSeverity
any_severity = no_filter

abbrev any_priority : Filter AlertPriority
any_priority = no_filter

no_states : read_filter any_state "states" ≡ ok none
unfolding read_filter
no_states = refl

no_severities : read_filter any_severity "severities" ≡ ok none
unfolding read_filter
no_severities = refl

no_priorities : read_filter any_priority "priorities" ≡ ok none
unfolding read_filter
no_priorities = refl

list_alerts-perm_example :
    list_alerts (collection_of (new_case ∷ urgent_case ∷ [])) any_state any_severity any_priority
    ≡ list_alerts (collection_of (urgent_case ∷ new_case ∷ [])) any_state any_severity any_priority
list_alerts-perm_example =
    list_alerts-perm any_state any_severity any_priority none none none no_states no_severities
      no_priorities (Permᴰ.swap {l = []} refl refl) (new_case-IsValid, (urgent_case-IsValid, tt))
      refl

Step-Advances_example :
    state_index (moved new_case acknowledged later).state ≤ state_index new_case.state + 1
Step-Advances_example = Step-Advances new_case-IsValid acknowledgement

-- The first instant, in a zone one microsecond east of UTC, which UTC cannot show.
abbrev too_early : Value
too_early = timestamp (record { wall = 0; tzinfo = some (ahead 1) })
