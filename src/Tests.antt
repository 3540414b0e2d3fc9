-- ===== src/Tests.antt =====
-- Concrete inputs: an event, rules, a match and alerts.
pub mod Detection
pub mod Alerts
pub mod Documents
pub mod Parsers
pub mod Loader
pub mod Workflow
use soc_investigation_lab.Common.{
  String, Bool, true, false, Option, none, some, List, [], ◌∷◌, ◌==◌, string_eq, if◌then◌else◌,
}
use soc_investigation_lab.Python.Int.{pos}
use soc_investigation_lab.Python.Datetime.{Datetime, utc, ahead}
use soc_investigation_lab.Python.Address.{Address, Network, v4}
use soc_investigation_lab.Python.Value.{string, timestamp, Value}
use soc_investigation_lab.Models.Event.{NormalizedEvent, sysmon, network, of_network}
use soc_investigation_lab.Models.Condition.{
  LeafCondition, ConditionNode, Nodes, ip_in_cidr, greater_than, not_exists, omitted, given, equals,
}
use soc_investigation_lab.Python.Value.{integer}
use soc_investigation_lab.Models.Rule.{DetectionRule, unset, only}
use soc_investigation_lab.Models.Trace.{
  ConditionTrace, trace, Traces, leaf_kind, true_outcome, missing, absent,
}
use soc_investigation_lab.Models.Match.{DetectionMatch}
use soc_investigation_lab.Models.Alert.{
  Alert, new, acknowledged, unassigned, normal, critical, urgent,
}
use soc_investigation_lab.Detection.Semantics.{TextParsers}

-- 10.0.0.0/8
abbrev pub ten : Network
ten = record { version = v4; base = 167772160; host_bits = 24 }

-- Parsers that know one network.
abbrev pub parsers : TextParsers
parsers = record {
  ip_address = λ s. none;
  ip_network = λ s. if s == "10.0.0.0/8" then some ten else none;
  fromisoformat = λ s. none;
}

abbrev pub instant : Datetime
instant = record { wall = 100; tzinfo = some utc }

-- 10.0.0.5
abbrev pub inside : Address
inside = record { version = v4; number = 167772165; scope = "" }

-- 192.0.2.1
abbrev pub outside : Address
outside = record { version = v4; number = 3221225985; scope = "" }

abbrev pub connection : NormalizedEvent
connection = record {
  source = sysmon;
  provider = "Sysmon";
  event_id = 3;
  channel = "Operational";
  timestamp = instant;
  computer = "host";
  record_id = none;
  category = network;
  context = of_network (record {
    source_ip = inside;
    source_port = 50000;
    destination_ip = outside;
    destination_port = 443;
    protocol = none;
    process_id = none;
    process_image = none;
  });
  source_data = [];
}

-- The source is in 10.0.0.0/8.
abbrev pub from_inside : ConditionNode
from_inside =
    ConditionNode.leaf
      (record { field = "context.source_ip"; op = ip_in_cidr; value = given (string "10.0.0.0/8") })

-- The protocol, which the event lacks, is tcp.
abbrev pub over_tcp : ConditionNode
over_tcp =
    ConditionNode.leaf
      (record { field = "context.protocol"; op = equals; value = given (string "tcp") })

abbrev pub both : Nodes
both = Nodes.cons from_inside (Nodes.cons over_tcp Nodes.nil)

abbrev rule_of : String → ConditionNode → DetectionRule
rule_of id condition = record {
  id = id;
  version = pos 1;
  title = "Rule";
  description = "Text";
  categories = network ∷ [];
  sources = unset;
  condition = condition;
}

abbrev pub inside_rule : DetectionRule
inside_rule = rule_of "b-inside" from_inside

abbrev pub tcp_rule : DetectionRule
tcp_rule = rule_of "a-tcp" over_tcp

abbrev pub rules : List DetectionRule
rules = inside_rule ∷ tcp_rule ∷ []

abbrev pub absent_trace : ConditionTrace
absent_trace =
    trace
      (record {
        location = "$";
        kind = leaf_kind;
        outcome = true_outcome;
        field = some "context.protocol";
        op = some not_exists;
        expected = omitted;
        actual = none;
        absence = some absent;
        redacted = false;
        redaction_marker = none;
      })
      Traces.nil

abbrev pub evidence_match : DetectionMatch
evidence_match = record {
  rule_id = "no-protocol";
  rule_version = pos 1;
  rule_title = "Rule";
  event = connection;
  root_outcome = true_outcome;
  trace = absent_trace;
}

abbrev pub new_case : Alert
new_case = record {
  alert_id = "case-1";
  source_match = evidence_match;
  created_at = instant;
  state = new;
  state_changed_at = instant;
  severity = unassigned;
  priority = normal;
  updated_at = instant;
}

abbrev pub urgent_case : Alert
urgent_case = record {
  alert_id = "case-2";
  source_match = evidence_match;
  created_at = instant;
  state = acknowledged;
  state_changed_at = instant;
  severity = critical;
  priority = urgent;
  updated_at = instant;
}

-- The instant `later`, in a zone one microsecond east of UTC.
abbrev pub later_value : Value
later_value = timestamp (record { wall = 201; tzinfo = some (ahead 1) })

abbrev pub later : Datetime
later = record { wall = 200; tzinfo = some utc }
