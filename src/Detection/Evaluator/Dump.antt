-- ===== src/Detection/Evaluator/Dump.antt =====
-- `model_dump(mode="python")` of an event and of its context: the declared fields by name, with
-- their Python objects.
use soc_investigation_lab.Common.{ℕ, String, Option, none, some, List, [], ◌∷◌}
use soc_investigation_lab.Python.Int.{pos}
use soc_investigation_lab.Python.Address.{Address}
use soc_investigation_lab.Python.Value.{
  Value, none_value, integer, string, enum_text, timestamp, address,
}
use soc_investigation_lab.Models.Event.{
  NormalizedEvent, EventContext, of_authentication, of_process, of_network, of_file, of_dns,
  source_value, category_value, outcome_value,
}

abbrev pub optional_text : Option String → Value
optional_text none = none_value
optional_text (some s) = string s

abbrev pub optional_integer : Option ℕ → Value
optional_integer none = none_value
optional_integer (some n) = integer (pos n)

abbrev pub optional_address : Option Address → Value
optional_address none = none_value
optional_address (some a) = address a

unfoldable pub dump_context : EventContext → List (String × Value)
dump_context (of_authentication c) =
    ("outcome", enum_text (outcome_value c.outcome))
    ∷ ("user", optional_text c.user)
    ∷ ("domain", optional_text c.domain)
    ∷ ("logon_type", optional_integer c.logon_type)
    ∷ ("source_ip", optional_address c.source_ip)
    ∷ ("source_port", optional_integer c.source_port)
    ∷ ("workstation", optional_text c.workstation)
    ∷ []
dump_context (of_process c) =
    ("image", string c.image)
    ∷ ("process_id", optional_integer c.process_id)
    ∷ ("command_line", optional_text c.command_line)
    ∷ ("parent_process_id", optional_integer c.parent_process_id)
    ∷ ("parent_image", optional_text c.parent_image)
    ∷ ("user", optional_text c.user)
    ∷ []
dump_context (of_network c) =
    ("source_ip", address c.source_ip)
    ∷ ("source_port", integer (pos c.source_port))
    ∷ ("destination_ip", address c.destination_ip)
    ∷ ("destination_port", integer (pos c.destination_port))
    ∷ ("protocol", optional_text c.protocol)
    ∷ ("process_id", optional_integer c.process_id)
    ∷ ("process_image", optional_text c.process_image)
    ∷ []
dump_context (of_file c) =
    ("target_path", string c.target_path)
    ∷ ("process_id", optional_integer c.process_id)
    ∷ ("process_image", optional_text c.process_image)
    ∷ []
dump_context (of_dns c) =
    ("query_name", string c.query_name)
    ∷ ("query_status", optional_text c.query_status)
    ∷ ("query_results", optional_text c.query_results)
    ∷ ("process_id", optional_integer c.process_id)
    ∷ ("process_image", optional_text c.process_image)
    ∷ []

-- The fields that hold a single value; `context` and `source_data` hold a model and a dict, and no
-- path names them alone.
unfoldable pub dump_event : NormalizedEvent → List (String × Value)
dump_event e =
    ("source", enum_text (source_value e.source))
    ∷ ("provider", string e.provider)
    ∷ ("event_id", integer (pos e.event_id))
    ∷ ("channel", string e.channel)
    ∷ ("timestamp", timestamp e.timestamp)
    ∷ ("computer", string e.computer)
    ∷ ("record_id", optional_integer e.record_id)
    ∷ ("category", enum_text (category_value e.category))
    ∷ []
