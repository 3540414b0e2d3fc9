-- ===== src/Tests/Documents.antt =====
-- Concrete documents and a concrete library of rules.
use soc_investigation_lab.Common.{
  String, Bool, true, false, Option, none, some, [], ◌∷◌, ok, ◌>>◌, ◌==◌, string_eq, if◌then◌else◌,
}
use soc_investigation_lab.Python.Address.{Address}
use soc_investigation_lab.Python.FilePath.{FilePath, file_name}
use soc_investigation_lab.Models.Event.{NormalizedEvent, sysmon, network, of_network}
use soc_investigation_lab.Models.Raw.{RawWindowsEvent}
use soc_investigation_lab.Parsers.Xml.{Element, element, nil, cons}
use soc_investigation_lab.Parsers.WindowsEvent.{qualified}
use soc_investigation_lab.Parsers.Pipeline.{DocumentParsers}
use soc_investigation_lab.Detection.Loader.Files.{FileSystem, regular_file, directory_file}
use soc_investigation_lab.Detection.Loader.Documents.{
  RuleDocuments, alias_event, other_event, scalar_node,
}
use soc_investigation_lab.Tests.{instant, inside, outside, inside_rule, tcp_rule}

abbrev text_element : String → String → Element
text_element name text = element (qualified name) [] (some text) nil

abbrev field_element : String → String → Element
field_element name text = element (qualified "Data") (("Name", name) ∷ []) (some text) nil

abbrev system_element : Element
system_element = element (qualified "System") [] none (
    cons (element (qualified "Provider") (("Name", "Microsoft-Windows-Sysmon") ∷ []) none nil) (
      cons (text_element "EventID" "3") (
        cons
          (element (qualified "TimeCreated") (("SystemTime", "2026-01-01T00:00:00Z") ∷ []) none nil)
          (cons (text_element "Channel" "Microsoft-Windows-Sysmon/Operational")
            (cons (text_element "Computer" "host") nil)))))

abbrev event_data_element : Element
event_data_element = element (qualified "EventData") [] none (
    cons (field_element "SourceIp" "10.0.0.5") (
      cons (field_element "SourcePort" "50000") (
        cons (field_element "DestinationIp" "192.0.2.1")
          (cons (field_element "DestinationPort" "443") (cons (field_element "Rule" "r1") nil)))))

abbrev pub sysmon_document : Element
sysmon_document =
    element (qualified "Event") [] none (cons system_element (cons event_data_element nil))

abbrev address_of : String → Option Address
address_of s =
    if s == "10.0.0.5" then some inside else if s == "192.0.2.1" then some outside else none

-- Parsers that know one document, one datetime and two addresses.
abbrev pub document_parsers : DocumentParsers
document_parsers = record {
  fromstring = λ s. if s == "<Event/>" then some sysmon_document else none;
  fromisoformat = λ s. if s == "2026-01-01T00:00:00+00:00" then some instant else none;
  ip_address = address_of;
}

abbrev pub raw_event : RawWindowsEvent
raw_event = record {
  provider = "Microsoft-Windows-Sysmon";
  event_id = 3;
  channel = "Microsoft-Windows-Sysmon/Operational";
  timestamp = instant;
  computer = "host";
  record_id = none;
  event_data =
      ("SourceIp", "10.0.0.5")
      ∷ ("SourcePort", "50000")
      ∷ ("DestinationIp", "192.0.2.1")
      ∷ ("DestinationPort", "443")
      ∷ ("Rule", "r1")
      ∷ [];
}

abbrev pub normalized_event : NormalizedEvent
normalized_event = record {
  source = sysmon;
  provider = "Microsoft-Windows-Sysmon";
  event_id = 3;
  channel = "Microsoft-Windows-Sysmon/Operational";
  timestamp = instant;
  computer = "host";
  record_id = none;
  category = network;
  context = of_network (record {
    source_ip = inside;
    source_port = 50000;
    destination_ip = outside;
    destination_port = 443;
    protocol = none;
    process_id = none;
    process_image = none;
  });
  source_data = ("Rule", "r1") ∷ [];
}

abbrev pub root : FilePath
root = record { anchor = "/"; parts = "rules" ∷ [] }

abbrev pub below : String → FilePath
below name = record { anchor = "/"; parts = "rules" ∷ name ∷ [] }

abbrev pub is_rules : FilePath → Bool
is_rules path = file_name path == "rules"

-- A directory with two files; the text of a file is its name.
abbrev pub file_system : FileSystem
file_system = record {
  lstat = λ path. some (record {
    kind = if is_rules path then directory_file else regular_file;
    reparse_point = false;
  });
  resolve = λ path. some path;
  is_dir = λ path. some true;
  iterdir = λ path. if is_rules path then some (below "b.yml" ∷ below "a.yaml" ∷ []) else none;
  read_text = λ path. ok (file_name path);
}

-- Documents that are their texts, of two known rules.
abbrev pub rule_documents : RuleDocuments String
rule_documents = record {
  parse = λ s. (if s == "bad" then other_event ∷ alias_event ∷ [] else other_event ∷ [], false);
  get_single_data = λ check_keys s. do
    check_keys (scalar_node "tag:yaml.org,2002:str" "id" ∷ [])
    ok s;
  is_dict = λ s. true;
  is_empty = λ s. s == "";
  read_rule = λ s. some (if s == "a.yaml" then tcp_rule else inside_rule);
}

-- The same rule in every document.
abbrev pub repeated_documents : RuleDocuments String
repeated_documents = record rule_documents { read_rule = λ s. some inside_rule }

-- Texts with an alias, then an error of YAML.
abbrev pub unsafe_documents : RuleDocuments String
unsafe_documents = record rule_documents { parse = λ s. (alias_event ∷ [], true) }
