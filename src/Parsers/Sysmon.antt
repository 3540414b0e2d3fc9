-- ===== src/Parsers/Sysmon.antt =====
-- backend/app/parsers/sysmon.py. The constraints of a context are checked when the event is
-- constructed, which a ValidationError of either leaves with one message.
pub mod Handling
use soc_investigation_lab.Common.{
  ℕ, String, Bool, true, false, not, ◌&&◌, ◌||◌, Option, none, some, List, [], ◌∷◌, Result, ok, err,
  ◌>>=◌, ◌>>◌, guard, eqb, ◌==◌, string_eq, if◌then◌else◌,
}
use soc_investigation_lab.Python.Address.{Address}
use soc_investigation_lab.Models.Event.{
  NormalizedEvent, sysmon, EventCategory, process, network, file, dns, EventContext, of_process,
  of_network, of_file, of_dns, ProcessContext, NetworkContext, FileContext, DnsContext,
}
use soc_investigation_lab.Models.Raw.{RawWindowsEvent}
use soc_investigation_lab.Parsers.Errors.{unsupported_identity, Raised, controlled}
use soc_investigation_lab.Parsers.Fields.{
  EventData, text_field, required_text, non_negative_integer, optionally, unconsumed,
  construct_event, address_field,
}

abbrev pub provider_name : String
provider_name = "Microsoft-Windows-Sysmon"

abbrev pub process_fields : List String
process_fields =
    "Image" ∷ "ProcessId" ∷ "CommandLine" ∷ "ParentProcessId" ∷ "ParentImage" ∷ "User" ∷ []

abbrev pub network_fields : List String
network_fields =
    "SourceIp" ∷ "SourcePort" ∷ "DestinationIp" ∷ "DestinationPort" ∷ "Protocol" ∷ "ProcessId"
    ∷ "Image" ∷ []

abbrev pub file_fields : List String
file_fields = "TargetFilename" ∷ "ProcessId" ∷ "Image" ∷ []

abbrev pub dns_fields : List String
dns_fields = "QueryName" ∷ "QueryStatus" ∷ "QueryResults" ∷ "ProcessId" ∷ "Image" ∷ []

abbrev pub decimal_integer : String → String → Result Raised ℕ
decimal_integer = non_negative_integer " must be a valid decimal integer" 10

abbrev pub required_integer : EventData → String → Result Raised ℕ
required_integer fields field = do value ← required_text fields field; decimal_integer value field

abbrev pub optional_integer : EventData → String → Result Raised (Option ℕ)
optional_integer fields field =
    optionally (λ value. decimal_integer value field) (text_field fields field)

abbrev pub failure_message : String
failure_message = "invalid normalized Sysmon event"

unfoldable pub process_context : EventData → Result Raised ProcessContext
process_context fields = do
  image ← required_text fields "Image"
  process_id ← required_integer fields "ProcessId"
  parent_process_id ← optional_integer fields "ParentProcessId"
  ok (record {
    image = image;
    process_id = some process_id;
    command_line = text_field fields "CommandLine";
    parent_process_id = parent_process_id;
    parent_image = text_field fields "ParentImage";
    user = text_field fields "User";
  })

module _ (ip_address : String → Option Address) where
  -- The texts and numbers are read before pydantic reads the addresses.
  unfoldable pub network_context : EventData → Result Raised NetworkContext
  network_context fields = do
    source_text ← required_text fields "SourceIp"
    source_port ← required_integer fields "SourcePort"
    destination_text ← required_text fields "DestinationIp"
    destination_port ← required_integer fields "DestinationPort"
    process_id ← optional_integer fields "ProcessId"
    source_ip ← address_field failure_message ip_address source_text
    destination_ip ← address_field failure_message ip_address destination_text
    ok (record {
      source_ip = source_ip;
      source_port = source_port;
      destination_ip = destination_ip;
      destination_port = destination_port;
      protocol = text_field fields "Protocol";
      process_id = process_id;
      process_image = text_field fields "Image";
    })

unfoldable pub file_context : EventData → Result Raised FileContext
file_context fields = do
  target_path ← required_text fields "TargetFilename"
  process_id ← optional_integer fields "ProcessId"
  ok (record {
    target_path = target_path;
    process_id = process_id;
    process_image = text_field fields "Image";
  })

unfoldable pub dns_context : EventData → Result Raised DnsContext
dns_context fields = do
  query_name ← required_text fields "QueryName"
  process_id ← optional_integer fields "ProcessId"
  ok (record {
    query_name = query_name;
    query_status = text_field fields "QueryStatus";
    query_results = text_field fields "QueryResults";
    process_id = process_id;
    process_image = text_field fields "Image";
  })

abbrev is_supported_id : ℕ → Bool
is_supported_id id = eqb id 1 || eqb id 3 || eqb id 11 || eqb id 22

unfoldable pub is_supported : RawWindowsEvent → Bool
is_supported raw =
    raw.provider == provider_name
    && raw.channel == "Microsoft-Windows-Sysmon/Operational"
    && is_supported_id raw.event_id

-- The event of a context, with the data that the context does not consume.
abbrev pub event_of : RawWindowsEvent → EventCategory → EventContext → List String → NormalizedEvent
event_of raw category context consumed_fields = record {
  source = sysmon;
  provider = raw.provider;
  event_id = raw.event_id;
  channel = raw.channel;
  timestamp = raw.timestamp;
  computer = raw.computer;
  record_id = raw.record_id;
  category = category;
  context = context;
  source_data = unconsumed consumed_fields raw.event_data;
}

-- A context, put into its event.
abbrev pub finish {ℓ} :
    {A : Type ℓ}
    → RawWindowsEvent
    → EventCategory
    → (A → EventContext)
    → List String
    → Result Raised A
    → Result Raised NormalizedEvent
finish raw category wrap consumed_fields read = do
  context ← read
  construct_event failure_message (event_of raw category (wrap context) consumed_fields)

module _ (ip_address : String → Option Address) where
  -- The branches by the event's number.
  unfoldable pub normalize_by_id : RawWindowsEvent → Result Raised NormalizedEvent
  normalize_by_id raw =
      if eqb raw.event_id 1
      then finish raw process of_process process_fields (process_context raw.event_data)
      else if eqb raw.event_id 3
      then finish raw network of_network network_fields (network_context ip_address raw.event_data)
      else if eqb raw.event_id 11
      then finish raw file of_file file_fields (file_context raw.event_data)
      else finish raw dns of_dns dns_fields (dns_context raw.event_data)

  unfoldable pub normalize_sysmon_event : RawWindowsEvent → Result Raised NormalizedEvent
  normalize_sysmon_event raw = do
    guard (is_supported raw)
        (controlled (unsupported_identity raw.provider raw.channel raw.event_id))
    normalize_by_id raw
