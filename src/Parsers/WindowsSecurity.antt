-- ===== src/Parsers/WindowsSecurity.antt =====
-- backend/app/parsers/windows_security.py. The constraints of a context are checked when the event
-- is constructed, which a ValidationError of either leaves with one message.
pub mod Handling
use soc_investigation_lab.Common.{
  ℕ, String, Bool, true, false, not, ◌&&◌, ◌||◌, Option, none, some, List, [], ◌∷◌, Result, ok, err,
  ◌>>=◌, ◌>>◌, guard, eqb, ◌==◌, string_eq, if◌then◌else◌,
}
use soc_investigation_lab.Python.Text.{startswith}
use soc_investigation_lab.Python.Address.{Address}
use soc_investigation_lab.Models.Event.{
  NormalizedEvent, windows_security, EventCategory, authentication, process, EventContext,
  of_authentication, of_process, AuthenticationContext, ProcessContext, AuthenticationOutcome,
  success, failure,
}
use soc_investigation_lab.Models.Raw.{RawWindowsEvent}
use soc_investigation_lab.Parsers.Errors.{unsupported_identity, Raised, controlled}
use soc_investigation_lab.Parsers.Fields.{
  EventData, text_field, required_text, non_negative_integer, optionally, unconsumed,
  construct_event, address_field,
}

abbrev pub provider_name : String
provider_name = "Microsoft-Windows-Security-Auditing"

abbrev pub authentication_fields : List String
authentication_fields =
    "TargetUserName" ∷ "TargetDomainName" ∷ "LogonType" ∷ "IpAddress" ∷ "IpPort" ∷ "WorkstationName"
    ∷ []

abbrev pub process_fields : List String
process_fields =
    "NewProcessName" ∷ "NewProcessId" ∷ "CommandLine" ∷ "ProcessId" ∷ "ParentProcessName"
    ∷ "SubjectUserName" ∷ []

abbrev pub parse_non_negative_integer : ℕ → String → String → Result Raised ℕ
parse_non_negative_integer = non_negative_integer " must be a valid integer"

abbrev pub optional_decimal_integer : EventData → String → Result Raised (Option ℕ)
optional_decimal_integer fields field =
    optionally (λ value. parse_non_negative_integer 10 value field) (text_field fields field)

-- `0x` or `0X` in front says base 16.
unfoldable pub windows_integer : String → String → Result Raised ℕ
unfolding startswith
windows_integer value field =
    let base = if startswith value "0x" || startswith value "0X" then 16 else 10 in
    parse_non_negative_integer base value field

abbrev pub optional_windows_integer : EventData → String → Result Raised (Option ℕ)
optional_windows_integer fields field =
    optionally (λ value. windows_integer value field) (text_field fields field)

abbrev pub failure_message : String
failure_message = "invalid normalized Windows Security event"

module _ (ip_address : String → Option Address) where
  unfoldable pub authentication_context :
      EventData → AuthenticationOutcome → Result Raised AuthenticationContext
  authentication_context fields outcome = do
    logon_type ← optional_decimal_integer fields "LogonType"
    source_port ← optional_decimal_integer fields "IpPort"
    source_ip ←
        optionally (address_field failure_message ip_address) (text_field fields "IpAddress")
    ok (record {
      outcome = outcome;
      user = text_field fields "TargetUserName";
      domain = text_field fields "TargetDomainName";
      logon_type = logon_type;
      source_ip = source_ip;
      source_port = source_port;
      workstation = text_field fields "WorkstationName";
    })

unfoldable pub process_context : EventData → Result Raised ProcessContext
process_context fields = do
  image ← required_text fields "NewProcessName"
  id_text ← required_text fields "NewProcessId"
  process_id ← windows_integer id_text "NewProcessId"
  parent_process_id ← optional_windows_integer fields "ProcessId"
  ok (record {
    image = image;
    process_id = some process_id;
    command_line = text_field fields "CommandLine";
    parent_process_id = parent_process_id;
    parent_image = text_field fields "ParentProcessName";
    user = text_field fields "SubjectUserName";
  })

abbrev is_supported_id : ℕ → Bool
is_supported_id id = eqb id 4624 || eqb id 4625 || eqb id 4688

unfoldable pub is_supported : RawWindowsEvent → Bool
is_supported raw =
    raw.provider == provider_name && raw.channel == "Security" && is_supported_id raw.event_id

-- The event of a context, with the data that the context does not consume.
abbrev pub event_of : RawWindowsEvent → EventCategory → EventContext → List String → NormalizedEvent
event_of raw category context consumed_fields = record {
  source = windows_security;
  provider = raw.provider;
  event_id = raw.event_id;
  channel = raw.channel;
  timestamp = raw.timestamp;
  computer = raw.computer;
  record_id = raw.record_id;
  category = category;
  context = context;
  source_data = unconsumed consumed_fields raw.event_data;
}

abbrev pub outcome_of : RawWindowsEvent → AuthenticationOutcome
outcome_of raw = if eqb raw.event_id 4624 then success else failure

module _ (ip_address : String → Option Address) where
  unfoldable pub normalize_process : RawWindowsEvent → Result Raised NormalizedEvent
  normalize_process raw = do
    context ← process_context raw.event_data
    construct_event failure_message (event_of raw process (of_process context) process_fields)

  unfoldable pub normalize_authentication : RawWindowsEvent → Result Raised NormalizedEvent
  normalize_authentication raw = do
    context ← authentication_context ip_address raw.event_data (outcome_of raw)
    construct_event failure_message
        (event_of raw authentication (of_authentication context) authentication_fields)

  unfoldable pub normalize_windows_security_event : RawWindowsEvent → Result Raised NormalizedEvent
  normalize_windows_security_event raw = do
    guard (is_supported raw)
        (controlled (unsupported_identity raw.provider raw.channel raw.event_id))
    if eqb raw.event_id 4688 then normalize_process raw else normalize_authentication raw
