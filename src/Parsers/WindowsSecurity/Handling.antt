-- ===== src/Parsers/WindowsSecurity/Handling.antt =====
-- Every raw event is handled by the normalizer of Windows Security events, and its context holds
-- the data that it shows.
use soc_investigation_lab.Common.{String, false, ◌≡◌, refl, sym, ap, some, true, Option, List, eqb}
use soc_investigation_lab.Python.Int.{pos}
use soc_investigation_lab.Python.Reading.{read_int}
use soc_investigation_lab.Python.Address.{Address}
use soc_investigation_lab.Models.Event.{
  windows_security, validate_event, AuthenticationOutcome, authentication, process,
  of_authentication, of_process, EventCategory, EventContext,
}
use soc_investigation_lab.Models.Raw.{RawWindowsEvent}
use soc_investigation_lab.Parsers.Errors.{unsupported_identity}
use soc_investigation_lab.Parsers.Outcomes.{
  Any, Handles, Handles-bind, Handles-guard, Handles-ok, Handles-branch,
}
use soc_investigation_lab.Parsers.Slots.{
  AreFilled, HasOutcome, IsReading, names, security_category, security_slots, read_windows,
}
use soc_investigation_lab.Parsers.Fields.{EventData, unconsumed, text_field, address_field}
use soc_investigation_lab.Parsers.Normalized.{
  IsNormalized, IsReading-some, required_text-Handles, non_negative_integer-Handles,
  optionally-Handles, address_field-Handles, construct_event-Handles,
}
use soc_investigation_lab.Parsers.WindowsSecurity.{
  authentication_fields, process_fields, parse_non_negative_integer, optional_decimal_integer,
  windows_integer, optional_windows_integer, failure_message, authentication_context,
  process_context, is_supported, event_of, outcome_of, normalize_process, normalize_authentication,
  normalize_windows_security_event,
}

optional_decimal_integer-Handles :
    (fields : EventData) (field : String)
    → Handles
        (λ n. IsReading (read_int 10) pos n (text_field fields field))
        (optional_decimal_integer fields field)
optional_decimal_integer-Handles fields field =
    optionally-Handles (λ value. parse_non_negative_integer 10 value field) (read_int 10) pos
      (text_field fields field)
      λ value. non_negative_integer-Handles " must be a valid integer" 10 value field

windows_integer-Handles :
    (value field : String)
    → Handles (λ n. read_windows value ≡ some (pos n)) (windows_integer value field)
unfolding windows_integer
windows_integer-Handles value field =
    non_negative_integer-Handles " must be a valid integer" _ value field

optional_windows_integer-Handles :
    (fields : EventData) (field : String)
    → Handles
        (λ n. IsReading read_windows pos n (text_field fields field))
        (optional_windows_integer fields field)
optional_windows_integer-Handles fields field =
    optionally-Handles (λ value. windows_integer value field) read_windows pos
      (text_field fields field) λ value. windows_integer-Handles value field

event_of-IsNormalized :
    (ip_address : String → Option Address) (raw : RawWindowsEvent) (category : EventCategory)
    (context : EventContext) (consumed : List String)
    → category ≡ security_category raw.event_id
    → HasOutcome raw.event_id context
    → AreFilled raw.event_data (security_slots ip_address context)
    → names (security_slots ip_address context) ≡ consumed
    → validate_event (event_of raw category context consumed) ≡ true
    → IsNormalized raw windows_security
        (security_category raw.event_id)
        (security_slots ip_address)
        (event_of raw category context consumed)
event_of-IsNormalized ip_address raw category context consumed expected outcome filled same valid =
    record {
      valid = valid;
      provider_kept = refl;
      event_id_kept = refl;
      channel_kept = refl;
      timestamp_kept = refl;
      computer_kept = refl;
      record_id_kept = refl;
      source_expected = refl;
      category_expected = expected;
      outcome_kept = outcome;
      filled = filled;
      data_kept = ap (λ consumed. unconsumed consumed raw.event_data) (sym same);
    }

module _ (ip_address : String → Option Address) where
  process_context-Handles :
      (fields : EventData)
      → Handles
          (λ c. AreFilled fields (security_slots ip_address (of_process c)))
          (process_context fields)
  unfolding process_context
  process_context-Handles fields =
      Handles-bind _ (required_text-Handles fields "NewProcessName") λ image at_image.
        Handles-bind _ (required_text-Handles fields "NewProcessId") λ id_text at_id.
          Handles-bind _ (windows_integer-Handles id_text "NewProcessId") λ process_id is_id.
            Handles-bind _ (optional_windows_integer-Handles fields "ProcessId") λ parent is_parent.
              Handles-ok (
                at_image,
                (
                  IsReading-some read_windows pos at_id is_id,
                  (refl, (is_parent, (refl, (refl, tt)))),
                ),
              )

  authentication_context-Handles :
      (fields : EventData) (outcome : AuthenticationOutcome)
      → Handles
          (λ c.
            (c.outcome ≡ outcome)
            × AreFilled fields (security_slots ip_address (of_authentication c)))
          (authentication_context ip_address fields outcome)
  unfolding authentication_context
  authentication_context-Handles fields outcome =
      Handles-bind _ (optional_decimal_integer-Handles fields "LogonType") λ logon_type is_type.
        Handles-bind _ (optional_decimal_integer-Handles fields "IpPort") λ source_port is_port.
          Handles-bind _
            (optionally-Handles (address_field failure_message ip_address) ip_address (λ a. a)
              (text_field fields "IpAddress") (address_field-Handles failure_message ip_address))
            λ source_ip is_ip.
              Handles-ok (refl, (refl, (refl, (is_type, (is_ip, (is_port, (refl, tt)))))))

  normalize_process-Handles :
      (raw : RawWindowsEvent)
      → eqb raw.event_id 4688 ≡ true
      → Handles
          (IsNormalized raw windows_security
            (security_category raw.event_id)
            (security_slots ip_address))
          (normalize_process ip_address raw)
  unfolding normalize_process
  normalize_process-Handles raw is_id =
      Handles-bind _ (process_context-Handles raw.event_data) λ context filled.
        construct_event-Handles
          (IsNormalized raw windows_security (security_category raw.event_id)
            (security_slots ip_address))
          failure_message (event_of raw process (of_process context) process_fields)
          (event_of-IsNormalized ip_address raw process (of_process context) process_fields
            (rw is_id refl) tt filled refl)

  normalize_authentication-Handles :
      (raw : RawWindowsEvent)
      → eqb raw.event_id 4688 ≡ false
      → Handles
          (IsNormalized raw windows_security
            (security_category raw.event_id)
            (security_slots ip_address))
          (normalize_authentication ip_address raw)
  unfolding normalize_authentication
  normalize_authentication-Handles raw other =
      Handles-bind _ (authentication_context-Handles raw.event_data (outcome_of raw))
        λ context known.
          construct_event-Handles
            (IsNormalized raw windows_security (security_category raw.event_id)
              (security_slots ip_address))
            failure_message
            (event_of raw authentication (of_authentication context) authentication_fields)
            (event_of-IsNormalized ip_address raw authentication (of_authentication context)
              authentication_fields (rw other refl) known.0 known.1 refl)

  pub normalize_windows_security_event-Handles :
      (raw : RawWindowsEvent)
      → Handles
          (IsNormalized raw windows_security
            (security_category raw.event_id)
            (security_slots ip_address))
          (normalize_windows_security_event ip_address raw)
  unfolding normalize_windows_security_event
  normalize_windows_security_event-Handles raw =
      Handles-bind Any
        (Handles-guard (is_supported raw)
          (unsupported_identity raw.provider raw.channel raw.event_id))
        λ u h.
          Handles-branch (eqb raw.event_id 4688) (normalize_process-Handles raw)
            (normalize_authentication-Handles raw)
