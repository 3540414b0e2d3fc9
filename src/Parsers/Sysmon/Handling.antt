-- ===== src/Parsers/Sysmon/Handling.antt =====
-- Every raw event is handled by the normalizer of Sysmon events, and its context holds the data
-- that it shows.
use soc_investigation_lab.Common.{
  ℕ, String, ◌≡◌, refl, sym, ap, some, true, Option, List, Result, eqb,
}
use soc_investigation_lab.Python.Int.{pos}
use soc_investigation_lab.Python.Reading.{read_int}
use soc_investigation_lab.Python.Address.{Address}
use soc_investigation_lab.Models.Event.{
  sysmon, validate_event, process, network, file, dns, of_process, of_network, of_file, of_dns,
  EventCategory, EventContext,
}
use soc_investigation_lab.Models.Raw.{RawWindowsEvent}
use soc_investigation_lab.Parsers.Errors.{unsupported_identity, Raised}
use soc_investigation_lab.Parsers.Outcomes.{
  Any, Handles, Handles-map, Handles-bind, Handles-guard, Handles-ok, Handles-branch,
}
use soc_investigation_lab.Parsers.Slots.{
  AreFilled, HasOutcome, IsReading, names, sysmon_category, sysmon_slots,
}
use soc_investigation_lab.Parsers.Fields.{EventData, unconsumed, text_field}
use soc_investigation_lab.Parsers.Normalized.{
  IsNormalized, IsReading-some, required_text-Handles, non_negative_integer-Handles,
  optionally-Handles, address_field-Handles, construct_event-Handles,
}
use soc_investigation_lab.Parsers.Sysmon.{
  process_fields, network_fields, file_fields, dns_fields, decimal_integer, required_integer,
  optional_integer, failure_message, process_context, network_context, file_context, dns_context,
  is_supported, event_of, finish, normalize_by_id, normalize_sysmon_event,
}

decimal_integer-Handles :
    (value field : String)
    → Handles (λ n. read_int 10 value ≡ some (pos n)) (decimal_integer value field)
decimal_integer-Handles value field =
    non_negative_integer-Handles " must be a valid decimal integer" 10 value field

-- The field of a number.
abbrev Reads : EventData → String → Option ℕ → Type 0
Reads fields field n = IsReading (read_int 10) pos n (text_field fields field)

required_integer-Handles :
    (fields : EventData) (field : String)
    → Handles (λ n. Reads fields field (some n)) (required_integer fields field)
required_integer-Handles fields field =
    Handles-bind _ (required_text-Handles fields field) λ value found.
      Handles-map (λ n read. IsReading-some (read_int 10) pos found read)
        (decimal_integer-Handles value field)

optional_integer-Handles :
    (fields : EventData) (field : String)
    → Handles (Reads fields field) (optional_integer fields field)
optional_integer-Handles fields field =
    optionally-Handles (λ value. decimal_integer value field) (read_int 10) pos
      (text_field fields field) λ value. decimal_integer-Handles value field

event_of-IsNormalized :
    (ip_address : String → Option Address) (raw : RawWindowsEvent) (category : EventCategory)
    (context : EventContext) (consumed : List String)
    → category ≡ sysmon_category raw.event_id
    → HasOutcome raw.event_id context
    → AreFilled raw.event_data (sysmon_slots ip_address context)
    → names (sysmon_slots ip_address context) ≡ consumed
    → validate_event (event_of raw category context consumed) ≡ true
    → IsNormalized raw sysmon
        (sysmon_category raw.event_id)
        (sysmon_slots ip_address)
        (event_of raw category context consumed)
event_of-IsNormalized ip_address raw category context consumed expected outcome filled same valid =
    record {
      valid = valid;
      provider_kept = refl;
      event_id_kept = refl;
      channel_kept = refl;
      timestamp_kept = refl;
      computer_kept = refl;
      record_id_kept = refl;
      source_expected = refl;
      category_expected = expected;
      outcome_kept = outcome;
      filled = filled;
      data_kept = ap (λ consumed. unconsumed consumed raw.event_data) (sym same);
    }

module _ (ip_address : String → Option Address) where
  -- The context that a reader returns holds the event data.
  abbrev Fills {ℓ} : {A : Type ℓ} → EventData → (A → EventContext) → A → Type 0
  Fills fields wrap c = AreFilled fields (sysmon_slots ip_address (wrap c))

  process_context-Handles :
      (fields : EventData) → Handles (Fills fields of_process) (process_context fields)
  unfolding process_context
  process_context-Handles fields =
      Handles-bind _ (required_text-Handles fields "Image") λ image at_image.
        Handles-bind _ (required_integer-Handles fields "ProcessId") λ process_id is_id.
          Handles-bind _ (optional_integer-Handles fields "ParentProcessId") λ parent is_parent.
            Handles-ok (at_image, (is_id, (refl, (is_parent, (refl, (refl, tt))))))

  file_context-Handles : (fields : EventData) → Handles (Fills fields of_file) (file_context fields)
  unfolding file_context
  file_context-Handles fields =
      Handles-bind _ (required_text-Handles fields "TargetFilename") λ target at_target.
        Handles-bind _ (optional_integer-Handles fields "ProcessId")
          λ process_id is_id. Handles-ok (at_target, (is_id, (refl, tt)))

  dns_context-Handles : (fields : EventData) → Handles (Fills fields of_dns) (dns_context fields)
  unfolding dns_context
  dns_context-Handles fields =
      Handles-bind _ (required_text-Handles fields "QueryName") λ query at_query.
        Handles-bind _ (optional_integer-Handles fields "ProcessId")
          λ process_id is_id. Handles-ok (at_query, (refl, (refl, (is_id, (refl, tt)))))

  network_context-Handles :
      (fields : EventData) → Handles (Fills fields of_network) (network_context ip_address fields)
  unfolding network_context
  network_context-Handles fields =
      Handles-bind _ (required_text-Handles fields "SourceIp") λ source_text at_source.
        Handles-bind _ (required_integer-Handles fields "SourcePort") λ source_port is_port.
          Handles-bind _ (required_text-Handles fields "DestinationIp") λ target_text at_target.
            Handles-bind _ (required_integer-Handles fields "DestinationPort")
              λ target_port is_target_port.
                Handles-bind _ (optional_integer-Handles fields "ProcessId") λ process_id is_id.
                  Handles-bind _ (address_field-Handles failure_message ip_address source_text)
                    λ source_ip is_source.
                      Handles-bind _ (address_field-Handles failure_message ip_address target_text)
                        λ target_ip is_target. Handles-ok (
                          IsReading-some ip_address (λ a. a) at_source is_source,
                          (
                            is_port,
                            (
                              IsReading-some ip_address (λ a. a) at_target is_target,
                              (is_target_port, (refl, (is_id, (refl, tt)))),
                            ),
                          ),
                        )

  finish-Handles {ℓ} :
      {A : Type ℓ} (raw : RawWindowsEvent) (category : EventCategory) (wrap : A → EventContext)
      (consumed : List String) (read : Result Raised A)
      → category ≡ sysmon_category raw.event_id
      → ((context : A) → HasOutcome raw.event_id (wrap context))
      → ((context : A) → names (sysmon_slots ip_address (wrap context)) ≡ consumed)
      → Handles (Fills raw.event_data wrap) read
      → Handles
          (IsNormalized raw sysmon (sysmon_category raw.event_id) (sysmon_slots ip_address))
          (finish raw category wrap consumed read)
  finish-Handles raw category wrap consumed read expected outcome same h =
      Handles-bind _ h λ context filled.
        construct_event-Handles
          (IsNormalized raw sysmon (sysmon_category raw.event_id) (sysmon_slots ip_address))
          failure_message (event_of raw category (wrap context) consumed)
          (event_of-IsNormalized ip_address raw category (wrap context) consumed expected
            (outcome context) filled (same context))

  normalize_by_id-Handles :
      (raw : RawWindowsEvent)
      → Handles
          (IsNormalized raw sysmon (sysmon_category raw.event_id) (sysmon_slots ip_address))
          (normalize_by_id ip_address raw)
  unfolding normalize_by_id
  normalize_by_id-Handles raw =
      let fields = raw.event_data in
      Handles-branch (eqb raw.event_id 1)
        (λ one.
          finish-Handles raw process of_process process_fields (process_context fields)
            (rw one refl) (λ c. tt) (λ c. refl) (process_context-Handles fields))
        λ not_one.
          Handles-branch (eqb raw.event_id 3)
            (λ three.
              finish-Handles raw network of_network network_fields
                (network_context ip_address fields) (rw (not_one, three) refl) (λ c. tt) (λ c. refl)
                (network_context-Handles fields))
            λ not_three.
              Handles-branch (eqb raw.event_id 11)
                (λ eleven.
                  finish-Handles raw file of_file file_fields (file_context fields)
                    (rw (not_one, not_three, eleven) refl) (λ c. tt) (λ c. refl)
                    (file_context-Handles fields))
                λ not_eleven.
                  finish-Handles raw dns of_dns dns_fields (dns_context fields)
                    (rw (not_one, not_three, not_eleven) refl) (λ c. tt) (λ c. refl)
                    (dns_context-Handles fields)

  pub normalize_sysmon_event-Handles :
      (raw : RawWindowsEvent)
      → Handles
          (IsNormalized raw sysmon (sysmon_category raw.event_id) (sysmon_slots ip_address))
          (normalize_sysmon_event ip_address raw)
  unfolding normalize_sysmon_event
  normalize_sysmon_event-Handles raw =
      Handles-bind Any
        (Handles-guard (is_supported raw)
          (unsupported_identity raw.provider raw.channel raw.event_id))
        λ u h. normalize_by_id-Handles raw
