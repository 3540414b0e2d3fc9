-- ===== src/Parsers/Registry/Provenance.antt =====
-- Where the data of a normalized event comes from.
use soc_investigation_lab.Common.{
  ℕ, String, ◌≡◌, ◌∙◌, subst, ap, true, Option, ok, lookup, string_eq,
}
use soc_investigation_lab.Python.Address.{Address}
use soc_investigation_lab.Models.Event.{
  EventSource, windows_security, sysmon, EventCategory, EventContext, NormalizedEvent,
  validate_event,
}
use soc_investigation_lab.Models.Raw.{RawWindowsEvent}
use soc_investigation_lab.Parsers.Outcomes.{Handles}
use soc_investigation_lab.Parsers.Slots.{
  Slots, HasOutcome, IsKept, names, security_slots, sysmon_slots, security_category,
  sysmon_category, filled-IsKept,
}
use soc_investigation_lab.Parsers.Normalized.{IsNormalized, lookup-unconsumed}
use soc_investigation_lab.Parsers.WindowsSecurity.Handling.{
  normalize_windows_security_event-Handles,
}
use soc_investigation_lab.Parsers.Sysmon.Handling.{normalize_sysmon_event-Handles}
use soc_investigation_lab.Parsers.Registry.{
  EventNormalizer, security_normalizer, sysmon_normalizer, apply_normalizer,
}

-- The fields of a context with the names of the event data that they show.
abbrev pub slots_of : EventNormalizer → (String → Option Address) → EventContext → Slots
slots_of security_normalizer = security_slots
slots_of sysmon_normalizer = sysmon_slots

abbrev pub source_of : EventNormalizer → EventSource
source_of security_normalizer = windows_security
source_of sysmon_normalizer = sysmon

-- The category of an event, by its normalizer and number.
abbrev pub category_of : EventNormalizer → ℕ → EventCategory
category_of security_normalizer = security_category
category_of sysmon_normalizer = sysmon_category

module _ (ip_address : String → Option Address) (raw : RawWindowsEvent) where
  pub apply_normalizer-IsNormalized :
      (n : EventNormalizer)
      → Handles
          (IsNormalized raw (source_of n) (category_of n raw.event_id) (slots_of n ip_address))
          (apply_normalizer ip_address n raw)
  unfolding apply_normalizer
  apply_normalizer-IsNormalized security_normalizer =
      normalize_windows_security_event-Handles ip_address raw
  apply_normalizer-IsNormalized sysmon_normalizer = normalize_sysmon_event-Handles ip_address raw

  -- An event that a normalizer returns passes the event model and has the provider, number, channel,
  -- timestamp, computer and record number of the raw event, the source of the normalizer, and the
  -- category of its number. A context of authentication has the outcome success exactly for number
  -- 4624. For every name of event data: if a field of the context shows that name (in a table written
  -- from the context types), the field has the text, the number or the address that the raw value
  -- says, or nothing if the value is missing, blank or a dash, and the name is not among the remaining
  -- data; every other name has its raw value there.
  pub apply_normalizer-source_data :
      (n : EventNormalizer) (e : NormalizedEvent) (name : String)
      → apply_normalizer ip_address n raw ≡ ok e
      → (validate_event e ≡ true)
        × (e.provider ≡ raw.provider)
        × (e.event_id ≡ raw.event_id)
        × (e.channel ≡ raw.channel)
        × (e.timestamp ≡ raw.timestamp)
        × (e.computer ≡ raw.computer)
        × (e.record_id ≡ raw.record_id)
        × (e.source ≡ source_of n)
        × (e.category ≡ category_of n raw.event_id)
        × HasOutcome raw.event_id e.context
        × IsKept raw.event_data e.source_data name (lookup name (slots_of n ip_address e.context))
  apply_normalizer-source_data n e name h =
      let made =
        (subst
          (Handles
            (IsNormalized raw (source_of n) (category_of n raw.event_id) (slots_of n ip_address)))
          h (apply_normalizer-IsNormalized n)).outcome in
      let slots = slots_of n ip_address e.context in
      (
        made.valid,
        made.provider_kept,
        made.event_id_kept,
        made.channel_kept,
        made.timestamp_kept,
        made.computer_kept,
        made.record_id_kept,
        made.source_expected,
        made.category_expected,
        made.outcome_kept,
        filled-IsKept raw.event_data e.source_data name slots made.filled
            (ap (lookup name) made.data_kept ∙ lookup-unconsumed (names slots) name raw.event_data),
      )
