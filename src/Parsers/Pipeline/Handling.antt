-- ===== src/Parsers/Pipeline/Handling.antt =====
-- Every document is handled by the pipeline.
use soc_investigation_lab.Common.{
  String, ◌≡◌, refl, true, not, Option, none, some, ok, subst, string_eq,
}
use soc_investigation_lab.Python.Datetime.{Datetime, is_utc}
use soc_investigation_lab.Python.Address.{Address}
use soc_investigation_lab.Models.Event.{
  EventSource, EventCategory, EventContext, NormalizedEvent, validate_event,
}
use soc_investigation_lab.Models.Raw.{RawWindowsEvent}
use soc_investigation_lab.Parsers.Outcomes.{
  Handles, Handles-map, Handles-bind, Handles-ok, Handles-err, Handles-if,
}
use soc_investigation_lab.Parsers.Slots.{Slots}
use soc_investigation_lab.Parsers.Normalized.{IsNormalized}
use soc_investigation_lab.Parsers.WindowsEvent.Handling.{
  HasFixedOffset, IsIngested, parse_windows_event_xml-Handles,
}
use soc_investigation_lab.Parsers.WindowsSecurity.Handling.{
  normalize_windows_security_event-Handles,
}
use soc_investigation_lab.Parsers.Sysmon.Handling.{normalize_sysmon_event-Handles}
use soc_investigation_lab.Parsers.Registry.{
  EventNormalizer, security_normalizer, sysmon_normalizer, registry, find_normalizer,
  is_supported_provider, or_unsupported, get_event_normalizer, apply_normalizer,
}
use soc_investigation_lab.Parsers.Pipeline.{DocumentParsers, normalize_windows_event_xml}

-- An event that the model accepts, in UTC, from a provider and with a number of the registry.
pub record IsSupported (e : NormalizedEvent) : Type 0 where
  pub valid : validate_event e ≡ true
  pub in_utc : is_utc e.timestamp ≡ true
  pub normalizer : EventNormalizer
  pub registered : find_normalizer e.provider e.event_id registry ≡ some normalizer

-- The normalizer is the one that the registry has for the raw event.
abbrev Registered : RawWindowsEvent → EventNormalizer → Type 0
Registered raw n = find_normalizer raw.provider raw.event_id registry ≡ some n

or_unsupported-Handles :
    (raw : RawWindowsEvent) (o : Option EventNormalizer)
    → find_normalizer raw.provider raw.event_id registry ≡ o
    → Handles (Registered raw) (or_unsupported raw o)
or_unsupported-Handles raw (some n) h = Handles-ok h
or_unsupported-Handles raw none h =
    Handles-if (not (is_supported_provider raw.provider)) Handles-err Handles-err

get_event_normalizer-Handles :
    (raw : RawWindowsEvent) → Handles (Registered raw) (get_event_normalizer raw)
unfolding get_event_normalizer
get_event_normalizer-Handles raw =
    or_unsupported-Handles raw (find_normalizer raw.provider raw.event_id registry) refl

kept-IsSupported :
    {from : EventSource} {expected : EventCategory} {slots : EventContext → Slots}
    (raw : RawWindowsEvent) (n : EventNormalizer) (e : NormalizedEvent)
    → IsIngested raw
    → Registered raw n
    → IsNormalized raw from expected slots e
    → IsSupported e
kept-IsSupported raw n e ingested found made = record {
  valid = made.valid;
  in_utc = rw made.timestamp_kept ingested.in_utc;
  normalizer = n;
  registered = rw (made.provider_kept, made.event_id_kept) found;
}

apply_normalizer-Handles :
    (ip_address : String → Option Address) (raw : RawWindowsEvent) (n : EventNormalizer)
    → IsIngested raw
    → Registered raw n
    → Handles IsSupported (apply_normalizer ip_address n raw)
unfolding apply_normalizer
apply_normalizer-Handles ip_address raw security_normalizer ingested found =
    Handles-map (λ e made. kept-IsSupported raw security_normalizer e ingested found made)
      (normalize_windows_security_event-Handles ip_address raw)
apply_normalizer-Handles ip_address raw sysmon_normalizer ingested found =
    Handles-map (λ e made. kept-IsSupported raw sysmon_normalizer e ingested found made)
      (normalize_sysmon_event-Handles ip_address raw)

module _ (parsers : DocumentParsers)
    (fixed : (text : String) (d : Datetime)
      → parsers.fromisoformat text ≡ some d
      → HasFixedOffset d) where
  -- If the datetimes that `fromisoformat` reads are without a zone or have a fixed offset, every text
  -- is normalized to an event that the event model accepts, with a timestamp in UTC and with a
  -- provider and number of the registry, or fails with a controlled parser error, or with the
  -- OverflowError of a timestamp that UTC cannot show: no other exception escapes.
  pub normalize_windows_event_xml-Handles :
      (xml : String) → Handles IsSupported (normalize_windows_event_xml parsers xml)
  unfolding normalize_windows_event_xml
  normalize_windows_event_xml-Handles xml =
      Handles-bind IsIngested
        (parse_windows_event_xml-Handles parsers.fromisoformat fixed parsers.fromstring xml)
        λ raw ingested.
          Handles-bind (Registered raw) (get_event_normalizer-Handles raw)
            λ n found. apply_normalizer-Handles parsers.ip_address raw n ingested found

  -- An event that the pipeline returned.
  pub normalize_windows_event_xml-IsSupported :
      (xml : String) (e : NormalizedEvent)
      → normalize_windows_event_xml parsers xml ≡ ok e
      → IsSupported e
  normalize_windows_event_xml-IsSupported xml e h =
      (subst (Handles IsSupported) h (normalize_windows_event_xml-Handles xml)).outcome
