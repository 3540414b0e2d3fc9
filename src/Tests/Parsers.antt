-- ===== src/Tests/Parsers.antt =====
-- The theorems on parsers at a concrete document.
use soc_investigation_lab.Common.{
  String, ◌≡◌, refl, true, Option, none, some, ok, ◌==◌, string_eq, lookup, Bool-cases, inl, inr,
}
use soc_investigation_lab.Python.Datetime.{Datetime}
use soc_investigation_lab.Parsers.WindowsEvent.Handling.{HasFixedOffset}
use soc_investigation_lab.Python.Datetime.{has_offset, astimezone_utc}
use soc_investigation_lab.Python.Text.{startswith, endswith, reversed, initial, strip, lstrip}
use soc_investigation_lab.Python.Reading.{read_int, digit_value}
use soc_investigation_lab.Models.Rule.{is_blank}
use soc_investigation_lab.Models.Raw.{construct_raw, validate_raw}
use soc_investigation_lab.Models.Event.{sysmon, validate_event, network}
use soc_investigation_lab.Parsers.Xml.{with_tag, count_tag}
use soc_investigation_lab.Parsers.WindowsEvent.{
  parse_windows_event_xml, parse_root, required_single_child, required_text, parse_integer,
  parse_timestamp, iso_value, parse_record_id, record_id_of, parse_event_data, event_data_of,
  collect_data,
}
use soc_investigation_lab.Parsers.Fields.{
  required_text as field_text, optional_text, non_negative_integer, construct_event, unconsumed,
}
use soc_investigation_lab.Parsers.Sysmon.{
  normalize_sysmon_event, is_supported, normalize_by_id, network_context,
}
use soc_investigation_lab.Parsers.Registry.{get_event_normalizer, find_normalizer, apply_normalizer}
use soc_investigation_lab.Parsers.Pipeline.{normalize_windows_event_xml}
use soc_investigation_lab.Python.Int.{pos}
use soc_investigation_lab.Python.Datetime.{ahead}
use soc_investigation_lab.Python.Text.{decimal, text_length}
use soc_investigation_lab.Python.Reading.{max_digits}
use soc_investigation_lab.Parsers.Xml.{children}
use soc_investigation_lab.Tests.Documents.{sysmon_document}
use soc_investigation_lab.Parsers.WindowsEvent.Names.{AreDistinct, parse_event_data-AreDistinct}
use soc_investigation_lab.Parsers.WindowsEvent.Rendering.{document_of}
use soc_investigation_lab.Parsers.WindowsEvent.Roundtrip.{IsWritable, parse_root-document_of}
use soc_investigation_lab.Parsers.Outcomes.{Handles}
use soc_investigation_lab.Parsers.Pipeline.Handling.{
  IsSupported, normalize_windows_event_xml-Handles,
}
use soc_investigation_lab.Parsers.Registry.{sysmon_normalizer}
use soc_investigation_lab.Common.{◌↔◌}
use soc_investigation_lab.Parsers.Registry.Identities.{
  accepts, channel_of, get_event_normalizer-accepts,
}
use soc_investigation_lab.Parsers.Slots.{HasOutcome, IsKept}
use soc_investigation_lab.Parsers.Registry.Provenance.{slots_of, apply_normalizer-source_data}
use soc_investigation_lab.Parsers.WindowsEvent.Timestamps.{IsRead, Answers, parse_timestamp-Answers}
use soc_investigation_lab.Parsers.WindowsSecurity.{windows_integer}
use soc_investigation_lab.Parsers.Sysmon.{decimal_integer}
use soc_investigation_lab.Parsers.Integers.{read-decimal}
use soc_investigation_lab.Common.{leb, arith}
use soc_investigation_lab.Tests.{instant}
use soc_investigation_lab.Tests.Documents.{document_parsers, raw_event, normalized_event}

pub document_parsers-HasFixedOffset :
    (text : String) (d : Datetime) → document_parsers.fromisoformat text ≡ some d → HasFixedOffset d
document_parsers-HasFixedOffset text d h = elim (Bool-cases (text == "2026-01-01T00:00:00+00:00")) [
  | inl known ↦
      let known : some instant ≡ some d = rw known at h in
      let same : instant ≡ d = cc in rw (← same) tt
  | inr other ↦ let lost : none ≡ some d = rw other at h in cc
]

pub document-normalizes :
    normalize_windows_event_xml document_parsers "<Event/>" ≡ ok normalized_event
unfolding normalize_windows_event_xml parse_windows_event_xml parse_root required_single_child
    with_tag count_tag required_text parse_integer parse_timestamp iso_value endswith startswith
    reversed initial strip lstrip parse_record_id record_id_of parse_event_data event_data_of
    collect_data is_blank lookup construct_raw validate_raw read_int has_offset astimezone_utc
    get_event_normalizer find_normalizer apply_normalizer normalize_sysmon_event is_supported
    normalize_by_id network_context field_text optional_text non_negative_integer construct_event
    validate_event unconsumed digit_value
document-normalizes = refl

normalize_windows_event_xml-Handles_example :
    Handles IsSupported (normalize_windows_event_xml document_parsers "<Event/>")
normalize_windows_event_xml-Handles_example =
    normalize_windows_event_xml-Handles document_parsers document_parsers-HasFixedOffset "<Event/>"

raw_event-normalizes :
    apply_normalizer document_parsers.ip_address sysmon_normalizer raw_event ≡ ok normalized_event
unfolding startswith reversed strip lstrip lookup validate_event read_int apply_normalizer
    normalize_sysmon_event is_supported normalize_by_id network_context field_text optional_text
    non_negative_integer construct_event unconsumed digit_value
raw_event-normalizes = refl

apply_normalizer-source_data_example :
    (validate_event normalized_event ≡ true)
    × (normalized_event.provider ≡ raw_event.provider)
    × (normalized_event.event_id ≡ raw_event.event_id)
    × (normalized_event.channel ≡ raw_event.channel)
    × (normalized_event.timestamp ≡ raw_event.timestamp)
    × (normalized_event.computer ≡ raw_event.computer)
    × (normalized_event.record_id ≡ raw_event.record_id)
    × (normalized_event.source ≡ sysmon)
    × (normalized_event.category ≡ network)
    × HasOutcome 3 normalized_event.context
    × IsKept raw_event.event_data normalized_event.source_data "SourcePort" (
        lookup "SourcePort"
          (slots_of sysmon_normalizer document_parsers.ip_address normalized_event.context))
apply_normalizer-source_data_example =
    apply_normalizer-source_data document_parsers.ip_address raw_event sysmon_normalizer
      normalized_event "SourcePort" raw_event-normalizes

-- One microsecond after the first instant, an hour ahead of UTC.
abbrev too_early : Option Datetime
too_early = some (record { wall = 1; tzinfo = some (ahead 3600000000) })

too_early-IsRead : IsRead too_early
too_early-IsRead = (omega arith, refl)

parse_timestamp-Answers_example :
    Answers too_early (parse_timestamp (λ s. too_early) "0001-01-01T00:00:00.000001+01:00")
parse_timestamp-Answers_example =
    parse_timestamp-Answers (λ s. too_early) "0001-01-01T00:00:00.000001+01:00" too_early refl
      too_early-IsRead

forty_two_is_short : leb (text_length (decimal 42)) max_digits ≡ true
unfolding decimal
forty_two_is_short = refl

read-decimal_example :
    (parse_integer (decimal 42) "EventID" ≡ ok (pos 42))
    × (windows_integer (decimal 42) "EventID" ≡ ok 42)
    × (decimal_integer (decimal 42) "EventID" ≡ ok 42)
read-decimal_example = read-decimal "EventID" 42 forty_two_is_short

raw_event-IsWritable : IsWritable document_parsers.fromisoformat raw_event "2026-01-01T00:00:00Z"
unfolding validate_raw strip lstrip reversed iso_value endswith startswith initial is_blank decimal
raw_event-IsWritable = record {
  valid = refl;
  provider = refl;
  channel = refl;
  computer = refl;
  event_id = refl;
  record_id = refl;
  time_text = refl;
  time_there = refl;
  reads = refl;
  in_utc = refl;
  named = refl;
  different = refl;
}

parse_root-document_of_example :
    parse_root document_parsers.fromisoformat (document_of raw_event "2026-01-01T00:00:00Z")
    ≡ ok raw_event
parse_root-document_of_example =
    parse_root-document_of document_parsers.fromisoformat raw_event "2026-01-01T00:00:00Z"
      raw_event-IsWritable

get_event_normalizer-accepts_example : (accepts sysmon_normalizer raw_event ≡ true) ↔ (
    (get_event_normalizer raw_event ≡ ok sysmon_normalizer)
    × ((raw_event.channel == channel_of sysmon_normalizer) ≡ true))
get_event_normalizer-accepts_example = get_event_normalizer-accepts raw_event sysmon_normalizer

event_data-parses : parse_event_data (children sysmon_document) ≡ ok raw_event.event_data
unfolding parse_event_data event_data_of collect_data with_tag lookup is_blank strip lstrip reversed
event_data-parses = refl

parse_event_data-AreDistinct_example : AreDistinct raw_event.event_data
parse_event_data-AreDistinct_example =
    parse_event_data-AreDistinct (children sysmon_document) raw_event.event_data event_data-parses
