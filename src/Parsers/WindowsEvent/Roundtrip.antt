-- ===== src/Parsers/WindowsEvent/Roundtrip.antt =====
-- A raw event that is read back from its document.
use soc_investigation_lab.Common.{
  ℕ, String, ◌≡◌, refl, true, false, Option, none, some, List, ok, ◌==◌, string_eq, lookup,
  is_unique, and-eq-true, not-eq-true,
}
use soc_investigation_lab.Python.Int.{pos}
use soc_investigation_lab.Python.Text.{decimal, strip}
use soc_investigation_lab.Python.Text.Stripping.{strip-decimal}
use soc_investigation_lab.Python.Datetime.{Datetime, utc, has_offset, astimezone_utc}
use soc_investigation_lab.Models.Event.{non_empty, is_aware}
use soc_investigation_lab.Models.Rule.{is_blank}
use soc_investigation_lab.Models.Raw.{RawWindowsEvent, validate_raw, construct_raw}
use soc_investigation_lab.Parsers.Xml.{with_tag}
use soc_investigation_lab.Parsers.WindowsEvent.{
  names, parse_timestamp, iso_value, required_single_child, parse_root, named,
}
use soc_investigation_lab.Parsers.WindowsEvent.Rendering.{document_of}
use soc_investigation_lab.Parsers.WindowsEvent.Data.{are_named}
use soc_investigation_lab.Parsers.WindowsEvent.System.{
  is_short, is_optional_short, as_integer, decimal_is_text, event_id-read, single_text, system,
  provider-child, time-child, event_id-child, channel-child, computer-child, record_id-parsed,
  fields-parsed, single_event,
}

parse_timestamp-utc :
    (fromisoformat : String → Option Datetime) (time : String) (d : Datetime)
    → fromisoformat (iso_value time) ≡ some d
    → d.tzinfo ≡ some utc
    → parse_timestamp fromisoformat time ≡ ok d
unfolding parse_timestamp has_offset astimezone_utc
parse_timestamp-utc fromisoformat time d e tz = rw (e, tz) refl

-- The texts of a raw event that are left as they are by the parser: they have no white space around
-- them, the numbers are not too long, the timestamp is in UTC and reads as `time`, and the names of
-- the event data are different and not blank.
pub record IsWritable (fromisoformat : String → Option Datetime) (raw : RawWindowsEvent)
    (time : String) : Type 0 where
  pub valid : validate_raw raw ≡ true
  pub provider : strip raw.provider ≡ raw.provider
  pub channel : strip raw.channel ≡ raw.channel
  pub computer : strip raw.computer ≡ raw.computer
  pub event_id : is_short raw.event_id ≡ true
  pub record_id : is_optional_short raw.record_id ≡ true
  pub time_text : strip time ≡ time
  pub time_there : (time == "") ≡ false
  pub reads : fromisoformat (iso_value time) ≡ some raw.timestamp
  pub in_utc : raw.timestamp.tzinfo ≡ some utc
  pub named : are_named raw.event_data ≡ true
  pub different : is_unique (names raw.event_data) ≡ true

construct_raw-valid :
    (provider : String) (event_id : ℕ) (channel : String) (timestamp : Datetime) (computer : String)
    (o : Option ℕ) (event_data : List (String × String)) (raw : RawWindowsEvent)
    → raw ≡ record {
      provider = provider;
      event_id = event_id;
      channel = channel;
      timestamp = timestamp;
      computer = computer;
      record_id = o;
      event_data = event_data;
    }
    → validate_raw raw ≡ true
    → construct_raw provider (pos event_id) channel timestamp computer (as_integer o) event_data
      ≡ some raw
unfolding construct_raw
construct_raw-valid provider event_id channel timestamp computer none event_data raw e valid =
    rw (← e, valid) refl
construct_raw-valid provider event_id channel timestamp computer (some n) event_data raw e valid =
    rw (← e, valid) refl

named_text :
    (message text : String)
    → strip text ≡ text
    → (text == "") ≡ false
    → named message (some text) ≡ ok text
unfolding is_blank
named_text message text stripped there = rw (stripped, there) refl

-- The texts that the model of a raw event asks for are there.
record Filled (raw : RawWindowsEvent) : Type 0 where
  provider : (raw.provider == "") ≡ false
  channel : (raw.channel == "") ≡ false
  computer : (raw.computer == "") ≡ false

validate_raw-Filled : (raw : RawWindowsEvent) → validate_raw raw ≡ true → Filled raw
unfolding validate_raw
validate_raw-Filled raw h =
    let (h, computer) = and-eq-true _ (non_empty raw.computer) h in
    let (h, aware) = and-eq-true _ (is_aware raw.timestamp) h in
    let (h, channel) = and-eq-true _ (non_empty raw.channel) h in
    let (provider, positive) = and-eq-true (non_empty raw.provider) _ h in
    record {
      provider = not-eq-true (raw.provider == "") provider;
      channel = not-eq-true (raw.channel == "") channel;
      computer = not-eq-true (raw.computer == "") computer;
    }

module _ (fromisoformat : String → Option Datetime) (raw : RawWindowsEvent) (time : String)
    (w : IsWritable fromisoformat raw time) where
  -- A raw event that its model accepts, whose texts have no white space around them, whose numbers
  -- have at most 4300 digits, whose timestamp is in UTC and is what `fromisoformat` reads of a text,
  -- and whose event data has different names that are not blank: the parser reads it back from its
  -- document, with every field.
  pub parse_root-document_of : parse_root fromisoformat (document_of raw time) ≡ ok raw
  unfolding parse_root required_single_child with_tag lookup
  parse_root-document_of =
      let filled = validate_raw-Filled raw w.valid in
      let id = decimal raw.event_id in
      rw
        (
          single_event raw time,
          provider-child raw time,
          named_text "Provider Name must not be missing or blank" raw.provider w.provider
              filled.provider,
          single_text (system raw time) "EventID" "EventID" id (event_id-child raw time)
              (strip-decimal raw.event_id) (decimal_is_text raw.event_id),
          event_id-read raw.event_id w.event_id,
          time-child raw time,
          named_text "TimeCreated SystemTime must not be missing or blank" time w.time_text
              w.time_there,
          single_text (system raw time) "Channel" "Channel" raw.channel (channel-child raw time)
              w.channel filled.channel,
          w.time_text,
          parse_timestamp-utc fromisoformat time raw.timestamp w.reads w.in_utc,
          single_text (system raw time) "Computer" "Computer" raw.computer (computer-child raw time)
              w.computer filled.computer,
          record_id-parsed raw time w.record_id,
          fields-parsed raw time w.named w.different,
          w.provider,
          construct_raw-valid raw.provider raw.event_id raw.channel raw.timestamp raw.computer
              raw.record_id raw.event_data raw refl w.valid,
        )
        refl
