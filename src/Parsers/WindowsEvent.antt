-- ===== src/Parsers/WindowsEvent.antt =====
-- backend/app/parsers/windows_event.py: one XML document to a raw event.
pub mod Handling
pub mod Timestamps
pub mod Rendering
pub mod Pieces
pub mod Data
pub mod Names
pub mod System
pub mod Roundtrip
use soc_investigation_lab.Common.{
  ℕ, String, Bool, true, false, not, ◌&&◌, ◌||◌, Option, none, some, List, [], ◌∷◌, ◌++◌, Result,
  ok, err, ◌>>=◌, ◌>>◌, guard, eqb, ◌==◌, string_eq, lookup, member, if◌then◌else◌,
}
use soc_investigation_lab.Python.Int.{ℤ}
use soc_investigation_lab.Python.Text.{◌<>◌, strip, endswith, initial}
use soc_investigation_lab.Python.Reading.{read_int}
use soc_investigation_lab.Python.Exceptions.{Exception}
use soc_investigation_lab.Python.Datetime.{Datetime, has_offset, astimezone_utc}
use soc_investigation_lab.Models.Rule.{is_blank}
use soc_investigation_lab.Models.Raw.{RawWindowsEvent, construct_raw}
use soc_investigation_lab.Parsers.Errors.{
  ParserError, malformed_event_xml, invalid_raw_event, Raised, controlled, uncontrolled, or_raise,
}
use soc_investigation_lab.Parsers.Xml.{
  Element, Elements, nil, cons, tag, attributes, children, text_of, count_tag, with_tag,
}

abbrev pub namespace : String
namespace = "http://schemas.microsoft.com/win/2004/08/events/event"

-- `f"{{{WINDOWS_EVENT_NAMESPACE}}}{local_name}"`
abbrev pub qualified : String → String
qualified local_name = "{" <> namespace <> "}" <> local_name

abbrev pub event_tag : String
event_tag = qualified "Event"

abbrev pub system_tag : String
system_tag = qualified "System"

abbrev pub event_data_tag : String
event_data_tag = qualified "EventData"

abbrev pub data_tag : String
data_tag = qualified "Data"

abbrev pub invalid {ℓ} : {A : Type ℓ} → String → Result Raised A
invalid message = err (controlled (invalid_raw_event message))

-- The one element of a list.
abbrev pub single : String → List Element → Result Raised Element
single field_name (e ∷ []) = ok e
single field_name _ = invalid ("expected exactly one " <> field_name)

unfoldable pub required_single_child : Elements → String → String → Result Raised Element
unfolding with_tag
required_single_child parent tag field_name = single field_name (with_tag tag parent)

-- `value`, unless it is empty.
abbrev pub or_blank : String → String → Result Raised String
or_blank field_name value =
    if value == "" then invalid (field_name <> " must not be blank") else ok value

unfoldable pub required_text : Elements → String → String → Result Raised String
required_text parent local_name field_name = do
  e ← required_single_child parent (qualified local_name) field_name
  or_blank field_name (strip (text_of e))

unfoldable pub parse_integer : String → String → Result Raised ℤ
parse_integer value field_name =
    or_raise (invalid_raw_event (field_name <> " must be an integer")) (read_int 10 value)

abbrev pub builtin {ℓ} : {A : Type ℓ} → Result Exception A → Result Raised A
builtin (ok a) = ok a
builtin (err e) = err (uncontrolled e)

-- `f"{value[:-1]}+00:00" if value.endswith("Z") else value`
unfoldable pub iso_value : String → String
unfolding endswith
iso_value value = if endswith value "Z" then initial value <> "+00:00" else value

module _ (fromisoformat : String → Option Datetime) where
  unfoldable pub parse_timestamp : String → Result Raised Datetime
  parse_timestamp value = do
    timestamp ←
        or_raise (invalid_raw_event "SystemTime must be a valid datetime")
          (fromisoformat (iso_value value))
    aware ← builtin (has_offset timestamp)
    guard aware (controlled (invalid_raw_event "SystemTime must include a timezone"))
    builtin (astimezone_utc timestamp)

-- An optional number: nothing, or the text of the one element.
unfoldable pub record_id_of : List Element → Result Raised (Option ℤ)
record_id_of [] = ok none
record_id_of (e ∷ []) = do
  value ← or_blank "EventRecordID" (strip (text_of e))
  number ← parse_integer value "EventRecordID"
  ok (some number)
record_id_of _ = invalid "expected at most one EventRecordID"

unfoldable pub parse_record_id : Elements → Result Raised (Option ℤ)
unfolding record_id_of
parse_record_id system = record_id_of (with_tag (qualified "EventRecordID") system)

-- A name that is there and not blank.
abbrev pub named : String → Option String → Result Raised String
named message none = invalid message
named message (some name) = if is_blank name then invalid message else ok name

abbrev pub has_children : Elements → Bool
has_children nil = false
has_children (cons e es) = true

-- The names of a dictionary.
abbrev pub names : List (String × String) → List String
names [] = []
names ((name, value) ∷ d) = name ∷ names d

-- The loop over the elements, with the dictionary so far.
unfoldable pub collect_data :
    List (String × String) → Elements → Result Raised (List (String × String))
collect_data event_data nil = ok event_data
collect_data event_data (cons e es) = do
  guard (tag e == data_tag)
      (controlled (invalid_raw_event "EventData may contain only Data elements"))
  guard (not (has_children (children e)))
      (controlled (invalid_raw_event "Data elements must not contain nested XML"))
  name ← named "Data Name must not be missing or blank" (lookup "Name" (attributes e))
  guard (not (member name (names event_data)))
      (controlled (invalid_raw_event ("duplicate EventData name: " <> name)))
  collect_data (event_data ++ (name, text_of e) ∷ []) es

unfoldable pub event_data_of : List Element → Result Raised (List (String × String))
unfolding collect_data
event_data_of [] = ok []
event_data_of (e ∷ []) = collect_data [] (children e)
event_data_of _ = invalid "expected at most one EventData"

unfoldable pub parse_event_data : Elements → Result Raised (List (String × String))
parse_event_data root = event_data_of (with_tag event_data_tag root)

module _ (fromisoformat : String → Option Datetime) where
  -- What follows the parser of XML.
  unfoldable pub parse_root : Element → Result Raised RawWindowsEvent
  parse_root root = do
    guard (tag root == event_tag && eqb (count_tag event_tag root) 1)
        (controlled (invalid_raw_event "root must be exactly one namespaced Windows Event"))
    system ← required_single_child (children root) system_tag "System"
    provider_element ← required_single_child (children system) (qualified "Provider") "Provider"
    provider ←
        named "Provider Name must not be missing or blank"
          (lookup "Name" (attributes provider_element))
    event_id_text ← required_text (children system) "EventID" "EventID"
    event_id ← parse_integer event_id_text "EventID"
    time_created ← required_single_child (children system) (qualified "TimeCreated") "TimeCreated"
    system_time ←
        named "TimeCreated SystemTime must not be missing or blank"
          (lookup "SystemTime" (attributes time_created))
    channel ← required_text (children system) "Channel" "Channel"
    timestamp ← parse_timestamp fromisoformat (strip system_time)
    computer ← required_text (children system) "Computer" "Computer"
    record_id ← parse_record_id (children system)
    event_data ← parse_event_data (children root)
    or_raise (invalid_raw_event "invalid raw Windows Event metadata")
        (construct_raw (strip provider) event_id channel timestamp computer record_id event_data)

module _ (fromstring : String → Option Element) (fromisoformat : String → Option Datetime) where
  -- `fromstring` is `ElementTree.fromstring`: `none` is a ParseError.
  unfoldable pub parse_windows_event_xml : String → Result Raised RawWindowsEvent
  parse_windows_event_xml xml = do
    root ← or_raise malformed_event_xml (fromstring xml)
    parse_root fromisoformat root
