-- ===== src/Parsers/WindowsEvent/System.antt =====
-- The elements of a document of a raw event, and what each is read to.
use soc_investigation_lab.Common.{
  ℕ, String, ◌≡◌, refl, sym, ◌∙◌, Bool, true, false, Option, none, some, List, [], ◌∷◌, ok, ◌==◌,
  string_eq, is_unique, leb, arith, Bool-cases, inl, inr,
}
use soc_investigation_lab.Python.Int.{ℤ, pos}
use soc_investigation_lab.Python.Text.{decimal, strip, text_length}
use soc_investigation_lab.Python.Text.Decimal.{decimal-eq-cons}
use soc_investigation_lab.Python.Text.Stripping.{strip-decimal}
use soc_investigation_lab.Python.Reading.{max_digits}
use soc_investigation_lab.Python.Reading.Laws.{read_int-decimal}
use soc_investigation_lab.Models.Raw.{RawWindowsEvent}
use soc_investigation_lab.Parsers.Xml.{Elements, children, count_tag, count_tag_in, with_tag}
use soc_investigation_lab.Parsers.WindowsEvent.{
  qualified, event_tag, names, parse_integer, record_id_of, parse_record_id, parse_event_data,
  event_data_of, required_single_child, required_text, named,
}
use soc_investigation_lab.Parsers.WindowsEvent.Rendering.{
  attribute_element, record_id_elements, data_elements, system_elements, document_of, text_element,
}
use soc_investigation_lab.Parsers.WindowsEvent.Data.{
  are_named, AreFresh-nil, collect_data-data_elements,
}

-- A number that `int` does not find too long.
abbrev pub is_short : ℕ → Bool
is_short n = leb (text_length (decimal n)) max_digits

abbrev pub is_optional_short : Option ℕ → Bool
is_optional_short none = true
is_optional_short (some n) = is_short n

-- The number, as an integer.
abbrev pub as_integer : Option ℕ → Option ℤ
as_integer none = none
as_integer (some n) = some (pos n)

pub decimal_is_text : (n : ℕ) → (decimal n == "") ≡ false
decimal_is_text n = elim (Bool-cases (decimal n == "")) [
  | inr filled ↦ filled
  | inl none_left ↦
      let (c, r, e) = decimal-eq-cons n in
      let blank = (string_eq.beq_iff (decimal n) "").0 none_left in
      let lost : String.◌∷◌ c r ≡ String.[] = sym e ∙ blank in cc
]

count_tag-data :
    (fields : List (String × String)) → count_tag_in event_tag (data_elements fields) ≡ 0
unfolding count_tag
count_tag-data [] = refl
count_tag-data ((name, value) ∷ fields) = omega (arith, count_tag-data fields)

count_tag-record_id : (o : Option ℕ) → count_tag_in event_tag (record_id_elements o) ≡ 0
unfolding count_tag
count_tag-record_id none = refl
count_tag-record_id (some n) = refl

record_id-read :
    (o : Option ℕ)
    → is_optional_short o ≡ true
    → record_id_of (with_tag (qualified "EventRecordID") (record_id_elements o)) ≡ ok (as_integer o)
unfolding with_tag record_id_of parse_integer
record_id-read none h = refl
record_id-read (some n) h = rw (strip-decimal n, decimal_is_text n, read_int-decimal n h) refl

pub event_id-read : (n : ℕ) → is_short n ≡ true → parse_integer (decimal n) "EventID" ≡ ok (pos n)
unfolding parse_integer
event_id-read n h = rw (read_int-decimal n h) refl

-- No record number stands under another tag.
with_tag-record_id :
    (name : String) (o : Option ℕ)
    → (qualified "EventRecordID" == name) ≡ false
    → with_tag name (record_id_elements o) ≡ []
unfolding with_tag
with_tag-record_id name none h = refl
with_tag-record_id name (some n) h = rw h refl

pub single_text :
    (parent : Elements) (name field_name text : String)
    → with_tag (qualified name) parent ≡ text_element name text ∷ []
    → strip text ≡ text
    → (text == "") ≡ false
    → required_text parent name field_name ≡ ok text
unfolding required_text required_single_child
single_text parent name field_name text e stripped there = rw (e, stripped, there) refl

module _ (raw : RawWindowsEvent) (time : String) where
  abbrev pub system : Elements
  system = system_elements raw time

  pub provider-child :
      with_tag (qualified "Provider") system ≡ attribute_element "Provider" "Name" raw.provider ∷ []
  unfolding with_tag
  provider-child = rw (with_tag-record_id (qualified "Provider") raw.record_id refl) refl

  pub time-child :
      with_tag (qualified "TimeCreated") system
      ≡ attribute_element "TimeCreated" "SystemTime" time ∷ []
  unfolding with_tag
  time-child = rw (with_tag-record_id (qualified "TimeCreated") raw.record_id refl) refl

  pub event_id-child :
      with_tag (qualified "EventID") system ≡ text_element "EventID" (decimal raw.event_id) ∷ []
  unfolding with_tag
  event_id-child = rw (with_tag-record_id (qualified "EventID") raw.record_id refl) refl

  pub channel-child :
      with_tag (qualified "Channel") system ≡ text_element "Channel" raw.channel ∷ []
  unfolding with_tag
  channel-child = rw (with_tag-record_id (qualified "Channel") raw.record_id refl) refl

  pub computer-child :
      with_tag (qualified "Computer") system ≡ text_element "Computer" raw.computer ∷ []
  unfolding with_tag
  computer-child = rw (with_tag-record_id (qualified "Computer") raw.record_id refl) refl

  record_id-child :
      with_tag (qualified "EventRecordID") system
      ≡ with_tag (qualified "EventRecordID") (record_id_elements raw.record_id)
  unfolding with_tag
  record_id-child = refl

  pub record_id-parsed :
      is_optional_short raw.record_id ≡ true
      → parse_record_id system ≡ ok (as_integer raw.record_id)
  unfolding parse_record_id with_tag
  record_id-parsed h = record_id-read raw.record_id h

  pub fields-parsed :
      are_named raw.event_data ≡ true
      → is_unique (names raw.event_data) ≡ true
      → parse_event_data (children (document_of raw time)) ≡ ok raw.event_data
  unfolding parse_event_data event_data_of with_tag
  fields-parsed named different =
      collect_data-data_elements [] raw.event_data named different (AreFresh-nil raw.event_data)

  pub single_event : count_tag event_tag (document_of raw time) ≡ 1
  unfolding count_tag
  single_event = rw (count_tag-record_id raw.record_id, count_tag-data raw.event_data) refl
