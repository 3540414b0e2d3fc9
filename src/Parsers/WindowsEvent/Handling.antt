-- ===== src/Parsers/WindowsEvent/Handling.antt =====
-- Every element tree is handled: a raw event in UTC, a controlled error, or the overflow.
use soc_investigation_lab.Common.{
  ℕ, ◌+◌, ◌-◌, String, ◌≡◌, refl, Bool, true, false, ◌&&◌, Option, none, some, List, ok, err, ◌>>=◌,
  ◌>>◌, guard, eqb, leb, ltb, ◌==◌, string_eq, lookup, if◌then◌else◌,
}
use soc_investigation_lab.Python.Int.{ℤ}
use soc_investigation_lab.Python.Text.{strip}
use soc_investigation_lab.Python.Exceptions.{overflow_error}
use soc_investigation_lab.Python.Datetime.{
  Datetime, Zone, utc, ahead, behind, no_offset, broken, has_offset, astimezone_utc, is_utc,
  end_of_time,
}
use soc_investigation_lab.Models.Raw.{RawWindowsEvent, construct_raw, validate_raw}
use soc_investigation_lab.Models.Raw.Laws.{construct_raw-Holds}
use soc_investigation_lab.Parsers.Errors.{
  invalid_raw_event, malformed_event_xml, controlled, or_raise,
}
use soc_investigation_lab.Parsers.Outcomes.{
  Any, Handles, Handles-bind, Handles-or_raise, Handles-ok, Handles-err, Handles-guard,
}
use soc_investigation_lab.Parsers.Xml.{Element, tag, attributes, children, count_tag}
use soc_investigation_lab.Parsers.WindowsEvent.{
  builtin, qualified, event_tag, system_tag, iso_value, parse_timestamp, parse_root,
  parse_windows_event_xml,
}
use soc_investigation_lab.Parsers.WindowsEvent.Pieces.{
  required_single_child-Handles, required_text-Handles, parse_integer-Handles, named-Handles,
  parse_record_id-Handles, parse_event_data-Handles,
}

-- A datetime that `fromisoformat` makes: without a zone, or with a fixed offset.
abbrev pub HasFixedOffset : Datetime → Type 0
HasFixedOffset d = elim d.tzinfo [
  | none ↦ Unit
  | some utc ↦ Unit
  | some (ahead n) ↦ Unit
  | some (behind n) ↦ Unit
  | some no_offset ↦ ⊥
  | some (broken e) ↦ ⊥
]

-- The value is in UTC.
abbrev IsUtc : Datetime → Type 0
IsUtc d = is_utc d ≡ true

in_range-Handles :
    (b : Bool) (d : Datetime)
    → IsUtc d
    → Handles IsUtc (builtin (if b then ok d else err overflow_error))
in_range-Handles true d h = Handles-ok h
in_range-Handles false d h = record { outcome = tt }

after_aware-Handles :
    (w : ℕ) (z : Option Zone)
    → HasFixedOffset (record { wall = w; tzinfo = z })
    → Handles IsUtc (do
      aware ← builtin (has_offset (record { wall = w; tzinfo = z }))
      guard aware (controlled (invalid_raw_event "SystemTime must include a timezone"))
      builtin (astimezone_utc (record { wall = w; tzinfo = z })))
unfolding has_offset astimezone_utc
after_aware-Handles w none h = Handles-err
after_aware-Handles w (some utc) h = Handles-ok refl
after_aware-Handles w (some (ahead n)) h =
    in_range-Handles (leb n w) (record { wall = w - n; tzinfo = some utc }) refl
after_aware-Handles w (some (behind n)) h =
    in_range-Handles (ltb (w + n) end_of_time) (record { wall = w + n; tzinfo = some utc }) refl
after_aware-Handles w (some no_offset) h = absurd h
after_aware-Handles w (some (broken e)) h = absurd h

parse_timestamp-Handles :
    (fromisoformat : String → Option Datetime)
    → ((text : String) (d : Datetime) → fromisoformat text ≡ some d → HasFixedOffset d)
    → (value : String) → Handles IsUtc (parse_timestamp fromisoformat value)
unfolding parse_timestamp
parse_timestamp-Handles fromisoformat fixed value =
    Handles-bind HasFixedOffset
      (Handles-or_raise (invalid_raw_event "SystemTime must be a valid datetime")
        (fromisoformat (iso_value value)) (fixed (iso_value value)))
      λ d h. after_aware-Handles d.wall d.tzinfo h

-- A raw event that its model accepts, in UTC.
pub record IsIngested (r : RawWindowsEvent) : Type 0 where
  pub valid : validate_raw r ≡ true
  pub in_utc : is_utc r.timestamp ≡ true

module _ (fromisoformat : String → Option Datetime)
    (fixed : (text : String) (d : Datetime) → fromisoformat text ≡ some d → HasFixedOffset d) where
  construct_raw-Handles :
      (provider : String) (event_id : ℤ) (channel : String) (timestamp : Datetime)
      (computer : String) (record_id : Option ℤ) (event_data : List (String × String))
      → IsUtc timestamp
      → Handles IsIngested (
          or_raise
            (invalid_raw_event "invalid raw Windows Event metadata")
            (construct_raw provider event_id channel timestamp computer record_id event_data))
  construct_raw-Handles provider event_id channel timestamp computer record_id event_data in_utc =
      Handles-or_raise (invalid_raw_event "invalid raw Windows Event metadata")
        (construct_raw provider event_id channel timestamp computer record_id event_data)
        λ r h.
          let held =
            construct_raw-Holds provider event_id channel timestamp computer record_id event_data
              h in
          record { valid = held.valid; in_utc = rw (held.timestamp_kept) in_utc }

  parse_root-Handles : (root : Element) → Handles IsIngested (parse_root fromisoformat root)
  unfolding parse_root
  parse_root-Handles root =
      Handles-bind Any
        (Handles-guard (tag root == event_tag && eqb (count_tag event_tag root) 1)
          (invalid_raw_event "root must be exactly one namespaced Windows Event"))
        λ u h.
          Handles-bind Any (required_single_child-Handles (children root) system_tag "System")
            λ system h.
              Handles-bind Any
                (required_single_child-Handles (children system) (qualified "Provider") "Provider")
                λ provider_element h.
                  Handles-bind Any
                    (named-Handles "Provider Name must not be missing or blank"
                      (lookup "Name" (attributes provider_element)))
                    λ provider h.
                      Handles-bind Any (required_text-Handles (children system) "EventID" "EventID")
                        λ event_id_text h.
                          Handles-bind Any (parse_integer-Handles event_id_text "EventID")
                            λ event_id h.
                              Handles-bind Any
                                (required_single_child-Handles (children system)
                                  (qualified "TimeCreated") "TimeCreated")
                                λ time_created h.
                                  Handles-bind Any
                                    (named-Handles
                                      "TimeCreated SystemTime must not be missing or blank"
                                      (lookup "SystemTime" (attributes time_created)))
                                    λ system_time h.
                                      Handles-bind Any
                                        (required_text-Handles (children system) "Channel"
                                          "Channel")
                                        λ channel h.
                                          Handles-bind IsUtc
                                            (parse_timestamp-Handles fromisoformat fixed
                                              (strip system_time))
                                            λ timestamp in_utc.
                                              Handles-bind Any
                                                (required_text-Handles (children system) "Computer"
                                                  "Computer")
                                                λ computer h.
                                                  Handles-bind Any
                                                    (parse_record_id-Handles (children system))
                                                    λ record_id h.
                                                      Handles-bind Any
                                                        (parse_event_data-Handles (children root))
                                                        λ event_data h.
                                                          construct_raw-Handles (strip provider)
                                                            event_id channel timestamp computer
                                                            record_id event_data in_utc

  -- For an XML parser and a parser of datetimes whose datetimes have fixed offsets, every text is
  -- parsed to a raw event that its model accepts and whose timestamp is in UTC, or fails with a
  -- controlled error, or with the OverflowError of a timestamp that UTC cannot show.
  pub parse_windows_event_xml-Handles :
      (fromstring : String → Option Element) (xml : String)
      → Handles IsIngested (parse_windows_event_xml fromstring fromisoformat xml)
  unfolding parse_windows_event_xml
  parse_windows_event_xml-Handles fromstring xml =
      Handles-bind Any (Handles-or_raise malformed_event_xml (fromstring xml) λ a h. tt)
        λ root h. parse_root-Handles root
