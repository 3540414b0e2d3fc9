-- ===== src/Models/Raw.antt =====
-- backend/app/models/raw_event.py: the source-shaped event, and its construction.
pub mod Laws
use soc_investigation_lab.Common.{
  ℕ, String, Bool, true, false, ◌&&◌, Option, none, some, List, ltb, if◌then◌else◌,
}
use soc_investigation_lab.Python.Int.{ℤ, pos, negsuc}
use soc_investigation_lab.Python.Datetime.{Datetime}
use soc_investigation_lab.Models.Event.{non_empty, is_aware}

-- `event_data` is a dictionary in insertion order.
pub record RawWindowsEvent : Type 0 where
  pub provider : String
  pub event_id : ℕ
  pub channel : String
  pub timestamp : Datetime
  pub computer : String
  pub record_id : Option ℕ
  pub event_data : List (String × String)

-- The constraints on the fields.
unfoldable pub validate_raw : RawWindowsEvent → Bool
validate_raw r =
    non_empty r.provider
    && ltb 0 r.event_id
    && non_empty r.channel
    && is_aware r.timestamp
    && non_empty r.computer

-- `NonNegativeInteger`, for a number and for an optional one.
abbrev pub non_negative : ℤ → Option ℕ
non_negative (pos n) = some n
non_negative (negsuc n) = none

abbrev pub optional_non_negative : Option ℤ → Option (Option ℕ)
optional_non_negative none = some none
optional_non_negative (some (pos n)) = some (some n)
optional_non_negative (some (negsuc n)) = none

abbrev pub checked_raw : RawWindowsEvent → Option RawWindowsEvent
checked_raw r = if validate_raw r then some r else none

-- `RawWindowsEvent(...)`: `none` is a ValidationError.
unfoldable pub construct_raw :
    String
    → ℤ
    → String
    → Datetime
    → String
    → Option ℤ
    → List (String × String)
    → Option RawWindowsEvent
construct_raw provider event_id channel timestamp computer record_id event_data =
    elim (non_negative event_id) [
      | none ↦ none
      | some id ↦ elim (optional_non_negative record_id) [
        | none ↦ none
        | some number ↦ checked_raw (record {
          provider = provider;
          event_id = id;
          channel = channel;
          timestamp = timestamp;
          computer = computer;
          record_id = number;
          event_data = event_data;
        })
      ]
    ]
