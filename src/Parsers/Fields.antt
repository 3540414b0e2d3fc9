-- ===== src/Parsers/Fields.antt =====
-- The readers of event data that backend/app/parsers/windows_security.py and sysmon.py share: each
-- of them has its own copy of `_optional_text` and `_required_text`, and a reader of integers with
-- its own message.
use soc_investigation_lab.Common.{
  ℕ, String, not, ◌||◌, Option, none, some, List, Result, ok, err, ◌>>=◌, ◌==◌, string_eq, lookup,
  keep, member, if◌then◌else◌,
}
use soc_investigation_lab.Python.Int.{ℤ, pos, negsuc}
use soc_investigation_lab.Python.Text.{◌<>◌, strip}
use soc_investigation_lab.Python.Reading.{read_int}
use soc_investigation_lab.Python.Address.{Address}
use soc_investigation_lab.Models.Event.{NormalizedEvent, validate_event}
use soc_investigation_lab.Parsers.Errors.{invalid_normalized_event, Raised, controlled, or_raise}

-- Event data, in the order of the document.
abbrev pub EventData : Type 0
EventData = List (String × String)

-- `None if stripped in {"", "-"} else stripped`
abbrev pub unless_blank : String → Option String
unless_blank stripped = if stripped == "" || stripped == "-" then none else some stripped

unfoldable pub optional_text : Option String → Option String
unfolding strip
optional_text none = none
optional_text (some value) = unless_blank (strip value)

-- `_optional_text(data.get(field))`
abbrev pub text_field : EventData → String → Option String
text_field fields field = optional_text (lookup field fields)

abbrev pub invalid {ℓ} : {A : Type ℓ} → String → Result Raised A
invalid message = err (controlled (invalid_normalized_event message))

unfoldable pub required_text : EventData → String → Result Raised String
required_text fields field =
    or_raise (invalid_normalized_event (field <> " is required")) (text_field fields field)

abbrev pub non_negative_only : String → ℤ → Result Raised ℕ
non_negative_only field (pos n) = ok n
non_negative_only field (negsuc n) = invalid (field <> " must be non-negative")

-- The integer of a text, with the message for a text that is none.
unfoldable pub non_negative_integer : String → ℕ → String → String → Result Raised ℕ
non_negative_integer message base value field = do
  result ← or_raise (invalid_normalized_event (field <> message)) (read_int base value)
  non_negative_only field result

-- A reader of a text, on a text that may be missing.
abbrev pub optionally {ℓ} :
    {A : Type ℓ} → (String → Result Raised A) → Option String → Result Raised (Option A)
optionally read none = ok none
optionally read (some value) = do a ← read value; ok (some a)

-- The entries that no field of the context consumes.
unfoldable pub unconsumed : List String → EventData → EventData
unconsumed consumed fields = keep (λ entry. not (member entry.0 consumed)) fields

-- `NormalizedEvent(...)` with the error that its ValidationError is turned into.
unfoldable pub construct_event : String → NormalizedEvent → Result Raised NormalizedEvent
construct_event message event = if validate_event event then ok event else invalid message

-- An address that pydantic reads from a text: `none` is a ValidationError.
abbrev pub address_field : String → (String → Option Address) → String → Result Raised Address
address_field message ip_address value =
    or_raise (invalid_normalized_event message) (ip_address value)
