-- ===== src/Parsers/Normalized.antt =====
-- What a normalizer promises of the events that it returns.
use soc_investigation_lab.Common.{
  ℕ, String, ◌≡◌, refl, true, false, Option, none, some, List, [], ◌∷◌, Result, inl, inr,
  Bool-cases, ◌==◌, string_eq, lookup, member, subst, sym, ap, ◌∙◌, if◌then◌else◌,
}
use soc_investigation_lab.Python.Int.{ℤ, pos, negsuc}
use soc_investigation_lab.Python.Text.{◌<>◌}
use soc_investigation_lab.Python.Reading.{read_int}
use soc_investigation_lab.Python.Address.{Address}
use soc_investigation_lab.Models.Event.{
  EventSource, EventCategory, EventContext, NormalizedEvent, validate_event,
}
use soc_investigation_lab.Models.Raw.{RawWindowsEvent}
use soc_investigation_lab.Parsers.Errors.{invalid_normalized_event, Raised}
use soc_investigation_lab.Parsers.Outcomes.{
  Handles, Handles-map, Handles-bind, Handles-or_raise, Handles-ok, Handles-err,
}
use soc_investigation_lab.Parsers.Slots.{Slots, AreFilled, HasOutcome, IsReading, names}
use soc_investigation_lab.Parsers.Fields.{
  EventData, text_field, required_text, non_negative_only, non_negative_integer, optionally,
  unconsumed, construct_event, address_field,
}

-- An event that its model accepts, with the metadata of the raw event, with the expected source and
-- category, with a context whose slots hold the event data under their names, and with exactly the
-- rest of the event data.
pub record IsNormalized (raw : RawWindowsEvent) (from : EventSource) (expected : EventCategory)
    (slots : EventContext → Slots) (e : NormalizedEvent) : Type 0 where
  pub valid : validate_event e ≡ true
  pub provider_kept : e.provider ≡ raw.provider
  pub event_id_kept : e.event_id ≡ raw.event_id
  pub channel_kept : e.channel ≡ raw.channel
  pub timestamp_kept : e.timestamp ≡ raw.timestamp
  pub computer_kept : e.computer ≡ raw.computer
  pub record_id_kept : e.record_id ≡ raw.record_id
  pub source_expected : e.source ≡ from
  pub category_expected : e.category ≡ expected
  pub outcome_kept : HasOutcome raw.event_id e.context
  pub filled : AreFilled raw.event_data (slots e.context)
  pub data_kept : e.source_data ≡ unconsumed (names (slots e.context)) raw.event_data

pub required_text-Handles :
    (fields : EventData) (field : String)
    → Handles (λ text. text_field fields field ≡ some text) (required_text fields field)
unfolding required_text
required_text-Handles fields field =
    Handles-or_raise (invalid_normalized_event (field <> " is required")) (text_field fields field)
      λ a h. h

non_negative_only-Handles :
    (field : String) (z : ℤ) → Handles (λ n. z ≡ pos n) (non_negative_only field z)
non_negative_only-Handles field (pos n) = Handles-ok refl
non_negative_only-Handles field (negsuc n) = Handles-err

pub non_negative_integer-Handles :
    (message : String) (base : ℕ) (value field : String)
    → Handles
        (λ n. read_int base value ≡ some (pos n))
        (non_negative_integer message base value field)
unfolding non_negative_integer
non_negative_integer-Handles message base value field =
    Handles-bind (λ z. read_int base value ≡ some z)
      (Handles-or_raise (invalid_normalized_event (field <> message)) (read_int base value)
        λ a h. h)
      λ result h.
        subst (λ read. Handles (λ n. read ≡ some (pos n)) (non_negative_only field result)) (sym h)
          (Handles-map (λ n same. ap some same) (non_negative_only-Handles field result))

pub optionally-Handles :
    {A B : Type 0} (read : String → Result Raised A) (reader : String → Option B) (wrap : A → B)
    (o : Option String)
    → ((value : String) → Handles (λ a. reader value ≡ some (wrap a)) (read value))
    → Handles (λ a. IsReading reader wrap a o) (optionally read o)
optionally-Handles read reader wrap none h = Handles-ok tt
optionally-Handles read reader wrap (some value) h =
    Handles-bind (λ a. reader value ≡ some (wrap a)) (h value) λ a k. Handles-ok k

pub address_field-Handles :
    (message : String) (ip_address : String → Option Address) (value : String)
    → Handles (λ a. ip_address value ≡ some a) (address_field message ip_address value)
address_field-Handles message ip_address value =
    Handles-or_raise (invalid_normalized_event message) (ip_address value) λ a h. h

-- A reading of a text that is there.
pub IsReading-some :
    {A B : Type 0} (reader : String → Option B) (wrap : A → B) {o : Option String} {text : String}
    {a : A}
    → o ≡ some text
    → reader text ≡ some (wrap a)
    → IsReading reader wrap (some a) o
IsReading-some reader wrap {a} found read = subst (IsReading reader wrap (some a)) (sym found) read

-- The construction, from an event that has the raw event's fields.
pub construct_event-Handles :
    (P : NormalizedEvent → Type 0) (message : String) (e : NormalizedEvent)
    → (validate_event e ≡ true → P e)
    → Handles P (construct_event message e)
unfolding construct_event
construct_event-Handles P message e h = elim (Bool-cases (validate_event e)) [
  | inl fine ↦ rw fine (Handles-ok (h fine))
  | inr bad ↦ rw bad Handles-err
]

-- An entry of the event data is kept with its value, or is consumed.
pub lookup-unconsumed :
    (consumed : List String) (name : String) (fields : EventData)
    → lookup name (unconsumed consumed fields)
      ≡ (if member name consumed then none else lookup name fields)
unfolding unconsumed lookup
lookup-unconsumed consumed name [] = elim (Bool-cases (member name consumed)) [
  | inl here ↦ rw here refl
  | inr there ↦ rw there refl
]
lookup-unconsumed consumed name ((k, v) ∷ fields) =
    let rest = lookup-unconsumed consumed name fields in
    elim (Bool-cases (name == k)) [
      | inl same ↦
          let names_equal = (string_eq.beq_iff name k).0 same in
          elim (Bool-cases (member name consumed)) [
            | inl here ↦
                let here_too = subst (λ n. member n consumed ≡ true) names_equal here in
                rw (here_too, here) (rest ∙ rw here refl)
            | inr there ↦
                let there_too = subst (λ n. member n consumed ≡ false) names_equal there in
                rw (there_too, there, same) refl
          ]
      | inr other ↦ elim (Bool-cases (member k consumed)) [
        | inl here ↦ rw (here, other) rest
        | inr there ↦ rw (there, other) rest
      ]
    ]
