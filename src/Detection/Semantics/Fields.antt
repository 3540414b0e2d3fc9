-- ===== src/Detection/Semantics/Fields.antt =====
-- The tables of field types of backend/app/detection/semantics.py, and `field_type`.
use Prim.Native.Char.{code}
use soc_investigation_lab.Common.{
  ℕ, String, ◌≡◌, ◌↔◌, Bool, true, false, ◌&&◌, not, Option, none, some, List, [], ◌∷◌, Result, ok,
  err, eqb, ltb, arith, ◌==◌, Eq, string_eq, lookup, if◌then◌else◌,
}
use soc_investigation_lab.Python.Text.{split, all_chars, is_letter, is_word}
use soc_investigation_lab.Models.Event.{EventCategory, authentication, process, network, file, dns}
use soc_investigation_lab.Detection.Errors.{EvaluationError, invalid_field}

pub data FieldType : Type 0 where
  string_field integer_field timestamp_field ip_field : FieldType

abbrev pub field_type_index : FieldType → ℕ
field_type_index string_field = 0
field_type_index integer_field = 1
field_type_index timestamp_field = 2
field_type_index ip_field = 3

pub field_type_eq_iff :
    (a b : FieldType) → (eqb (field_type_index a) (field_type_index b) ≡ true) ↔ (a ≡ b)
field_type_eq_iff a b = ground arith

instance abbrev pub field_type_eq : Eq FieldType
field_type_eq = record {
  beq = λ a b. eqb (field_type_index a) (field_type_index b);
  beq_iff = field_type_eq_iff;
}

abbrev pub common_field_types : List (String × FieldType)
common_field_types =
    ("source", string_field)
    ∷ ("provider", string_field)
    ∷ ("event_id", integer_field)
    ∷ ("channel", string_field)
    ∷ ("timestamp", timestamp_field)
    ∷ ("computer", string_field)
    ∷ ("record_id", integer_field)
    ∷ ("category", string_field)
    ∷ []

abbrev pub context_fields : EventCategory → List (String × FieldType)
context_fields authentication =
    ("outcome", string_field)
    ∷ ("user", string_field)
    ∷ ("domain", string_field)
    ∷ ("logon_type", integer_field)
    ∷ ("source_ip", ip_field)
    ∷ ("source_port", integer_field)
    ∷ ("workstation", string_field)
    ∷ []
context_fields process =
    ("image", string_field)
    ∷ ("process_id", integer_field)
    ∷ ("command_line", string_field)
    ∷ ("parent_process_id", integer_field)
    ∷ ("parent_image", string_field)
    ∷ ("user", string_field)
    ∷ []
context_fields network =
    ("source_ip", ip_field)
    ∷ ("source_port", integer_field)
    ∷ ("destination_ip", ip_field)
    ∷ ("destination_port", integer_field)
    ∷ ("protocol", string_field)
    ∷ ("process_id", integer_field)
    ∷ ("process_image", string_field)
    ∷ []
context_fields file =
    ("target_path", string_field)
    ∷ ("process_id", integer_field)
    ∷ ("process_image", string_field)
    ∷ []
context_fields dns =
    ("query_name", string_field)
    ∷ ("query_status", string_field)
    ∷ ("query_results", string_field)
    ∷ ("process_id", integer_field)
    ∷ ("process_image", string_field)
    ∷ []

-- `name.isascii()`, by character
abbrev is_ascii : ℕ → Bool
is_ascii c = ltb c 128

-- `name and name[0].isalpha()`, of a text in ASCII
abbrev starts_with_letter : String → Bool
starts_with_letter String.[] = false
starts_with_letter (String.◌∷◌ c s) = is_letter (code c)

-- The names of retained source fields: in ASCII, so that `isalpha` and `isalnum` are about its
-- letters and digits.
unfoldable pub is_source_data_name : String → Bool
unfolding all_chars
is_source_data_name name =
    not (name == "") && all_chars is_ascii name && starts_with_letter name && all_chars is_word name

-- The field of a context, by its prefix and its name.
abbrev pub context_field : EventCategory → String → String → Option FieldType
context_field category prefix name =
    if prefix == "context" then lookup name (context_fields category) else none

-- The type of a path of two parts, or `none` where the source goes on to raise.
unfoldable pub part_type : EventCategory → List String → Option FieldType
unfolding is_source_data_name lookup
part_type category (prefix ∷ name ∷ []) = elim (context_field category prefix name) [
  | some kind ↦ some kind
  | none ↦ if prefix == "source_data" && is_source_data_name name then some string_field else none
]
part_type category _ = none

abbrev pub or_part : Option FieldType → Option FieldType → Option FieldType
or_part (some kind) other = some kind
or_part none other = other

abbrev pub or_invalid : String → Option FieldType → Result EvaluationError FieldType
or_invalid field (some kind) = ok kind
or_invalid field none = err (invalid_field field)

unfoldable pub field_type : String → EventCategory → Result EvaluationError FieldType
unfolding lookup split part_type
field_type field category =
    or_invalid field
      (or_part (lookup field common_field_types) (part_type category (split b'.' field)))
