-- ===== src/Models/Event.antt =====
-- backend/app/models/normalized_event.py: enumerations, typed contexts and the normalized event.
-- The fields of a pydantic model have their declared types here; the constraints on their values
-- and the model's own validator are `validate_event`.
use soc_investigation_lab.Common.{
  ℕ, String, ◌≡◌, ◌↔◌, Bool, true, false, ◌&&◌, not, Option, none, some, List, eqb, leb, ltb, arith,
  ◌==◌, Eq, string_eq,
}
use soc_investigation_lab.Python.Datetime.{Datetime, utc, ahead, behind, no_offset, broken}
use soc_investigation_lab.Python.Address.{Address}

pub data EventSource : Type 0 where
  windows_security sysmon : EventSource

pub data EventCategory : Type 0 where
  authentication process network file dns : EventCategory

pub data AuthenticationOutcome : Type 0 where
  success failure : AuthenticationOutcome

-- The member's `value`.
abbrev pub source_value : EventSource → String
source_value windows_security = "windows_security"
source_value sysmon = "sysmon"

abbrev pub category_value : EventCategory → String
category_value authentication = "authentication"
category_value process = "process"
category_value network = "network"
category_value file = "file"
category_value dns = "dns"

abbrev pub outcome_value : AuthenticationOutcome → String
outcome_value success = "success"
outcome_value failure = "failure"

abbrev pub source_index : EventSource → ℕ
source_index windows_security = 0
source_index sysmon = 1

abbrev pub category_index : EventCategory → ℕ
category_index authentication = 0
category_index process = 1
category_index network = 2
category_index file = 3
category_index dns = 4

pub source_eq_iff : (a b : EventSource) → (eqb (source_index a) (source_index b) ≡ true) ↔ (a ≡ b)
source_eq_iff a b = ground arith

pub category_eq_iff :
    (a b : EventCategory) → (eqb (category_index a) (category_index b) ≡ true) ↔ (a ≡ b)
category_eq_iff a b = ground arith

instance abbrev pub source_eq : Eq EventSource
source_eq = record { beq = λ a b. eqb (source_index a) (source_index b); beq_iff = source_eq_iff }

instance abbrev pub category_eq : Eq EventCategory
category_eq = record {
  beq = λ a b. eqb (category_index a) (category_index b);
  beq_iff = category_eq_iff;
}

pub record AuthenticationContext : Type 0 where
  pub outcome : AuthenticationOutcome
  pub user : Option String
  pub domain : Option String
  pub logon_type : Option ℕ
  pub source_ip : Option Address
  pub source_port : Option ℕ
  pub workstation : Option String

pub record ProcessContext : Type 0 where
  pub image : String
  pub process_id : Option ℕ
  pub command_line : Option String
  pub parent_process_id : Option ℕ
  pub parent_image : Option String
  pub user : Option String

pub record NetworkContext : Type 0 where
  pub source_ip : Address
  pub source_port : ℕ
  pub destination_ip : Address
  pub destination_port : ℕ
  pub protocol : Option String
  pub process_id : Option ℕ
  pub process_image : Option String

pub record FileContext : Type 0 where
  pub target_path : String
  pub process_id : Option ℕ
  pub process_image : Option String

pub record DnsContext : Type 0 where
  pub query_name : String
  pub query_status : Option String
  pub query_results : Option String
  pub process_id : Option ℕ
  pub process_image : Option String

pub data EventContext : Type 0 where
  of_authentication : AuthenticationContext → EventContext
  of_process : ProcessContext → EventContext
  of_network : NetworkContext → EventContext
  of_file : FileContext → EventContext
  of_dns : DnsContext → EventContext

pub record NormalizedEvent : Type 0 where
  pub source : EventSource
  pub provider : String
  pub event_id : ℕ
  pub channel : String
  pub timestamp : Datetime
  pub computer : String
  pub record_id : Option ℕ
  pub category : EventCategory
  pub context : EventContext
  pub source_data : List (String × String)

-- The category whose context class the value is an instance of.
abbrev pub context_category : EventContext → EventCategory
context_category (of_authentication c) = authentication
context_category (of_process c) = process
context_category (of_network c) = network
context_category (of_file c) = file
context_category (of_dns c) = dns

-- `isinstance(self.context, _CONTEXT_TYPE_BY_CATEGORY[self.category])`
unfoldable pub validate_context_matches_category : NormalizedEvent → Bool
validate_context_matches_category e = context_category e.context == e.category

-- `Field(min_length=1)` on text
abbrev pub non_empty : String → Bool
non_empty s = not (s == "")

-- `AwareDatetime`: a value with an offset from UTC
abbrev pub is_aware : Datetime → Bool
is_aware d = elim d.tzinfo [
  | none ↦ false
  | some utc ↦ true
  | some (ahead n) ↦ true
  | some (behind n) ↦ true
  | some no_offset ↦ false
  | some (broken e) ↦ false
]

-- `Field(ge=0, le=65_535)`
abbrev pub is_port : ℕ → Bool
is_port n = leb n 65535

abbrev pub is_optional_port : Option ℕ → Bool
is_optional_port none = true
is_optional_port (some n) = is_port n

-- The constraints on the fields of each context.
unfoldable pub valid_context : EventContext → Bool
valid_context (of_authentication c) = is_optional_port c.source_port
valid_context (of_process c) = non_empty c.image
valid_context (of_network c) = is_port c.source_port && is_port c.destination_port
valid_context (of_file c) = non_empty c.target_path
valid_context (of_dns c) = non_empty c.query_name

-- The constraints on the event's own fields.
unfoldable pub valid_event_fields : NormalizedEvent → Bool
valid_event_fields e =
    non_empty e.provider
    && ltb 0 e.event_id
    && non_empty e.channel
    && is_aware e.timestamp
    && non_empty e.computer

-- Whether `NormalizedEvent(...)` accepts the fields.
unfoldable pub validate_event : NormalizedEvent → Bool
unfolding valid_context valid_event_fields validate_context_matches_category
validate_event e =
    valid_event_fields e && valid_context e.context && validate_context_matches_category e
