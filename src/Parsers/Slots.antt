-- ===== src/Parsers/Slots.antt =====
-- Which event data the contexts of backend/app/models/normalized_event.py show, written from the
-- fields of the contexts: independent of the readers and of the lists of names in
-- backend/app/parsers/windows_security.py and sysmon.py.
use soc_investigation_lab.Common.{
  ℕ, String, ◌≡◌, refl, sym, subst, ◌||◌, Option, none, some, List, [], ◌∷◌, All, Bool-cases, inl,
  inr, eqb, ◌==◌, string_eq, lookup, member, if◌then◌else◌,
}
use soc_investigation_lab.Python.Int.{ℤ, pos}
use soc_investigation_lab.Python.Text.{strip, startswith}
use soc_investigation_lab.Python.Reading.{read_int}
use soc_investigation_lab.Python.Address.{Address}
use soc_investigation_lab.Models.Event.{
  EventCategory, authentication, process, network, file, dns, success, failure, EventContext,
  of_authentication, of_process, of_network, of_file, of_dns,
}
use soc_investigation_lab.Parsers.Fields.{EventData, optional_text, text_field}

-- A field of a context: a text, or what a reader makes of a text.
pub data Slot : Type 0 where
  text_slot : Option String → Slot
  number_slot : (String → Option ℤ) → Option ℕ → Slot
  address_slot : (String → Option Address) → Option Address → Slot

abbrev pub Slots : Type 0
Slots = List (String × Slot)

-- The text of a value: a blank one and a dash stand for none.
abbrev pub shown : Option String → Option String
shown none = none
shown (some value) = if member (strip value) ("" ∷ "-" ∷ []) then none else some (strip value)

-- What the reader makes of a text, if there is one.
abbrev pub IsReading :
    {A B : Type 0} → (String → Option B) → (A → B) → Option A → Option String → Type 0
IsReading read wrap none none = Unit
IsReading read wrap none (some text) = ⊥
IsReading read wrap (some a) none = ⊥
IsReading read wrap (some a) (some text) = read text ≡ some (wrap a)

-- The field has the whole information of the text.
abbrev pub Holds : Slot → Option String → Type 0
Holds (text_slot o) text = text ≡ o
Holds (number_slot read o) text = IsReading read pos o text
Holds (address_slot read o) text = IsReading read (λ a. a) o text

-- A process number in Windows Security events: hexadecimal after `0x`.
abbrev pub read_windows : String → Option ℤ
read_windows value =
    read_int (if startswith value "0x" || startswith value "0X" then 16 else 10) value

abbrev pub security_slots : (String → Option Address) → EventContext → Slots
security_slots ip_address (of_authentication c) =
    ("TargetUserName", text_slot c.user)
    ∷ ("TargetDomainName", text_slot c.domain)
    ∷ ("LogonType", number_slot (read_int 10) c.logon_type)
    ∷ ("IpAddress", address_slot ip_address c.source_ip)
    ∷ ("IpPort", number_slot (read_int 10) c.source_port)
    ∷ ("WorkstationName", text_slot c.workstation)
    ∷ []
security_slots ip_address (of_process c) =
    ("NewProcessName", text_slot (some c.image))
    ∷ ("NewProcessId", number_slot read_windows c.process_id)
    ∷ ("CommandLine", text_slot c.command_line)
    ∷ ("ProcessId", number_slot read_windows c.parent_process_id)
    ∷ ("ParentProcessName", text_slot c.parent_image)
    ∷ ("SubjectUserName", text_slot c.user)
    ∷ []
security_slots ip_address context = []

abbrev pub sysmon_slots : (String → Option Address) → EventContext → Slots
sysmon_slots ip_address (of_process c) =
    ("Image", text_slot (some c.image))
    ∷ ("ProcessId", number_slot (read_int 10) c.process_id)
    ∷ ("CommandLine", text_slot c.command_line)
    ∷ ("ParentProcessId", number_slot (read_int 10) c.parent_process_id)
    ∷ ("ParentImage", text_slot c.parent_image)
    ∷ ("User", text_slot c.user)
    ∷ []
sysmon_slots ip_address (of_network c) =
    ("SourceIp", address_slot ip_address (some c.source_ip))
    ∷ ("SourcePort", number_slot (read_int 10) (some c.source_port))
    ∷ ("DestinationIp", address_slot ip_address (some c.destination_ip))
    ∷ ("DestinationPort", number_slot (read_int 10) (some c.destination_port))
    ∷ ("Protocol", text_slot c.protocol)
    ∷ ("ProcessId", number_slot (read_int 10) c.process_id)
    ∷ ("Image", text_slot c.process_image)
    ∷ []
sysmon_slots ip_address (of_file c) =
    ("TargetFilename", text_slot (some c.target_path))
    ∷ ("ProcessId", number_slot (read_int 10) c.process_id)
    ∷ ("Image", text_slot c.process_image)
    ∷ []
sysmon_slots ip_address (of_dns c) =
    ("QueryName", text_slot (some c.query_name))
    ∷ ("QueryStatus", text_slot c.query_status)
    ∷ ("QueryResults", text_slot c.query_results)
    ∷ ("ProcessId", number_slot (read_int 10) c.process_id)
    ∷ ("Image", text_slot c.process_image)
    ∷ []
sysmon_slots ip_address context = []

-- The category of an event, by its number.
abbrev pub security_category : ℕ → EventCategory
security_category id = if eqb id 4688 then process else authentication

abbrev pub sysmon_category : ℕ → EventCategory
sysmon_category id =
    if eqb id 1 then process else if eqb id 3 then network else if eqb id 11 then file else dns

-- A logon succeeded exactly if its number is 4624.
abbrev pub HasOutcome : ℕ → EventContext → Type 0
HasOutcome id (of_authentication c) = c.outcome ≡ (if eqb id 4624 then success else failure)
HasOutcome id context = Unit

abbrev pub names : Slots → List String
names [] = []
names ((name, slot) ∷ slots) = name ∷ names slots

-- Every slot holds what the event data has under its name.
abbrev pub AreFilled : EventData → Slots → Type 0
AreFilled fields slots = All (λ entry. Holds entry.1 (text_field fields entry.0)) slots

-- A slot of the context holds the text under its name, which is not in the other data; what has no
-- slot is in the other data, with its value.
abbrev pub IsKept : EventData → EventData → String → Option Slot → Type 0
IsKept raw rest name none = lookup name rest ≡ lookup name raw
IsKept raw rest name (some slot) = (lookup name rest ≡ none) × Holds slot (shown (lookup name raw))

pub optional_text-shown : (value : Option String) → optional_text value ≡ shown value
unfolding optional_text
optional_text-shown none = refl
optional_text-shown (some value) = elim (Bool-cases (strip value == "")) [
  | inl blank ↦ rw blank refl
  | inr other ↦ elim (Bool-cases (strip value == "-")) [
    | inl dash ↦ rw (other, dash) refl
    | inr text ↦ rw (other, text) refl
  ]
]

module _ (raw rest : EventData) (name : String) where
  -- From the data without the names of the slots.
  pub filled-IsKept :
      (slots : Slots)
      → AreFilled raw slots
      → lookup name rest ≡ (if member name (names slots) then none else lookup name raw)
      → IsKept raw rest name (lookup name slots)
  unfolding lookup
  filled-IsKept [] h k = k
  filled-IsKept ((other, slot) ∷ slots) (h, hs) k = elim (Bool-cases (name == other)) [
    | inl same ↦
        let equal = (string_eq.beq_iff name other).0 same in
        let gone : lookup name rest ≡ none = rw same at k in
        let read = optional_text-shown (lookup name raw) in
        let held : Holds slot (shown (lookup name raw)) =
          subst (Holds slot) read (subst (λ n. Holds slot (text_field raw n)) (sym equal) h) in
        rw same (gone, held)
    | inr differs ↦ let later = rw differs at k in rw differs (filled-IsKept slots hs later)
  ]
