-- ===== src/Parsers/WindowsEvent/Rendering.antt =====
-- The document of a raw event, as a host writes it.
use soc_investigation_lab.Common.{ℕ, String, Option, none, some, List, [], ◌∷◌}
use soc_investigation_lab.Python.Text.{decimal}
use soc_investigation_lab.Models.Raw.{RawWindowsEvent}
use soc_investigation_lab.Parsers.Xml.{Element, element, Elements, nil, cons}
use soc_investigation_lab.Parsers.WindowsEvent.{
  qualified, event_tag, system_tag, event_data_tag, data_tag,
}

-- An element with a text, or with one attribute.
abbrev pub text_element : String → String → Element
text_element name text = element (qualified name) [] (some text) nil

abbrev pub attribute_element : String → String → String → Element
attribute_element name attribute value = element (qualified name) ((attribute, value) ∷ []) none nil

abbrev pub record_id_elements : Option ℕ → Elements
record_id_elements none = nil
record_id_elements (some n) = cons (text_element "EventRecordID" (decimal n)) nil

abbrev pub data_element : String → String → Element
data_element name value = element data_tag (("Name", name) ∷ []) (some value) nil

abbrev pub data_elements : List (String × String) → Elements
data_elements [] = nil
data_elements ((name, value) ∷ fields) = cons (data_element name value) (data_elements fields)

abbrev pub system_elements : RawWindowsEvent → String → Elements
system_elements raw time = cons (attribute_element "Provider" "Name" raw.provider) (
    cons (text_element "EventID" (decimal raw.event_id)) (
      cons (attribute_element "TimeCreated" "SystemTime" time) (
        cons (text_element "Channel" raw.channel)
          (cons (text_element "Computer" raw.computer) (record_id_elements raw.record_id)))))

-- The document of a raw event, with a text for its timestamp.
abbrev pub document_of : RawWindowsEvent → String → Element
document_of raw time = element event_tag [] none (
    cons (element system_tag [] none (system_elements raw time))
      (cons (element event_data_tag [] none (data_elements raw.event_data)) nil))
