-- ===== src/Parsers/WindowsEvent/Pieces.antt =====
-- What the readers of elements and of their texts end in.
use soc_investigation_lab.Common.{
  String, not, Option, none, some, List, [], ◌∷◌, ◌++◌, ◌==◌, string_eq, lookup, member,
}
use soc_investigation_lab.Python.Text.{◌<>◌, strip}
use soc_investigation_lab.Python.Reading.{read_int}
use soc_investigation_lab.Models.Rule.{is_blank}
use soc_investigation_lab.Parsers.Errors.{invalid_raw_event}
use soc_investigation_lab.Parsers.Outcomes.{
  Any, Handles, Handles-bind, Handles-or_raise, Handles-ok, Handles-err, Handles-guard, Handles-if,
}
use soc_investigation_lab.Parsers.Xml.{
  Element, Elements, nil, cons, tag, attributes, children, with_tag, text_of,
}
use soc_investigation_lab.Parsers.WindowsEvent.{
  qualified, event_data_tag, data_tag, names, has_children, single, required_single_child, or_blank,
  required_text, parse_integer, record_id_of, parse_record_id, named, collect_data, event_data_of,
  parse_event_data,
}

single-Handles : (field_name : String) (es : List Element) → Handles Any (single field_name es)
single-Handles field_name [] = Handles-err
single-Handles field_name (e ∷ []) = Handles-ok tt
single-Handles field_name (e ∷ f ∷ es) = Handles-err

pub required_single_child-Handles :
    (parent : Elements) (tag field_name : String)
    → Handles Any (required_single_child parent tag field_name)
unfolding required_single_child
required_single_child-Handles parent tag field_name =
    single-Handles field_name (with_tag tag parent)

or_blank-Handles : (field_name value : String) → Handles Any (or_blank field_name value)
or_blank-Handles field_name value = Handles-if (value == "") Handles-err (Handles-ok tt)

pub required_text-Handles :
    (parent : Elements) (local_name field_name : String)
    → Handles Any (required_text parent local_name field_name)
unfolding required_text
required_text-Handles parent local_name field_name =
    Handles-bind Any (required_single_child-Handles parent (qualified local_name) field_name)
      λ e h. or_blank-Handles field_name (strip (text_of e))

pub parse_integer-Handles :
    (value field_name : String) → Handles Any (parse_integer value field_name)
unfolding parse_integer
parse_integer-Handles value field_name =
    Handles-or_raise (invalid_raw_event (field_name <> " must be an integer")) (read_int 10 value)
      λ a h. tt

record_id_of-Handles : (es : List Element) → Handles Any (record_id_of es)
unfolding record_id_of
record_id_of-Handles [] = Handles-ok tt
record_id_of-Handles (e ∷ []) =
    Handles-bind Any (or_blank-Handles "EventRecordID" (strip (text_of e))) λ value h.
      Handles-bind Any (parse_integer-Handles value "EventRecordID") λ number k. Handles-ok tt
record_id_of-Handles (e ∷ f ∷ es) = Handles-err

pub named-Handles : (message : String) (name : Option String) → Handles Any (named message name)
named-Handles message none = Handles-err
named-Handles message (some name) = Handles-if (is_blank name) Handles-err (Handles-ok tt)

collect_data-Handles :
    (event_data : List (String × String)) (es : Elements) → Handles Any (collect_data event_data es)
unfolding collect_data
collect_data-Handles event_data nil = Handles-ok tt
collect_data-Handles event_data (cons e es) =
    Handles-bind Any
      (Handles-guard (tag e == data_tag)
        (invalid_raw_event "EventData may contain only Data elements"))
      λ u h.
        Handles-bind Any
          (Handles-guard (not (has_children (children e)))
            (invalid_raw_event "Data elements must not contain nested XML"))
          λ u h.
            Handles-bind Any
              (named-Handles "Data Name must not be missing or blank"
                (lookup "Name" (attributes e)))
              λ name h.
                Handles-bind Any
                  (Handles-guard (not (member name (names event_data)))
                    (invalid_raw_event ("duplicate EventData name: " <> name)))
                  λ u h. collect_data-Handles (event_data ++ (name, text_of e) ∷ []) es

event_data_of-Handles : (es : List Element) → Handles Any (event_data_of es)
unfolding event_data_of
event_data_of-Handles [] = Handles-ok tt
event_data_of-Handles (e ∷ []) = collect_data-Handles [] (children e)
event_data_of-Handles (e ∷ f ∷ es) = Handles-err

pub parse_record_id-Handles : (system : Elements) → Handles Any (parse_record_id system)
unfolding parse_record_id
parse_record_id-Handles system = record_id_of-Handles (with_tag (qualified "EventRecordID") system)

pub parse_event_data-Handles : (root : Elements) → Handles Any (parse_event_data root)
unfolding parse_event_data
parse_event_data-Handles root = event_data_of-Handles (with_tag event_data_tag root)
