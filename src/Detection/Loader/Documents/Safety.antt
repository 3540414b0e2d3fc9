-- ===== src/Detection/Loader/Documents/Safety.antt =====
-- What is rejected as unsafe, whatever else a document holds.
use soc_investigation_lab.Common.{
  String, ◌≡◌, refl, Bool, true, false, not, ◌&&◌, ◌||◌, List, [], ◌∷◌, err, guard, ◌==◌, string_eq,
  member, any_of, Bool-cases, inl, inr, if◌then◌else◌,
}
use soc_investigation_lab.Detection.Semantics.{TextParsers}
use soc_investigation_lab.Detection.Loader.Files.{fails, is_some}
use soc_investigation_lab.Detection.Loader.Documents.{
  YamlEvent, alias_event, node_event, other_event, KeyNode, scalar_node, collection_node,
  unsafe_yaml, invalid_yaml, RuleDocuments, key_value, check_events, load_document,
}

-- A key that YAML read as a plain text and that merges nothing.
abbrev pub is_text_key : KeyNode → Bool
is_text_key collection_node = false
is_text_key (scalar_node tag value) = tag == "tag:yaml.org,2002:str" && not (value == "<<")

abbrev pub key_values : List KeyNode → List String
key_values [] = []
key_values (key ∷ keys) = key_value key ∷ key_values keys

-- None of the keys is among those so far.
abbrev pub are_new : List String → List KeyNode → Bool
are_new seen [] = true
are_new seen (key ∷ keys) = not (member (key_value key) seen) && are_new seen keys

pub are_new-nil : (keys : List KeyNode) → are_new [] keys ≡ true
are_new-nil [] = refl
are_new-nil (key ∷ keys) = are_new-nil keys

-- An alias, or a node with an anchor or a tag.
abbrev pub is_unsafe_event : YamlEvent → Bool
is_unsafe_event alias_event = true
is_unsafe_event (node_event anchor tag) = is_some anchor || is_some tag
is_unsafe_event other_event = false

pub check_events-unsafe :
    (events : List YamlEvent) (failing : Bool)
    → check_events events failing ≡ (
        if any_of is_unsafe_event events then err unsafe_yaml else guard (not failing) invalid_yaml)
unfolding check_events
check_events-unsafe [] failing = refl
check_events-unsafe (alias_event ∷ events) failing = refl
check_events-unsafe (other_event ∷ events) failing = check_events-unsafe events failing
check_events-unsafe (node_event anchor tag ∷ events) failing =
    elim (Bool-cases (is_some anchor || is_some tag)) [
      | inl bad ↦ rw bad refl
      | inr fine ↦ rw fine (check_events-unsafe events failing)
    ]

-- The category of a text whose events end in an error or have an unsafe one: an unsafe event comes
-- first.
abbrev pub rejection : List YamlEvent → String
rejection events = if any_of is_unsafe_event events then "unsafe_yaml" else "invalid_yaml"

module _ {D : Type 0} (documents : RuleDocuments D) (texts : TextParsers) where
  pub load_document-unsafe :
      (relative content : String)
      → any_of is_unsafe_event (documents.parse content).0 || (documents.parse content).1 ≡ true
      → load_document documents texts relative content
        ≡ err (fails relative (rejection (documents.parse content).0))
  unfolding load_document
  load_document-unsafe relative content h =
      let events = (documents.parse content).0 in
      let failing = (documents.parse content).1 in
      elim (Bool-cases (any_of is_unsafe_event events)) [
        | inl bad ↦ rw (check_events-unsafe events failing, bad) refl
        | inr fine ↦
            let fails_too = rw fine at h in
            rw (check_events-unsafe events failing, fine, fails_too) refl
      ]
