-- ===== src/Detection/Loader/Documents.antt =====
-- backend/app/detection/loader.py, `_RuleSafeLoader` and the second half of `_load_file`: a text of
-- YAML to a rule.
pub mod Safety
pub mod Keys
use soc_investigation_lab.Common.{
  String, Bool, true, false, not, ◌&&◌, ◌||◌, Option, none, some, List, [], ◌∷◌, Result, ok, err,
  ◌>>=◌, ◌>>◌, guard, ◌==◌, string_eq, member, if◌then◌else◌,
}
use soc_investigation_lab.Models.Rule.{DetectionRule, validate_rule}
use soc_investigation_lab.Detection.Errors.{EvaluationError}
use soc_investigation_lab.Detection.Semantics.{TextParsers, validate_detection_rule_semantics}
use soc_investigation_lab.Detection.Loader.Files.{
  ReadFailure, unicode_error, os_error, Failure, fails, is_some,
}

-- An event of the YAML parser: an alias, a scalar or the start of a collection with its anchor and
-- tag, or another.
pub data YamlEvent : Type 0 where
  alias_event : YamlEvent
  node_event : Option String → Option String → YamlEvent
  other_event : YamlEvent

-- The node of a key: a scalar with its tag and value, or a collection.
pub data KeyNode : Type 0 where
  scalar_node : String → String → KeyNode
  collection_node : KeyNode

-- `_UnsafeYamlError`, or a YAMLError, ValueError or RecursionError.
pub data YamlFailure : Type 0 where
  unsafe_yaml invalid_yaml : YamlFailure

-- PyYAML and pydantic, with documents of a type `D`. `parse` gives the events of a text, and whether
-- they end in an error. `get_single_data` is the method of a SafeLoader whose `construct_mapping`
-- first does what it is given. `read_rule` reads the fields of a rule, without its validators.
pub record RuleDocuments (D : Type 0) : Type 0 where
  pub parse : String → List YamlEvent × Bool
  pub get_single_data :
      (List KeyNode → Result YamlFailure (Unit {0})) → String → Result YamlFailure D
  pub is_dict : D → Bool
  pub is_empty : D → Bool
  pub read_rule : D → Option DetectionRule

-- A key that may not be in a mapping with the keys so far.
abbrev pub is_unsafe_key : List String → KeyNode → Bool
is_unsafe_key keys collection_node = true
is_unsafe_key keys (scalar_node tag value) =
    not (tag == "tag:yaml.org,2002:str") || value == "<<" || member value keys

abbrev pub key_value : KeyNode → String
key_value (scalar_node tag value) = value
key_value collection_node = ""

-- `_RuleSafeLoader.construct_mapping`, before the call of the base class.
unfoldable pub check_keys : List String → List KeyNode → Result YamlFailure (Unit {0})
check_keys keys [] = ok tt
check_keys keys (key ∷ nodes) = do
  guard (not (is_unsafe_key keys key)) unsafe_yaml
  check_keys (key_value key ∷ keys) nodes

-- The loop over the events.
unfoldable pub check_events : List YamlEvent → Bool → Result YamlFailure (Unit {0})
check_events [] failing = guard (not failing) invalid_yaml
check_events (alias_event ∷ events) failing = err unsafe_yaml
check_events (node_event anchor tag ∷ events) failing = do
  guard (not (is_some anchor || is_some tag)) unsafe_yaml
  check_events events failing
check_events (other_event ∷ events) failing = check_events events failing

abbrev pub category_of : YamlFailure → String
category_of unsafe_yaml = "unsafe_yaml"
category_of invalid_yaml = "invalid_yaml"

-- The handlers of the YAML errors.
abbrev pub yaml {ℓ} : {A : Type ℓ} → String → Result YamlFailure A → Result Failure A
yaml relative (ok a) = ok a
yaml relative (err e) = err (fails relative (category_of e))

-- The handlers of the errors of reading.
abbrev pub read_content : String → Result ReadFailure String → Result Failure String
read_content relative (ok content) = ok content
read_content relative (err unicode_error) = err (fails relative "invalid_utf8")
read_content relative (err os_error) = err (fails relative "read_error")

abbrev pub passes : Result EvaluationError (Unit {0}) → Bool
passes (ok u) = true
passes (err e) = false

module _ {D : Type 0} (documents : RuleDocuments D) (texts : TextParsers) where
  -- `DetectionRule.model_validate` and the semantic checks: either error is the same.
  unfoldable pub validated : String → Option DetectionRule → Result Failure DetectionRule
  validated relative none = err (fails relative "invalid_rule")
  validated relative (some rule) =
      if validate_rule rule && passes (validate_detection_rule_semantics texts rule)
      then ok rule
      else err (fails relative "invalid_rule")

  unfoldable pub load_document : String → String → Result Failure DetectionRule
  load_document relative content = do
    yaml relative (check_events (documents.parse content).0 (documents.parse content).1)
    document ← yaml relative (documents.get_single_data (check_keys []) content)
    guard (documents.is_dict document && not (documents.is_empty document))
        (fails relative "invalid_document")
    validated relative (documents.read_rule document)
