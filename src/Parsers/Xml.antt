-- ===== src/Parsers/Xml.antt =====
-- The element tree that `xml.etree.ElementTree` builds: an element has a tag, attributes, the text
-- before its first child, and children.
use soc_investigation_lab.Common.{
  ℕ, ◌+◌, String, Option, none, some, List, [], ◌∷◌, ◌==◌, string_eq, if◌then◌else◌,
}

mutual
  pub data Element : Type 0 where
    element : String → List (String × String) → Option String → Elements → Element

  pub data Elements : Type 0 where
    nil : Elements
    cons : Element → Elements → Elements

abbrev pub tag : Element → String
tag (element name attrs text es) = name

abbrev pub attributes : Element → List (String × String)
attributes (element name attrs text es) = attrs

abbrev pub children : Element → Elements
children (element name attrs text es) = es

-- `element.text or ""`
abbrev pub text_of : Element → String
text_of (element name attrs none es) = ""
text_of (element name attrs (some text) es) = text

-- `sum(element.tag == name for element in root.iter())`
unfoldable mutual
  pub count_tag : String → Element → ℕ
  count_tag name (element own attrs text es) = (if own == name then 1 else 0) + count_tag_in name es

  pub count_tag_in : String → Elements → ℕ
  count_tag_in name nil = 0
  count_tag_in name (cons e es) = count_tag name e + count_tag_in name es

-- `[child for child in parent if child.tag == name]`
unfoldable pub with_tag : String → Elements → List Element
with_tag name nil = []
with_tag name (cons e es) = let rest = with_tag name es in if tag e == name then e ∷ rest else rest
