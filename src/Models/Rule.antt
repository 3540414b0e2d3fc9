-- ===== src/Models/Rule.antt =====
-- backend/app/models/detection.py, `DetectionRule` and the slug of its identity.
use Prim.Native.Char.{code}
use soc_investigation_lab.Common.{
  ℕ, String, Bool, true, false, ◌&&◌, ◌||◌, not, Option, none, some, List, [], eqb, leb, ◌==◌,
  string_eq, is_unique, if◌then◌else◌,
}
use soc_investigation_lab.Python.Int.{ℤ, pos, ltb_ℤ}
use soc_investigation_lab.Python.Text.{strip, is_lower, is_digit}
use soc_investigation_lab.Models.Event.{EventCategory, EventSource, category_eq, source_eq}
use soc_investigation_lab.Models.Condition.{ConditionNode, measure, uses_source_data, validate_tree}

-- `[a-z0-9]`
abbrev pub is_slug_char : ℕ → Bool
is_slug_char c = is_lower c || is_digit c

-- The rest of a slug: `inside` says that the group at hand has a character.
unfoldable pub slug_rest : Bool → String → Bool
slug_rest inside String.[] = inside
slug_rest inside (String.◌∷◌ c s) =
    let more = slug_rest true s in
    let next_group = slug_rest false s in
    if is_slug_char (code c) then more else inside && eqb (code c) b'-' && next_group

-- `[a-z0-9]+(?:-[a-z0-9]+)*\Z`
unfoldable pub is_slug : String → Bool
unfolding slug_rest
is_slug s = slug_rest false s

-- The field `sources`: omitted, an explicit None, or a list.
pub data Sources : Type 0 where
  unset null : Sources
  only : List EventSource → Sources

-- The value of the field.
abbrev pub sources_value : Sources → Option (List EventSource)
sources_value (only ss) = some ss
sources_value _ = none

pub record DetectionRule : Type 0 where
  pub id : String
  pub version : ℤ
  pub title : String
  pub description : String
  pub categories : List EventCategory
  pub sources : Sources
  pub condition : ConditionNode

-- `not text.strip()`
unfoldable pub is_blank : String → Bool
unfolding strip
is_blank s = strip s == ""

abbrev pub is_empty {ℓ} : {A : Type ℓ} → List A → Bool
is_empty [] = true
is_empty _ = false

abbrev pub valid_sources : Sources → Bool
valid_sources unset = true
valid_sources null = false
valid_sources (only ss) = not (is_empty ss) && is_unique ss

-- `source_data conditions require sources`
abbrev pub has_sources : Sources → Bool
has_sources (only ss) = true
has_sources _ = false

-- `depth > 8 or leaves > 64`, negated
abbrev pub within_limits : ℕ × ℕ → Bool
within_limits (depth, leaves) = leb depth 8 && leb leaves 64

-- Whether `DetectionRule(...)` accepts the fields.
unfoldable pub validate_rule : DetectionRule → Bool
unfolding is_slug is_blank measure uses_source_data validate_tree
validate_rule r =
    ltb_ℤ (pos 0) r.version
    && not (is_empty r.categories)
    && validate_tree r.condition
    && is_slug r.id
    && not (is_blank r.title)
    && not (is_blank r.description)
    && is_unique r.categories
    && valid_sources r.sources
    && within_limits (measure r.condition)
    && (not (uses_source_data r.condition) || has_sources r.sources)
