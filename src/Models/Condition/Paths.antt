-- ===== src/Models/Condition/Paths.antt =====
-- `_COMMON_FIELDS`, `_SEGMENT` and `_valid_path` of backend/app/models/detection.py.
use Prim.Native.Char.{code}
use soc_investigation_lab.Common.{
  String, Bool, false, ◌&&◌, ◌||◌, List, [], ◌∷◌, ◌==◌, string_eq, member,
}
use soc_investigation_lab.Python.Text.{split, all_chars, is_letter, is_word}

abbrev pub common_fields : List String
common_fields =
    "source" ∷ "provider" ∷ "event_id" ∷ "channel" ∷ "timestamp" ∷ "computer" ∷ "record_id"
    ∷ "category" ∷ []

-- `[A-Za-z][A-Za-z0-9_]*\Z`
unfoldable pub is_segment : String → Bool
unfolding all_chars
is_segment String.[] = false
is_segment (String.◌∷◌ c s) = is_letter (code c) && all_chars is_word s

-- The parts of a path that is no common field.
abbrev pub valid_parts : List String → Bool
valid_parts (prefix ∷ name ∷ []) =
    (prefix == "context" || prefix == "source_data") && is_segment name
valid_parts _ = false

unfoldable pub valid_path : String → Bool
unfolding split is_segment
valid_path path = member path common_fields || valid_parts (split b'.' path)
