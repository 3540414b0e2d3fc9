-- ===== src/Python/FilePath.antt =====
-- pathlib's paths, by their parts: an anchor, which is empty for a relative path, and names.
use soc_investigation_lab.Common.{
  String, Bool, not, ◌&&◌, Option, none, some, List, [], ◌∷◌, ◌++◌, ◌==◌, string_eq, if◌then◌else◌,
}
use soc_investigation_lab.Python.Text.{◌<>◌, endswith}

pub record FilePath : Type 0 where
  pub anchor : String
  pub parts : List String

-- `path.is_absolute()`
abbrev pub is_absolute : FilePath → Bool
is_absolute path = not (path.anchor == "")

-- `path / name`
abbrev pub join : FilePath → String → FilePath
join path name = record { anchor = path.anchor; parts = path.parts ++ name ∷ [] }

-- What follows a prefix.
unfoldable pub without_prefix : List String → List String → Option (List String)
without_prefix [] parts = some parts
without_prefix (name ∷ names) [] = none
without_prefix (name ∷ names) (part ∷ parts) =
    if name == part then without_prefix names parts else none

-- `path.relative_to(root)`: `none` is a ValueError
unfoldable pub relative_to : FilePath → FilePath → Option (List String)
unfolding without_prefix
relative_to root path =
    if root.anchor == path.anchor then without_prefix root.parts path.parts else none

abbrev slashed : String → List String → String
slashed name [] = name
slashed name (next ∷ names) = name <> "/" <> slashed next names

-- `path.as_posix()` of a relative path
unfoldable pub as_posix : List String → String
as_posix [] = "."
as_posix (name ∷ names) = slashed name names

abbrev last_or : String → List String → String
last_or name [] = name
last_or name (next ∷ names) = last_or next names

-- `path.name`
unfoldable pub file_name : FilePath → String
file_name path = last_or "" path.parts

-- `path.suffix == suffix`, for a suffix of a dot and letters: the name has something before it
unfoldable pub has_suffix : FilePath → String → Bool
unfolding file_name endswith
has_suffix path suffix = endswith (file_name path) suffix && not (file_name path == suffix)
