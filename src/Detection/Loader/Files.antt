-- ===== src/Detection/Loader/Files.antt =====
-- backend/app/detection/loader.py, `_relative_path`, `_checked_path` and `_discover`, over a file
-- system that does not change while rules are loaded.
pub mod Safety
pub mod Termination
pub mod Fuel
pub mod Traversal
use soc_investigation_lab.Common.{
  ℕ, zero, suc, String, Bool, true, false, not, ◌||◌, Option, none, some, List, [], ◌∷◌, ◌++◌,
  Result, ok, err, ◌>>=◌, ◌>>◌, guard, ◌==◌, string_eq, member, if◌then◌else◌,
}
use soc_investigation_lab.Python.Text.{text_leb}
use soc_investigation_lab.Python.Sorted.{sorted}
use soc_investigation_lab.Python.FilePath.{
  FilePath, join, relative_to, as_posix, file_name, has_suffix,
}
use soc_investigation_lab.Detection.Errors.{DetectionRuleLoadError, file_error}

-- What `lstat` says of a path: its kind, and whether it is a reparse point of Windows.
pub data FileKind : Type 0 where
  link_file directory_file regular_file special_file : FileKind

pub record Metadata : Type 0 where
  pub kind : FileKind
  pub reparse_point : Bool

-- `path.read_text(encoding="utf-8")` raises a UnicodeError or an OSError.
pub data ReadFailure : Type 0 where
  unicode_error os_error : ReadFailure

-- The file system: `none` is an OSError, and for `resolve` also a RuntimeError.
pub record FileSystem : Type 0 where
  pub lstat : FilePath → Option Metadata
  pub resolve : FilePath → Option FilePath
  pub is_dir : FilePath → Option Bool
  pub iterdir : FilePath → Option (List FilePath)
  pub read_text : FilePath → Result ReadFailure String

-- An error of the loader, or the end of the fuel, which no run with enough fuel meets.
pub data Failure : Type 0 where
  failed : DetectionRuleLoadError → Failure
  out_of_fuel : Failure

abbrev pub fails : String → String → Failure
fails path category = failed (file_error path category)

abbrev pub or_fail {ℓ} : {A : Type ℓ} → Failure → Option A → Result Failure A
or_fail e (some a) = ok a
or_fail e none = err e

abbrev pub outside_root : String
outside_root = "<outside-root>"

abbrev pub shown : Option (List String) → String
shown none = outside_root
shown (some parts) = if member ".." parts then outside_root else as_posix parts

unfoldable pub relative_path : FilePath → FilePath → String
unfolding as_posix
relative_path root path = shown (relative_to root path)

abbrev pub is_link : FileKind → Bool
is_link link_file = true
is_link _ = false

abbrev pub is_directory : FileKind → Bool
is_directory directory_file = true
is_directory _ = false

abbrev pub is_regular : FileKind → Bool
is_regular regular_file = true
is_regular _ = false

abbrev pub is_redirect : Metadata → Bool
is_redirect metadata = is_link metadata.kind || metadata.reparse_point

abbrev pub is_some {ℓ} : {A : Type ℓ} → Option A → Bool
is_some none = false
is_some (some a) = true

abbrev pub is_yaml : FilePath → Bool
is_yaml path = has_suffix path ".yaml" || has_suffix path ".yml"

-- Directories and files of one directory, in its order.
pub record Found : Type 0 where
  pub directories : List FilePath
  pub files : List FilePath

abbrev pub add_directory : FilePath → Found → Found
add_directory path found = record { directories = path ∷ found.directories; files = found.files }

abbrev pub add_file : FilePath → Found → Found
add_file path found = record { directories = found.directories; files = path ∷ found.files }

abbrev pub name_leb : FilePath → FilePath → Bool
name_leb a b = text_leb (file_name a) (file_name b)

-- The key `path.relative_to(root).as_posix()`, which `relative_path` is for a path that was checked.
abbrev pub path_leb : FilePath → FilePath → FilePath → Bool
path_leb root a b = text_leb (relative_path root a) (relative_path root b)

-- One entry, before what the rest of the directory gives.
unfoldable pub classify :
    FilePath → FilePath → FileKind → Result Failure Found → Result Failure Found
unfolding has_suffix
classify root entry kind rest =
    if is_directory kind
    then (do found ← rest; ok (add_directory entry found))
    else if is_yaml entry
    then (do
      guard (is_regular kind) (fails (relative_path root entry) "not_regular_file")
      found ← rest
      ok (add_file entry found))
    else rest

module _ (fs : FileSystem) where
  unfoldable pub check_component : String → FilePath → Result Failure (Unit {0})
  check_component relative current = do
    metadata ← or_fail (fails relative "path_error") (fs.lstat current)
    guard (not (is_redirect metadata)) (fails relative "unsafe_path")

  -- The loop over `("", *parts)`.
  unfoldable pub check_components : String → FilePath → List String → Result Failure (Unit {0})
  check_components relative current [] = check_component relative current
  check_components relative current (part ∷ parts) = do
    check_component relative current
    check_components relative (join current part) parts

  unfoldable pub check_parts : FilePath → FilePath → Option (List String) → Result Failure FilePath
  check_parts root path none = err (fails outside_root "unsafe_path")
  check_parts root path (some parts) = do
    let relative = shown (some parts)
    guard (not (relative == outside_root)) (fails relative "unsafe_path")
    check_components relative root parts
    resolved ← or_fail (fails relative "path_error") (fs.resolve path)
    guard (is_some (relative_to root resolved)) (fails relative "unsafe_path")
    ok resolved

  unfoldable pub checked_path : FilePath → FilePath → Result Failure FilePath
  checked_path root path = check_parts root path (relative_to root path)

  unfoldable pub visit : FilePath → List FilePath → Result Failure Found
  visit root [] = ok (record { directories = []; files = [] })
  visit root (entry ∷ entries) = do
    checked ← checked_path root entry
    metadata ← or_fail (fails (relative_path root entry) "path_error") (fs.lstat checked)
    classify root entry metadata.kind (visit root entries)

  -- The next directory is the head of `pending`, where the source pops the end of its list.
  unfoldable pub discover_from :
      ℕ → FilePath → List FilePath → List FilePath → Result Failure (List FilePath)
  discover_from fuel root [] files = ok files
  discover_from zero root (directory ∷ pending) files = err out_of_fuel
  discover_from (suc fuel) root (directory ∷ pending) files = do
    checked ← checked_path root directory
    entries ← or_fail (fails (relative_path root directory) "read_error") (fs.iterdir checked)
    found ← visit root (sorted name_leb entries)
    discover_from fuel root (found.directories ++ pending) (files ++ found.files)

  unfoldable pub discover : ℕ → FilePath → Result Failure (List FilePath)
  discover fuel root = do
    files ← discover_from fuel root (root ∷ []) []
    ok (sorted (path_leb root) files)
