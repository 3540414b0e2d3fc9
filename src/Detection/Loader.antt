-- ===== src/Detection/Loader.antt =====
-- backend/app/detection/loader.py: a library of rules, from files of YAML below a root.
pub mod Files
pub mod Documents
pub mod Library
pub mod Rejection
pub mod Complete
use soc_investigation_lab.Common.{
  ℕ, String, Bool, true, Option, none, some, List, [], ◌∷◌, Result, ok, err, ◌>>=◌, ◌>>◌, guard,
  lookup, string_eq,
}
use soc_investigation_lab.Python.FilePath.{FilePath, is_absolute}
use soc_investigation_lab.Models.Rule.{DetectionRule}
use soc_investigation_lab.Detection.Errors.{duplicate_rule_id}
use soc_investigation_lab.Detection.Semantics.{TextParsers}
use soc_investigation_lab.Detection.Loader.Files.{
  FileSystem, Failure, failed, fails, or_fail, is_regular, relative_path, checked_path, discover,
}
use soc_investigation_lab.Detection.Loader.Documents.{RuleDocuments, read_content, load_document}

-- A rule in front of the rules of the other files, unless its identity was seen at a path.
abbrev pub add_rule :
    Option String
    → DetectionRule
    → String
    → Result Failure (List DetectionRule)
    → Result Failure (List DetectionRule)
add_rule (some first) rule relative rest = err (failed (duplicate_rule_id rule.id first relative))
add_rule none rule relative rest = do rules ← rest; ok (rule ∷ rules)

module _ {D : Type 0} (fs : FileSystem) (documents : RuleDocuments D) (texts : TextParsers) where
  unfoldable pub load_file : FilePath → FilePath → Result Failure DetectionRule
  load_file root path = do
    let relative = relative_path root path
    checked ← checked_path fs root path
    metadata ← or_fail (fails relative "read_error") (fs.lstat checked)
    guard (is_regular metadata.kind) (fails relative "not_regular_file")
    content ← read_content relative (fs.read_text checked)
    load_document documents texts relative content

  -- The loop over the files, with the paths of the identities so far.
  unfoldable pub load_files :
      FilePath → List (String × String) → List FilePath → Result Failure (List DetectionRule)
  unfolding lookup
  load_files root ids [] = ok []
  load_files root ids (path ∷ paths) = do
    rule ← load_file root path
    add_rule (lookup rule.id ids) rule (relative_path root path)
        (load_files root ((rule.id, relative_path root path) ∷ ids) paths)

  -- The fuel bounds the directories that are read.
  unfoldable pub load_detection_rules : ℕ → FilePath → Result Failure (List DetectionRule)
  load_detection_rules fuel rule_root = do
    guard (is_absolute rule_root) (fails "." "absolute_root_required")
    root ← or_fail (fails "." "invalid_root") (fs.resolve rule_root)
    found ← or_fail (fails "." "invalid_root") (fs.is_dir root)
    guard found (fails "." "invalid_root")
    paths ← discover fs fuel root
    load_files root [] paths
