-- ===== src/Tests/Loader.antt =====
-- The theorems on the loader at a concrete library.
use soc_investigation_lab.Common.{
  ℕ, ◌≤◌, ◌≡◌, refl, subst, true, false, none, some, List, [], ◌∷◌, ok, err, string_eq, is_unique,
  all_of, All, Bool-cases, inl, inr, if◌then◌else◌, Ensures-eq-ok, arith, guard, ◌&&◌,
}
use soc_investigation_lab.Python.Sorted.{sorted}
use soc_investigation_lab.Python.Sorted.Laws.{IsSorted}
use soc_investigation_lab.Python.FilePath.{
  FilePath, file_name, relative_to, as_posix, without_prefix, has_suffix,
}
use soc_investigation_lab.Python.Text.{endswith, startswith, reversed, text_leb}
use soc_investigation_lab.Common.{member, String}
use soc_investigation_lab.Detection.Errors.{duplicate_rule_id}
use soc_investigation_lab.Detection.Engine.Order.{ids}
use soc_investigation_lab.Detection.Engine.Matches.{IsRule}
use soc_investigation_lab.Detection.Loader.Files.{
  regular_file, failed, fails, path_leb, relative_path, check_component, check_components,
  check_parts, checked_path, classify, visit, discover_from, discover,
}
use soc_investigation_lab.Detection.Loader.Files.Safety.{
  IsRuleFile, discover-IsRuleFile, checked_path-IsChecked,
}
use soc_investigation_lab.Common.{◌>>=◌}
use soc_investigation_lab.Detection.Loader.Files.Traversal.{walk, discover-walk}
use soc_investigation_lab.Detection.Loader.Files.Termination.{Finishes, total}
use soc_investigation_lab.Detection.Loader.Files.Fuel.{discover-Agree}
use soc_investigation_lab.Detection.Loader.Documents.{
  check_keys, check_events, validated, load_document, scalar_node, unsafe_yaml, KeyNode,
}
use soc_investigation_lab.Detection.Loader.Documents.Safety.{is_text_key, key_values}
use soc_investigation_lab.Detection.Loader.Rejection.{load_file-unsafe}
use soc_investigation_lab.Detection.Loader.Documents.Keys.{check_keys_unique}
use soc_investigation_lab.Detection.Loader.Library.{load_detection_rules-AreRules}
use soc_investigation_lab.Detection.Loader.Complete.{
  AreLoaded, Repeats, entries, load_detection_rules_duplicate, load_detection_rules_complete,
}
use soc_investigation_lab.Detection.Loader.{load_file, load_detection_rules}
use soc_investigation_lab.Tests.Detection.{
  inside_rule-valid, tcp_rule-valid, inside_rule-checks, tcp_rule-checks,
}
use soc_investigation_lab.Tests.{parsers, inside_rule, tcp_rule}
use soc_investigation_lab.Tests.Documents.{
  repeated_documents, root, below, is_rules, file_system, rule_documents, unsafe_documents,
}

abbrev paths : List FilePath
paths = below "a.yaml" ∷ below "b.yml" ∷ []

files-discovered : discover file_system 3 root ≡ ok paths
unfolding discover discover_from visit classify checked_path check_parts check_components
    check_component relative_path relative_to without_prefix as_posix file_name has_suffix endswith
    startswith reversed text_leb sorted
files-discovered = refl

a-loads : load_file file_system rule_documents parsers root (below "a.yaml") ≡ ok tcp_rule
unfolding load_file load_document validated check_events check_keys checked_path check_parts
    check_components check_component relative_path relative_to without_prefix as_posix file_name
a-loads = rw (tcp_rule-valid, tcp_rule-checks) refl

b-loads : load_file file_system rule_documents parsers root (below "b.yml") ≡ ok inside_rule
unfolding load_file load_document validated check_events check_keys checked_path check_parts
    check_components check_component relative_path relative_to without_prefix as_posix file_name
b-loads = rw (inside_rule-valid, inside_rule-checks) refl

discover-IsRuleFile_example :
    All (IsRuleFile file_system root) paths × IsSorted (path_leb root) paths
discover-IsRuleFile_example = discover-IsRuleFile file_system 3 root paths files-discovered

-- The root has two entries, with nothing below them.
abbrev size : FilePath → ℕ
size path = if is_rules path then 2 else 0

listed-total :
    (path : FilePath) (entries : List FilePath)
    → file_system.iterdir path ≡ some entries
    → total size entries ≤ size path
unfolding file_name
listed-total path entries h = elim (Bool-cases (is_rules path)) [
  | inr other ↦ let lost : none ≡ some entries = rw other at h in cc
  | inl here ↦
      let listed : some (below "b.yml" ∷ below "a.yaml" ∷ []) ≡ some entries = rw here at h in
      let same : below "b.yml" ∷ below "a.yaml" ∷ [] ≡ entries = cc in
      rw (← same, here) (omega arith)
]

size-IsFinite :
    (d resolved : FilePath) (entries : List FilePath)
    → checked_path file_system root d ≡ ok resolved
    → file_system.iterdir resolved ≡ some entries
    → total size entries ≤ size d
size-IsFinite d resolved entries e listed =
    let checked = Ensures-eq-ok (checked_path-IsChecked file_system root d) e in
    let resolves : some d ≡ some resolved = checked.resolves in
    let same : resolved ≡ d = cc in
    listed-total d entries (subst (λ path. file_system.iterdir path ≡ some entries) same listed)

discover-Agree_example :
    (discover file_system 3 root ≡ discover file_system 7 root)
    × Finishes (discover file_system 3 root)
unfolding file_name
discover-Agree_example =
    discover-Agree file_system root size size-IsFinite 3 7 (omega arith) (omega arith)

both-load : AreLoaded file_system rule_documents parsers root paths (tcp_rule ∷ inside_rule ∷ [])
both-load = (a-loads, (b-loads, tt))

pub library-loads :
    load_detection_rules file_system rule_documents parsers 3 root
    ≡ ok (tcp_rule ∷ inside_rule ∷ [])
library-loads =
    load_detection_rules_complete file_system rule_documents parsers 3 root root paths
      (tcp_rule ∷ inside_rule ∷ []) refl refl refl files-discovered both-load refl

load_detection_rules_complete_example :
    load_detection_rules file_system rule_documents parsers 3 root
    ≡ ok (tcp_rule ∷ inside_rule ∷ [])
load_detection_rules_complete_example =
    load_detection_rules_complete file_system rule_documents parsers 3 root root paths
      (tcp_rule ∷ inside_rule ∷ []) refl refl refl files-discovered both-load refl

load_detection_rules-AreRules_example :
    All (IsRule parsers) (tcp_rule ∷ inside_rule ∷ [])
    × (is_unique (ids (tcp_rule ∷ inside_rule ∷ [])) ≡ true)
load_detection_rules-AreRules_example =
    load_detection_rules-AreRules file_system rule_documents parsers 3 root
      (tcp_rule ∷ inside_rule ∷ []) library-loads

load_file-unsafe_example :
    load_file file_system unsafe_documents parsers root (below "a.yaml")
    ≡ err (fails (relative_path root (below "a.yaml")) "unsafe_yaml")
unfolding checked_path check_parts check_components check_component relative_path relative_to
    without_prefix as_posix file_name
load_file-unsafe_example =
    load_file-unsafe file_system unsafe_documents parsers root (below "a.yaml") (below "a.yaml")
      (record { kind = regular_file; reparse_point = false }) "a.yaml" refl refl refl refl refl

-- A key that is repeated.
abbrev repeated : List KeyNode
repeated = scalar_node "tag:yaml.org,2002:str" "id" ∷ scalar_node "tag:yaml.org,2002:str" "id" ∷ []

check_keys_unique_example :
    check_keys [] repeated
    ≡ guard (all_of is_text_key repeated && is_unique (key_values repeated)) unsafe_yaml
check_keys_unique_example = check_keys_unique repeated

discover-walk_example :
    discover file_system 3 root
    ≡ (walk file_system root 3 root >>= λ files. ok (sorted (path_leb root) files))
unfolding file_name
discover-walk_example =
    discover-walk file_system root size size-IsFinite 3 3 (omega arith) (omega arith)

repeated-loads :
    AreLoaded file_system repeated_documents parsers root paths (inside_rule ∷ inside_rule ∷ [])
unfolding load_file load_document validated check_events check_keys checked_path check_parts
    check_components check_component relative_path relative_to without_prefix as_posix file_name
repeated-loads = (
  rw (inside_rule-valid, inside_rule-checks) refl,
  (rw (inside_rule-valid, inside_rule-checks) refl, tt),
)

load_detection_rules_duplicate_example :
    (id : String) × (first : String) × (relative : String) × (load_detection_rules file_system
        repeated_documents parsers 3 root
      ≡ err (failed (duplicate_rule_id id first relative)))
    × (member id (ids (inside_rule ∷ inside_rule ∷ [])) ≡ true)
    × Repeats id first relative (entries root paths (inside_rule ∷ inside_rule ∷ []))
load_detection_rules_duplicate_example =
    load_detection_rules_duplicate file_system repeated_documents parsers 3 root root paths
      (inside_rule ∷ inside_rule ∷ []) refl refl refl files-discovered repeated-loads refl
