-- ===== src/Detection/Loader/Library.antt =====
-- The rules of a library that loads.
use soc_investigation_lab.Common.{
  ℕ, String, ◌≡◌, refl, true, false, not, ◌&&◌, Option, none, some, List, [], ◌∷◌, Result, ok, err,
  and-eq-true, lookup, string_eq, ◌==◌, beq_sym, member, is_unique, All, Bool-cases, inl, inr,
  Ensures, Ensures-ok, Ensures-err, Ensures-bind, Ensures-guard, Ensures-eq-ok, Any, Any-holds,
}
use soc_investigation_lab.Python.FilePath.{FilePath, is_absolute}
use soc_investigation_lab.Models.Rule.{DetectionRule, validate_rule}
use soc_investigation_lab.Detection.Errors.{EvaluationError}
use soc_investigation_lab.Detection.Semantics.{TextParsers, validate_detection_rule_semantics}
use soc_investigation_lab.Detection.Engine.Order.{ids}
use soc_investigation_lab.Detection.Engine.Matches.{IsRule}
use soc_investigation_lab.Detection.Loader.Files.{
  FileSystem, Failure, fails, or_fail, is_regular, relative_path, checked_path, discover,
}
use soc_investigation_lab.Detection.Loader.Documents.{
  RuleDocuments, yaml, check_events, check_keys, passes, validated, read_content, load_document,
}
use soc_investigation_lab.Detection.Loader.{add_rule, load_file, load_files, load_detection_rules}

passes-eq-true : (r : Result EvaluationError (Unit {0})) → passes r ≡ true → r ≡ ok tt
passes-eq-true (ok tt) h = refl
passes-eq-true (err e) h = cc

-- A key that a dictionary with one more entry does not have.
lookup-cons-none :
    (id name path : String) (seen : List (String × String))
    → lookup id ((name, path) ∷ seen) ≡ none
    → ((id == name) ≡ false) × (lookup id seen ≡ none)
unfolding lookup
lookup-cons-none id name path seen h = elim (Bool-cases (id == name)) [
  | inl same ↦ let lost : some path ≡ none = rw same at h in cc
  | inr other ↦ (other, rw other at h)
]

-- The identities of the rules are not among those that were seen.
abbrev pub AreNew : List (String × String) → List DetectionRule → Type 0
AreNew seen = All (λ r. lookup r.id seen ≡ none)

pub AreNew-cons :
    (name path : String) (seen : List (String × String)) (rs : List DetectionRule)
    → AreNew ((name, path) ∷ seen) rs
    → (member name (ids rs) ≡ false) × AreNew seen rs
AreNew-cons name path seen [] h = (refl, tt)
AreNew-cons name path seen (r ∷ rs) (h, hs) =
    let (other, new) = lookup-cons-none r.id name path seen h in
    let (others, news) = AreNew-cons name path seen rs hs in
    (rw (beq_sym name r.id, other, others) refl, (new, news))

module _ {D : Type 0} (fs : FileSystem) (documents : RuleDocuments D) (texts : TextParsers) where
  validated-IsRule :
      (relative : String) (o : Option DetectionRule)
      → Ensures (IsRule texts) (validated documents texts relative o)
  unfolding validated
  validated-IsRule relative none = Ensures-err
  validated-IsRule relative (some rule) =
      elim (Bool-cases
        (validate_rule rule && passes (validate_detection_rule_semantics texts rule))) [
          | inr bad ↦ rw bad Ensures-err
          | inl fine ↦
              let (valid, checks) = and-eq-true (validate_rule rule) _ fine in
              rw fine (Ensures-ok (record { valid = valid; checks = passes-eq-true _ checks }))
        ]

  load_document-IsRule :
      (relative content : String)
      → Ensures (IsRule texts) (load_document documents texts relative content)
  unfolding load_document
  load_document-IsRule relative content =
      Ensures-bind Any
        (Any-holds
          (yaml relative (check_events (documents.parse content).0 (documents.parse content).1)))
        λ u h.
          Ensures-bind Any
            (Any-holds (yaml relative (documents.get_single_data (check_keys []) content)))
            λ document h.
              Ensures-guard (documents.is_dict document && not (documents.is_empty document))
                (fails relative "invalid_document")
                λ h. validated-IsRule relative (documents.read_rule document)

  load_file-IsRule :
      (root path : FilePath) → Ensures (IsRule texts) (load_file fs documents texts root path)
  unfolding load_file
  load_file-IsRule root path =
      let relative = relative_path root path in
      Ensures-bind Any (Any-holds (checked_path fs root path)) λ checked h.
        Ensures-bind Any (Any-holds (or_fail (fails relative "read_error") (fs.lstat checked)))
          λ metadata h.
            Ensures-guard (is_regular metadata.kind) (fails relative "not_regular_file") λ h.
              Ensures-bind Any (Any-holds (read_content relative (fs.read_text checked)))
                λ content h. load_document-IsRule relative content

  -- Rules that the model and the semantic checks accept, with identities that are new and different.
  abbrev AreRules : List (String × String) → List DetectionRule → Type 0
  AreRules seen rs = All (IsRule texts) rs × (is_unique (ids rs) ≡ true) × AreNew seen rs

  add_rule-AreRules :
      (seen : List (String × String)) (rule : DetectionRule) (relative : String) (o : Option String)
      (rest : Result Failure (List DetectionRule))
      → lookup rule.id seen ≡ o
      → IsRule texts rule
      → Ensures (AreRules ((rule.id, relative) ∷ seen)) rest
      → Ensures (AreRules seen) (add_rule o rule relative rest)
  add_rule-AreRules seen rule relative (some first) rest e v h = Ensures-err
  add_rule-AreRules seen rule relative none rest e v h =
      Ensures-bind (AreRules ((rule.id, relative) ∷ seen)) h λ rs (vs, unique, news).
        let (apart, older) = AreNew-cons rule.id relative seen rs news in
        Ensures-ok ((v, vs), rw (apart, unique) refl, (e, older))

  load_files-AreRules :
      (root : FilePath) (seen : List (String × String)) (paths : List FilePath)
      → Ensures (AreRules seen) (load_files fs documents texts root seen paths)
  unfolding load_files
  load_files-AreRules root seen [] = Ensures-ok (tt, refl, tt)
  load_files-AreRules root seen (path ∷ paths) =
      Ensures-bind (IsRule texts) (load_file-IsRule root path) λ rule v.
        let relative = relative_path root path in
        add_rule-AreRules seen rule relative (lookup rule.id seen)
          (load_files fs documents texts root ((rule.id, relative) ∷ seen) paths) refl v
          (load_files-AreRules root ((rule.id, relative) ∷ seen) paths)

  -- Every rule that `load_detection_rules` returns passes the validator of its model and the semantic
  -- checks, and no two of the rules have one identity, whatever the file system and its documents.
  pub load_detection_rules-AreRules :
      (fuel : ℕ) (rule_root : FilePath) (rules : List DetectionRule)
      → load_detection_rules fs documents texts fuel rule_root ≡ ok rules
      → All (IsRule texts) rules × (is_unique (ids rules) ≡ true)
  unfolding load_detection_rules
  load_detection_rules-AreRules fuel rule_root rules h =
      let (vs, unique, new) =
        Ensures-eq-ok {P = AreRules []}
          (Ensures-guard (is_absolute rule_root) (fails "." "absolute_root_required") λ h.
            Ensures-bind Any (Any-holds (or_fail (fails "." "invalid_root") (fs.resolve rule_root)))
              λ root h.
                Ensures-bind Any (Any-holds (or_fail (fails "." "invalid_root") (fs.is_dir root)))
                  λ found h. Ensures-guard found (fails "." "invalid_root") λ h.
                    Ensures-bind Any (Any-holds (discover fs fuel root))
                      λ paths h. load_files-AreRules root [] paths)
          h in
      (vs, unique)
