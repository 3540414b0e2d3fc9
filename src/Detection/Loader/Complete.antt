-- ===== src/Detection/Loader/Complete.antt =====
-- No rule of a library is lost.
use soc_investigation_lab.Common.{
  Bool, Bool-cases, none, Among, ◌⊎◌, inl, inr, ◌||◌, arith, err, beq_refl, Option-cases,
  true-false, ℕ, String, ◌≡◌, refl, true, false, not, some, List, [], ◌∷◌, ok, and-eq-true,
  or-eq-false, not-eq-true, lookup, string_eq, ◌==◌, beq_sym, member, is_unique,
}
use soc_investigation_lab.Python.FilePath.{FilePath, is_absolute}
use soc_investigation_lab.Models.Rule.{DetectionRule}
use soc_investigation_lab.Detection.Errors.{duplicate_rule_id}
use soc_investigation_lab.Detection.Semantics.{TextParsers}
use soc_investigation_lab.Detection.Engine.Order.{ids}
use soc_investigation_lab.Detection.Loader.Files.{failed, FileSystem, relative_path, discover}
use soc_investigation_lab.Detection.Loader.Documents.{RuleDocuments}
use soc_investigation_lab.Detection.Loader.Library.{AreNew, AreNew-cons}
use soc_investigation_lab.Detection.Loader.{load_file, load_files, load_detection_rules}

-- Identities that are new stay new beside another identity.
AreNew-snoc :
    (name path : String) (seen : List (String × String)) (rs : List DetectionRule)
    → member name (ids rs) ≡ false
    → AreNew seen rs
    → AreNew ((name, path) ∷ seen) rs
unfolding lookup
AreNew-snoc name path seen [] h hs = tt
AreNew-snoc name path seen (r ∷ rs) h (k, ks) =
    let (other, others) = or-eq-false (name == r.id) (member name (ids rs)) h in
    (rw (beq_sym r.id name, other) k, AreNew-snoc name path seen rs others ks)

AreNew-nil : (rs : List DetectionRule) → AreNew [] rs
unfolding lookup
AreNew-nil [] = tt
AreNew-nil (r ∷ rs) = (refl, AreNew-nil rs)

or_true : (b : Bool) → (b || true) ≡ true
or_true b = ground arith

-- The identities of the rules, with the paths of their files.
abbrev pub entries : FilePath → List FilePath → List DetectionRule → List (String × String)
entries root (path ∷ paths) (rule ∷ rules) =
    (rule.id, relative_path root path) ∷ entries root paths rules
entries root _ _ = []

-- The identity is at the first path, and at the other in a later entry.
abbrev pub Repeats : String → String → String → List (String × String) → Type 0
Repeats id first later [] = ⊥
Repeats id first later (entry ∷ es) =
    ((entry ≡ (id, first)) × Among (id, later) es) ⊎ Repeats id first later es

-- The identity was seen, or is repeated.
abbrev SeenOrRepeats :
    String → String → String → List (String × String) → List (String × String) → Type 0
SeenOrRepeats id first later seen es =
    ((lookup id seen ≡ some first) × Among (id, later) es) ⊎ Repeats id first later es

repeats-cons :
    (id first later rule_id relative : String) (seen es : List (String × String))
    → SeenOrRepeats id first later ((rule_id, relative) ∷ seen) es
    → SeenOrRepeats id first later seen ((rule_id, relative) ∷ es)
unfolding lookup
repeats-cons id first later rule_id relative seen es (inr again) = inr (inr again)
repeats-cons id first later rule_id relative seen es (inl (found, among)) =
    elim (Bool-cases (id == rule_id)) [
      | inl same ↦
          let found : some relative ≡ some first = rw same at found in
          let path : relative ≡ first = cc in
          let equal : id ≡ rule_id = (string_eq.beq_iff id rule_id).0 same in
          inr (inl (rw (equal, path) refl, among))
      | inr other ↦ let found = rw other at found in inl (found, inr among)
    ]

not_seen-Repeats :
    (id first later : String) (es : List (String × String))
    → SeenOrRepeats id first later [] es
    → Repeats id first later es
unfolding lookup
not_seen-Repeats id first later es (inl (found, among)) = let no : none ≡ some first = found in cc
not_seen-Repeats id first later es (inr again) = again

module _ {D : Type 0} (fs : FileSystem) (documents : RuleDocuments D) (texts : TextParsers) where
  -- The rules of the files, one of each.
  abbrev pub AreLoaded : FilePath → List FilePath → List DetectionRule → Type 0
  AreLoaded root [] [] = Unit
  AreLoaded root (path ∷ paths) (rule ∷ rules) =
      (load_file fs documents texts root path ≡ ok rule) × AreLoaded root paths rules
  AreLoaded root _ _ = ⊥

  load_files_complete :
      (root : FilePath) (seen : List (String × String)) (paths : List FilePath)
      (rules : List DetectionRule)
      → AreLoaded root paths rules
      → is_unique (ids rules) ≡ true
      → AreNew seen rules
      → load_files fs documents texts root seen paths ≡ ok rules
  unfolding load_files
  load_files_complete root seen [] [] h unique new = refl
  load_files_complete root seen (path ∷ paths) (rule ∷ rules) (h, hs) unique (new, news) =
      let (apart, others) =
        and-eq-true (not (member rule.id (ids rules))) (is_unique (ids rules)) unique in
      let relative = relative_path root path in
      let later =
        AreNew-snoc rule.id relative seen rules (not-eq-true (member rule.id (ids rules)) apart)
          news in
      let rest =
        load_files_complete root ((rule.id, relative) ∷ seen) paths rules hs others later in
      rw (h, new, rest) refl
  load_files_complete root seen [] (rule ∷ rules) h unique new = absurd h
  load_files_complete root seen (path ∷ paths) [] h unique new = absurd h

  -- For an absolute root that resolves to a directory, whose files are discovered and each load, with
  -- different identities, `load_detection_rules` returns exactly the rules of these files, one of
  -- each, in the order of the files.
  pub load_detection_rules_complete :
      (fuel : ℕ) (rule_root root : FilePath) (paths : List FilePath) (rules : List DetectionRule)
      → is_absolute rule_root ≡ true
      → fs.resolve rule_root ≡ some root
      → fs.is_dir root ≡ some true
      → discover fs fuel root ≡ ok paths
      → AreLoaded root paths rules
      → is_unique (ids rules) ≡ true
      → load_detection_rules fs documents texts fuel rule_root ≡ ok rules
  unfolding load_detection_rules
  load_detection_rules_complete fuel rule_root root paths rules absolute resolves is_dir found
        loaded unique =
      rw (absolute, resolves, is_dir, found)
        (load_files_complete root [] paths rules loaded unique (AreNew-nil rules))

  -- Either the identities are new and different, or the error names one of them, with the path that
  -- it was seen at and the path of a later file.
  load_files-cases :
      (root : FilePath) (seen : List (String × String)) (paths : List FilePath)
      (rules : List DetectionRule)
      → AreLoaded root paths rules
      → (AreNew seen rules × (is_unique (ids rules) ≡ true))
        ⊎ ((id : String) × (first : String) × (relative : String) × (load_files fs documents texts
                root seen paths
              ≡ err (failed (duplicate_rule_id id first relative)))
            × (member id (ids rules) ≡ true)
            × SeenOrRepeats id first relative seen (entries root paths rules))
  unfolding load_files
  load_files-cases root seen [] [] h = inl (tt, refl)
  load_files-cases root seen [] (rule ∷ rules) h = absurd h
  load_files-cases root seen (path ∷ paths) [] h = absurd h
  load_files-cases root seen (path ∷ paths) (rule ∷ rules) (h, hs) =
      let relative = relative_path root path in
      elim (Option-cases (lookup rule.id seen)) [
        | inr (first, again) ↦ inr (
          rule.id,
          first,
          relative,
          rw (h, again) refl,
          rw (beq_refl rule.id) refl,
          inl (again, inl refl),
        )
        | inl new ↦ elim (load_files-cases root ((rule.id, relative) ∷ seen) paths rules hs) [
          | inl (news, unique) ↦
              let (apart, older) = AreNew-cons rule.id relative seen rules news in
              inl ((new, older), rw (apart, unique) refl)
          | inr (id, first, later, e, named, at) ↦ inr (
            id,
            first,
            later,
            rw (h, new, e) refl,
            rw named (or_true (id == rule.id)),
            repeats-cons id first later rule.id relative seen (entries root paths rules) at,
          )
        ]
      ]

  -- For an absolute root that resolves to a directory, whose files are discovered and each load, but
  -- whose rules repeat an identity, `load_detection_rules` returns no rule: it fails with a duplicate
  -- identity, which is that of one of the rules, and with the relative paths of two files, the first
  -- before the second, whose rules have it.
  pub load_detection_rules_duplicate :
      (fuel : ℕ) (rule_root root : FilePath) (paths : List FilePath) (rules : List DetectionRule)
      → is_absolute rule_root ≡ true
      → fs.resolve rule_root ≡ some root
      → fs.is_dir root ≡ some true
      → discover fs fuel root ≡ ok paths
      → AreLoaded root paths rules
      → is_unique (ids rules) ≡ false
      → (id : String) × (first : String) × (relative : String) × (load_detection_rules fs documents
            texts fuel rule_root
          ≡ err (failed (duplicate_rule_id id first relative)))
        × (member id (ids rules) ≡ true)
        × Repeats id first relative (entries root paths rules)
  unfolding load_detection_rules
  load_detection_rules_duplicate fuel rule_root root paths rules absolute resolves is_dir found
        loaded repeated =
      elim (load_files-cases root [] paths rules loaded) [
        | inl (news, unique) ↦ absurd (true-false unique repeated)
        | inr (id, first, relative, e, named, at) ↦ (
          id,
          first,
          relative,
          rw (absolute, resolves, is_dir, found) e,
          named,
          not_seen-Repeats id first relative (entries root paths rules) at,
        )
      ]
