-- ===== src/Detection/Loader/Files/Safety.antt =====
-- What is known of the files that `_discover` returns.
use mathlib.Core.List.Permᴰ
use soc_investigation_lab.Common.{
  ℕ, zero, suc, String, ◌≡◌, refl, Bool, true, false, not, Option, none, some, List, [], ◌∷◌, ◌++◌,
  Result, ok, guard, ◌==◌, string_eq, member, All, All-append, All-perm, Bool-cases, inl, inr,
  not-eq-true, Ensures, Ensures-ok, Ensures-err, Ensures-bind, Ensures-guard, Ensures-eq-ok,
  Ensures-map,
}
use soc_investigation_lab.Python.Sorted.{sorted}
use soc_investigation_lab.Python.Sorted.Laws.{sorted-permᴰ, IsSorted, sorted-IsSorted}
use soc_investigation_lab.Python.Keys.{key_leb_total, key_leb_trans}
use soc_investigation_lab.Python.FilePath.{FilePath, join, relative_to}
use soc_investigation_lab.Detection.Loader.Files.{
  Metadata, FileSystem, Failure, fails, or_fail, outside_root, shown, relative_path, is_directory,
  is_regular, is_redirect, is_some, is_yaml, Found, name_leb, path_leb, check_component,
  check_components, check_parts, checked_path, classify, visit, discover_from, discover,
}

or_fail-Ensures {ℓ} :
    {A : Type ℓ} {P : A → Type 0} (e : Failure) (o : Option A)
    → ((a : A) → o ≡ some a → P a)
    → Ensures P (or_fail e o)
or_fail-Ensures e none h = Ensures-err
or_fail-Ensures e (some a) h = Ensures-ok (h a refl)

guard-Ensures : (b : Bool) (e : Failure) → Ensures (λ u. b ≡ true) (guard b e)
guard-Ensures true e = Ensures-ok refl
guard-Ensures false e = Ensures-err

shown-inside :
    (parts : List String) → (shown (some parts) == outside_root) ≡ false → member ".." parts ≡ false
shown-inside parts h = elim (Bool-cases (member ".." parts)) [
  | inr inside ↦ inside
  | inl escape ↦ let lost : true ≡ false = rw escape at h in cc
]

module _ (fs : FileSystem) where
  -- The path is there, and neither a link nor a reparse point.
  abbrev pub IsPlain : FilePath → Type 0
  IsPlain path =
      (metadata : Metadata) × (fs.lstat path ≡ some metadata) × (is_redirect metadata ≡ false)

  -- So is each path from the first one along the parts.
  abbrev pub ArePlain : FilePath → List String → Type 0
  ArePlain current [] = IsPlain current
  ArePlain current (part ∷ parts) = IsPlain current × ArePlain (join current part) parts

  -- A path below the root, reached without a link, that resolves to a path below the root.
  pub record IsChecked (root path resolved : FilePath) : Type 0 where
    pub parts : List String
    pub below : relative_to root path ≡ some parts
    pub no_escape : member ".." parts ≡ false
    pub no_links : ArePlain root parts
    pub resolves : fs.resolve path ≡ some resolved
    pub inside : is_some (relative_to root resolved) ≡ true

  check_component-IsPlain :
      (relative : String) (current : FilePath)
      → Ensures (λ u. IsPlain current) (check_component fs relative current)
  unfolding check_component
  check_component-IsPlain relative current =
      Ensures-bind (λ metadata. fs.lstat current ≡ some metadata)
        (or_fail-Ensures (fails relative "path_error") (fs.lstat current) λ metadata e. e)
        λ metadata e.
          Ensures-map (λ u h. (metadata, e, not-eq-true (is_redirect metadata) h))
            (guard-Ensures (not (is_redirect metadata)) (fails relative "unsafe_path"))

  check_components-ArePlain :
      (relative : String) (current : FilePath) (parts : List String)
      → Ensures (λ u. ArePlain current parts) (check_components fs relative current parts)
  unfolding check_components
  check_components-ArePlain relative current [] = check_component-IsPlain relative current
  check_components-ArePlain relative current (part ∷ parts) =
      Ensures-bind (λ u. IsPlain current) (check_component-IsPlain relative current)
        λ u plain.
          Ensures-map (λ u h. (plain, h))
            (check_components-ArePlain relative (join current part) parts)

  check_parts-IsChecked :
      (root path : FilePath) (o : Option (List String))
      → relative_to root path ≡ o
      → Ensures (IsChecked root path) (check_parts fs root path o)
  unfolding check_parts
  check_parts-IsChecked root path none e = Ensures-err
  check_parts-IsChecked root path (some parts) e =
      let relative = shown (some parts) in
      Ensures-guard (not (relative == outside_root)) (fails relative "unsafe_path") λ named.
        Ensures-bind (λ u. ArePlain root parts) (check_components-ArePlain relative root parts)
          λ u plain.
            Ensures-bind (λ resolved. fs.resolve path ≡ some resolved)
              (or_fail-Ensures (fails relative "path_error") (fs.resolve path) λ resolved r. r)
              λ resolved r.
                Ensures-guard (is_some (relative_to root resolved)) (fails relative "unsafe_path")
                  λ inside. Ensures-ok (record {
                    parts = parts;
                    below = e;
                    no_escape = shown-inside parts (not-eq-true (relative == outside_root) named);
                    no_links = plain;
                    resolves = r;
                    inside = inside;
                  })

  pub checked_path-IsChecked :
      (root path : FilePath) → Ensures (IsChecked root path) (checked_path fs root path)
  unfolding checked_path
  checked_path-IsChecked root path = check_parts-IsChecked root path (relative_to root path) refl

  -- A regular file of YAML by its name, whose path was checked.
  pub record IsRuleFile (root path : FilePath) : Type 0 where
    pub resolved : FilePath
    pub checked : IsChecked root path resolved
    pub metadata : Metadata
    pub found : fs.lstat resolved ≡ some metadata
    pub regular : is_regular metadata.kind ≡ true
    pub named : is_yaml path ≡ true

  abbrev AreRuleFiles : FilePath → List FilePath → Type 0
  AreRuleFiles root = All (IsRuleFile root)

  classify-AreRuleFiles :
      (root entry resolved : FilePath) (metadata : Metadata) (rest : Result Failure Found)
      → IsChecked root entry resolved
      → fs.lstat resolved ≡ some metadata
      → Ensures (λ found. AreRuleFiles root found.files) rest
      → Ensures (λ found. AreRuleFiles root found.files) (classify root entry metadata.kind rest)
  unfolding classify
  classify-AreRuleFiles root entry resolved metadata rest checked e h =
      elim (Bool-cases (is_directory metadata.kind)) [
        | inl dir ↦
            rw dir
              (Ensures-bind (λ found. AreRuleFiles root found.files) h λ found fs. Ensures-ok fs)
        | inr other ↦ elim (Bool-cases (is_yaml entry)) [
          | inr unnamed ↦ rw (other, unnamed) h
          | inl named ↦
              rw (other, named)
                (Ensures-guard (is_regular metadata.kind)
                  (fails (relative_path root entry) "not_regular_file")
                  λ regular.
                    Ensures-bind (λ found. AreRuleFiles root found.files) h
                      λ found fs. Ensures-ok (
                        record {
                          resolved = resolved;
                          checked = checked;
                          metadata = metadata;
                          found = e;
                          regular = regular;
                          named = named;
                        },
                        fs,
                      ))
        ]
      ]

  visit-AreRuleFiles :
      (root : FilePath) (entries : List FilePath)
      → Ensures (λ found. AreRuleFiles root found.files) (visit fs root entries)
  unfolding visit
  visit-AreRuleFiles root [] = Ensures-ok tt
  visit-AreRuleFiles root (entry ∷ entries) =
      Ensures-bind (IsChecked root entry) (checked_path-IsChecked root entry) λ resolved checked.
        Ensures-bind (λ metadata. fs.lstat resolved ≡ some metadata)
          (or_fail-Ensures (fails (relative_path root entry) "path_error") (fs.lstat resolved)
            λ metadata e. e)
          λ metadata e.
            classify-AreRuleFiles root entry resolved metadata (visit fs root entries) checked e
              (visit-AreRuleFiles root entries)

  discover_from-AreRuleFiles :
      (fuel : ℕ) (root : FilePath) (pending files : List FilePath)
      → AreRuleFiles root files
      → Ensures (AreRuleFiles root) (discover_from fs fuel root pending files)
  unfolding discover_from
  discover_from-AreRuleFiles fuel root [] files h = Ensures-ok h
  discover_from-AreRuleFiles zero root (d ∷ pending) files h = Ensures-err
  discover_from-AreRuleFiles (suc fuel) root (d ∷ pending) files h =
      Ensures-bind (IsChecked root d) (checked_path-IsChecked root d) λ resolved checked.
        Ensures-bind (λ entries. fs.iterdir resolved ≡ some entries)
          (or_fail-Ensures (fails (relative_path root d) "read_error") (fs.iterdir resolved)
            λ entries e. e)
          λ entries e.
            Ensures-bind (λ found. AreRuleFiles root found.files)
              (visit-AreRuleFiles root (sorted name_leb entries))
              λ found more.
                discover_from-AreRuleFiles fuel root (found.directories ++ pending)
                  (files ++ found.files) (All-append (IsRuleFile root) files found.files h more)

  -- Every file that `_discover` returns is a regular file named `*.yaml` or `*.yml`, whose path is
  -- below the root without a `..`, is no link and no reparse point at any of its components, and
  -- resolves to a path below the root; and the files are in ascending order of their relative paths.
  pub discover-IsRuleFile :
      (fuel : ℕ) (root : FilePath) (files : List FilePath)
      → discover fs fuel root ≡ ok files
      → All (IsRuleFile root) files × IsSorted (path_leb root) files
  unfolding discover
  discover-IsRuleFile fuel root files h =
      Ensures-eq-ok {P = λ files. All (IsRuleFile root) files × IsSorted (path_leb root) files}
        (Ensures-bind (AreRuleFiles root) (discover_from-AreRuleFiles fuel root (root ∷ []) [] tt)
          λ found safe. Ensures-ok (
            All-perm (IsRuleFile root) (Permᴰ.symm (sorted-permᴰ (path_leb root) found)) safe,
            sorted-IsSorted (path_leb root) (key_leb_total (relative_path root))
                (key_leb_trans (relative_path root)) found,
          ))
        h
