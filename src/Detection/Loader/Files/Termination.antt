-- ===== src/Detection/Loader/Files/Termination.antt =====
-- The steps of `_discover` end, and add no more directories than there are entries.
use mathlib.Core.List.{Permᴰ}
use soc_investigation_lab.Common.{
  ℕ, suc, ◌+◌, ◌≤◌, String, ◌≡◌, refl, Bool, true, false, not, Option, none, some, List, [], ◌∷◌,
  ◌++◌, Result, ok, err, ◌>>=◌, guard, arith, Bool-cases, inl, inr, Ensures, Ensures-ok,
  Ensures-bind, Ensures-guard, Ensures-map, Any, Any-holds, ◌==◌, string_eq,
}
use soc_investigation_lab.Python.FilePath.{FilePath, join, relative_to}
use soc_investigation_lab.Detection.Loader.Files.{
  FileKind, FileSystem, Failure, failed, out_of_fuel, fails, or_fail, relative_path, is_directory,
  is_redirect, is_some, outside_root, shown, check_component, check_components, check_parts,
  is_regular, is_yaml, Found, checked_path, classify, visit,
}

-- The call did not run out of fuel.
abbrev pub FinishesAt {ℓ} : {A : Type ℓ} → Result Failure A → Type 0
FinishesAt (ok a) = Unit
FinishesAt (err (failed e)) = Unit
FinishesAt (err out_of_fuel) = ⊥

pub record Finishes {ℓ} {A : Type ℓ} (r : Result Failure A) : Type 0 where
  pub outcome : FinishesAt r

module _ {ℓ} {A : Type ℓ} where
  pub Finishes-ok : {a : A} → Finishes (ok a)
  Finishes-ok = record { outcome = tt }

  pub Finishes-or_fail :
      (relative category : String) (o : Option A) → Finishes (or_fail (fails relative category) o)
  Finishes-or_fail relative category none = record { outcome = tt }
  Finishes-or_fail relative category (some a) = Finishes-ok

pub Finishes-bind {ℓ κ} :
    {A : Type ℓ} {B : Type κ} {m : Result Failure A} {f : A → Result Failure B}
    → Finishes m
    → ((a : A) → Finishes (f a))
    → Finishes (m >>= f)
Finishes-bind {m = ok a} h k = k a
Finishes-bind {m = err (failed e)} h k = record { outcome = tt }
Finishes-bind {m = err out_of_fuel} h k = absurd h.outcome

pub Finishes-err {ℓ κ} :
    {A : Type ℓ} {B : Type κ} {x : Failure} → Finishes {A = A} (err x) → Finishes {A = B} (err x)
Finishes-err {x = failed e} h = record { outcome = tt }
Finishes-err {x = out_of_fuel} h = absurd h.outcome

Finishes-guard :
    (b : Bool) (relative category : String) → Finishes (guard b (fails relative category))
Finishes-guard true relative category = Finishes-ok
Finishes-guard false relative category = record { outcome = tt }

-- The number of the paths of a list and of what is below them.
abbrev pub total : (FilePath → ℕ) → List FilePath → ℕ
total size [] = 0
total size (path ∷ paths) = suc (size path) + total size paths

pub total-append :
    (size : FilePath → ℕ) (xs ys : List FilePath)
    → total size (xs ++ ys) ≡ total size xs + total size ys
total-append size [] ys = omega arith
total-append size (x ∷ xs) ys = omega (arith, total-append size xs ys)

pub total-perm :
    (size : FilePath → ℕ) {xs ys : List FilePath} → Permᴰ xs ys → total size xs ≡ total size ys
total-perm size Permᴰ.nil = refl
total-perm size (Permᴰ.cons e p) = rw (e, total-perm size p) refl
total-perm size (Permᴰ.swap e f) = rw (e, f) (omega arith)
total-perm size (Permᴰ.trans p q) = rw (total-perm size p) (total-perm size q)

classify-Finishes :
    (root entry : FilePath) (kind : FileKind) (rest : Result Failure Found)
    → Finishes rest
    → Finishes (classify root entry kind rest)
unfolding classify
classify-Finishes root entry kind rest h = elim (Bool-cases (is_directory kind)) [
  | inl dir ↦ rw dir (Finishes-bind h λ found. Finishes-ok)
  | inr other ↦ elim (Bool-cases (is_yaml entry)) [
    | inl named ↦
        rw (other, named)
          (Finishes-bind
            (Finishes-guard (is_regular kind) (relative_path root entry) "not_regular_file")
            λ u. Finishes-bind h λ found. Finishes-ok)
    | inr unnamed ↦ rw (other, unnamed) h
  ]
]

-- A directory more, a file more, or nothing more.
classify-total :
    (size : FilePath → ℕ) (n : ℕ) (root entry : FilePath) (kind : FileKind)
    (rest : Result Failure Found)
    → Ensures (λ found. total size found.directories ≤ n) rest
    → Ensures
        (λ found. total size found.directories ≤ suc (size entry) + n)
        (classify root entry kind rest)
unfolding classify
classify-total size n root entry kind rest h = elim (Bool-cases (is_directory kind)) [
  | inl dir ↦ rw dir (
      Ensures-bind (λ found. total size found.directories ≤ n) h
        λ found k. Ensures-ok (omega (arith, k)))
  | inr other ↦ elim (Bool-cases (is_yaml entry)) [
    | inl named ↦
        rw (other, named)
          (Ensures-guard (is_regular kind) (fails (relative_path root entry) "not_regular_file")
            λ regular.
              Ensures-bind (λ found. total size found.directories ≤ n) h
                λ found k. Ensures-ok (omega (arith, k)))
    | inr unnamed ↦ rw (other, unnamed) (Ensures-map (λ found k. omega (arith, k)) h)
  ]
]

module _ (fs : FileSystem) (root : FilePath) where
  check_component-Finishes :
      (relative : String) (current : FilePath) → Finishes (check_component fs relative current)
  unfolding check_component
  check_component-Finishes relative current =
      Finishes-bind (Finishes-or_fail relative "path_error" (fs.lstat current))
        λ metadata. Finishes-guard (not (is_redirect metadata)) relative "unsafe_path"

  check_components-Finishes :
      (relative : String) (current : FilePath) (parts : List String)
      → Finishes (check_components fs relative current parts)
  unfolding check_components
  check_components-Finishes relative current [] = check_component-Finishes relative current
  check_components-Finishes relative current (part ∷ parts) =
      Finishes-bind (check_component-Finishes relative current)
        λ u. check_components-Finishes relative (join current part) parts

  check_parts-Finishes :
      (path : FilePath) (o : Option (List String)) → Finishes (check_parts fs root path o)
  unfolding check_parts
  check_parts-Finishes path none = record { outcome = tt }
  check_parts-Finishes path (some parts) =
      let relative = shown (some parts) in
      Finishes-bind (Finishes-guard (not (relative == outside_root)) relative "unsafe_path") λ u.
        Finishes-bind (check_components-Finishes relative root parts) λ u.
          Finishes-bind (Finishes-or_fail relative "path_error" (fs.resolve path)) λ resolved.
            Finishes-bind
              (Finishes-guard (is_some (relative_to root resolved)) relative "unsafe_path")
              λ u. Finishes-ok

  pub checked_path-Finishes : (path : FilePath) → Finishes (checked_path fs root path)
  unfolding checked_path
  checked_path-Finishes path = check_parts-Finishes path (relative_to root path)

  pub visit-Finishes : (entries : List FilePath) → Finishes (visit fs root entries)
  unfolding visit
  visit-Finishes [] = Finishes-ok
  visit-Finishes (entry ∷ entries) = Finishes-bind (checked_path-Finishes entry) λ checked.
      Finishes-bind (Finishes-or_fail (relative_path root entry) "path_error" (fs.lstat checked))
        λ metadata.
          classify-Finishes root entry metadata.kind (visit fs root entries)
            (visit-Finishes entries)

  pub visit-total :
      (size : FilePath → ℕ) (entries : List FilePath)
      → Ensures (λ found. total size found.directories ≤ total size entries) (visit fs root entries)
  unfolding visit
  visit-total size [] = Ensures-ok (omega arith)
  visit-total size (entry ∷ entries) =
      Ensures-bind Any (Any-holds (checked_path fs root entry)) λ checked h.
        Ensures-bind Any
          (Any-holds (or_fail (fails (relative_path root entry) "path_error") (fs.lstat checked)))
          λ metadata h.
            classify-total size (total size entries) root entry metadata.kind
              (visit fs root entries) (visit-total size entries)
