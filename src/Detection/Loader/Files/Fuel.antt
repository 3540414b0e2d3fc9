-- ===== src/Detection/Loader/Files/Fuel.antt =====
-- `_discover` ends on a finite tree of directories.
use soc_investigation_lab.Common.{
  ℕ, zero, suc, ◌≤◌, ◌≡◌, refl, some, List, [], ◌∷◌, ◌++◌, Result, ok, err, arith, inl, inr,
  Result-cases, Option-cases, Ensures-eq-ok, subst,
}
use soc_investigation_lab.Python.Sorted.{sorted}
use soc_investigation_lab.Python.Sorted.Laws.{sorted-permᴰ}
use soc_investigation_lab.Python.FilePath.{FilePath}
use soc_investigation_lab.Detection.Loader.Files.{
  FileSystem, Failure, Found, name_leb, checked_path, visit, discover_from, discover,
}
use soc_investigation_lab.Detection.Loader.Files.Termination.{
  Finishes, Finishes-ok, Finishes-bind, total, total-append, total-perm, checked_path-Finishes,
  visit-Finishes, visit-total, Finishes-err,
}

-- The error of a call that finished.
err-Finishes :
    {A B : Type 0} (r : Result Failure A) {x : Failure}
    → Finishes r
    → r ≡ err x
    → Finishes {A = B} (err x)
err-Finishes r h e = Finishes-err (subst Finishes e h)

-- Both calls give one result, which is not that the fuel ran out.
abbrev pub Agree {ℓ} : {A : Type ℓ} → Result Failure A → Result Failure A → Type ℓ
Agree r s = (r ≡ s) × Finishes r

module _ (fs : FileSystem) (root : FilePath) (size : FilePath → ℕ)
    (finite : (d resolved : FilePath) (entries : List FilePath)
      → checked_path fs root d ≡ ok resolved
      → fs.iterdir resolved ≡ some entries
      → total size entries ≤ size d) where
  -- What is below the directories that were found is not more than what is below their parent.
  pub found-total :
      (d resolved : FilePath) (entries : List FilePath) (found : Found)
      → checked_path fs root d ≡ ok resolved
      → fs.iterdir resolved ≡ some entries
      → visit fs root (sorted name_leb entries) ≡ ok found
      → total size found.directories ≤ size d
  found-total d resolved entries found e listed visited =
      let below = Ensures-eq-ok (visit-total fs root size (sorted name_leb entries)) visited in
      omega (
        arith,
        below,
        total-perm size (sorted-permᴰ name_leb entries),
        finite d resolved entries e listed,
      )

  discover_from-Agree :
      (fuel fuel' : ℕ) (pending files : List FilePath)
      → total size pending ≤ fuel
      → total size pending ≤ fuel'
      → Agree (discover_from fs fuel root pending files) (discover_from fs fuel' root pending files)
  unfolding discover_from
  discover_from-Agree fuel fuel' [] files h k = (refl, Finishes-ok)
  discover_from-Agree zero fuel' (d ∷ pending) files h k = absurd (omega (arith, h))
  discover_from-Agree (suc fuel) zero (d ∷ pending) files h k = absurd (omega (arith, k))
  discover_from-Agree (suc fuel) (suc fuel') (d ∷ pending) files h k =
      elim (Result-cases (checked_path fs root d)) [
        | inr (x, e) ↦
            rw e (refl, err-Finishes (checked_path fs root d) (checked_path-Finishes fs root d) e)
        | inl (resolved, e) ↦ elim (Option-cases (fs.iterdir resolved)) [
          | inl lost ↦ rw (e, lost) (refl, record { outcome = tt })
          | inr (entries, listed) ↦ elim (Result-cases (visit fs root (sorted name_leb entries))) [
            | inr (x, bad) ↦
                rw (e, listed, bad)
                  (
                    refl,
                    err-Finishes (visit fs root (sorted name_leb entries))
                        (visit-Finishes fs root (sorted name_leb entries)) bad,
                  )
            | inl (found, visited) ↦
                let below = found-total d resolved entries found e listed visited in
                let more = total-append size found.directories pending in
                rw (e, listed, visited)
                  (discover_from-Agree fuel fuel' (found.directories ++ pending)
                    (files ++ found.files) (omega (arith, h, below, more))
                    (omega (arith, k, below, more)))
          ]
        ]
      ]

  -- If every directory that can be listed holds no more entries, with what is below them, than its
  -- size, then `discover` with more fuel than the size of the root finishes, with a list of files or
  -- an error of the loader, and any two such amounts of fuel give the same result.
  pub discover-Agree :
      (fuel fuel' : ℕ)
      → suc (size root) ≤ fuel
      → suc (size root) ≤ fuel'
      → (discover fs fuel root ≡ discover fs fuel' root) × Finishes (discover fs fuel root)
  unfolding discover
  discover-Agree fuel fuel' h k =
      let (same, finishes) =
        discover_from-Agree fuel fuel' (root ∷ []) [] (omega (arith, h)) (omega (arith, k)) in
      (rw same refl, Finishes-bind finishes λ files. Finishes-ok)
