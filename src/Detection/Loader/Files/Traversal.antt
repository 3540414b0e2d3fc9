-- ===== src/Detection/Loader/Files/Traversal.antt =====
-- The worklist of `_discover` against a traversal by recursion.
use mathlib.Core.List.{append-nil, append_assoc}
use soc_investigation_lab.Common.{
  ℕ, zero, suc, ◌≤◌, ◌<◌, ◌≡◌, refl, ap, sym, ◌∙◌, some, List, [], ◌∷◌, ◌++◌, Result, ok, err,
  ◌>>=◌, arith, All, All-append, All-map, inl, inr, Result-cases, Option-cases,
}
use soc_investigation_lab.Python.Sorted.{sorted}
use soc_investigation_lab.Python.FilePath.{FilePath}
use soc_investigation_lab.Detection.Loader.Files.{
  FileSystem, Failure, out_of_fuel, fails, or_fail, relative_path, name_leb, path_leb, checked_path,
  visit, discover_from, discover,
}
use soc_investigation_lab.Detection.Loader.Files.Termination.{total, total-append}
use soc_investigation_lab.Detection.Loader.Files.Fuel.{found-total}

-- The results of a call on each item, in their order, or the first error.
abbrev pub each {ℓ} :
    {A B : Type ℓ} → (A → Result Failure (List B)) → List A → Result Failure (List B)
each f [] = ok []
each f (x ∷ xs) = do ys ← f x; zs ← each f xs; ok (ys ++ zs)

each-same {ℓ} :
    {A B : Type ℓ} (f g : A → Result Failure (List B)) (xs : List A)
    → All (λ x. f x ≡ g x) xs
    → each f xs ≡ each g xs
each-same f g [] h = refl
each-same f g (x ∷ xs) (h, hs) = rw (h, each-same f g xs hs) refl

each-append {ℓ} :
    {A B : Type ℓ} (f : A → Result Failure (List B)) (xs ys : List A)
    → each f (xs ++ ys) ≡ (each f xs >>= λ us. each f ys >>= λ bs. ok (us ++ bs))
each-append f [] ys = elim (Result-cases (each f ys)) [
  | inl (bs, e) ↦ rw e refl
  | inr (x, e) ↦ rw e refl
]
each-append f (x ∷ xs) ys = elim (Result-cases (f x)) [
  | inr (bad, e) ↦ rw e refl
  | inl (us, e) ↦ elim (Result-cases (each f xs)) [
    | inr (bad, es) ↦ rw (each-append f xs ys, e, es) refl
    | inl (bs, es) ↦ elim (Result-cases (each f ys)) [
      | inr (bad, fs) ↦ rw (each-append f xs ys, e, es, fs) refl
      | inl (cs, fs) ↦ rw (each-append f xs ys, e, es, fs) (ap ok (sym (append_assoc us bs cs)))
    ]
  ]
]

-- Each path of a list is smaller than a bound on their total.
total-All :
    (size : FilePath → ℕ) (n : ℕ) (paths : List FilePath)
    → total size paths ≤ n
    → All (λ path. size path < n) paths
total-All size n [] h = tt
total-All size n (path ∷ paths) h = (omega (arith, h), total-All size n paths (omega (arith, h)))

-- The files so far, those of a directory, those below it, and the others.
regroup {ℓ} :
    {A : Type ℓ} (files own : List A) (r s : Result Failure (List A))
    → ((r >>= λ us. s >>= λ vs. ok (us ++ vs)) >>= λ more. ok ((files ++ own) ++ more)) ≡ (
        ((r >>= λ below. ok (own ++ below)) >>= λ us. s >>= λ vs. ok (us ++ vs)) >>= λ more.
        ok (files ++ more))
regroup files own (err x) s = refl
regroup files own (ok us) (err x) = refl
regroup files own (ok us) (ok vs) =
    ap ok
      (append_assoc files own (us ++ vs) ∙ ap (λ end. files ++ end) (sym (append_assoc own us vs)))

module _ (fs : FileSystem) (root : FilePath) where
  -- The files of a directory, and then those of each of its directories.
  unfoldable pub walk : ℕ → FilePath → Result Failure (List FilePath)
  walk zero d = err out_of_fuel
  walk (suc depth) d = do
    checked ← checked_path fs root d
    entries ← or_fail (fails (relative_path root d) "read_error") (fs.iterdir checked)
    found ← visit fs root (sorted name_leb entries)
    below ← each (walk depth) found.directories
    ok (found.files ++ below)

module _ (fs : FileSystem) (root : FilePath) (size : FilePath → ℕ)
    (finite : (d resolved : FilePath) (entries : List FilePath)
      → checked_path fs root d ≡ ok resolved
      → fs.iterdir resolved ≡ some entries
      → total size entries ≤ size d) where
  -- More depth than the size of a directory changes nothing.
  walk-stable :
      (m n : ℕ) (d : FilePath) → size d < m → size d < n → walk fs root m d ≡ walk fs root n d
  unfolding walk
  walk-stable zero n d h k = absurd (omega (arith, h))
  walk-stable (suc m) zero d h k = absurd (omega (arith, k))
  walk-stable (suc m) (suc n) d h k = elim (Result-cases (checked_path fs root d)) [
    | inr (x, e) ↦ rw e refl
    | inl (resolved, e) ↦ elim (Option-cases (fs.iterdir resolved)) [
      | inl lost ↦ rw (e, lost) refl
      | inr (entries, listed) ↦ elim (Result-cases (visit fs root (sorted name_leb entries))) [
        | inr (x, bad) ↦ rw (e, listed, bad) refl
        | inl (found, visited) ↦
            let below = found-total fs root size finite d resolved entries found e listed visited in
            let smaller = total-All size (size d) found.directories below in
            let same =
              All-map found.directories
                (λ child less.
                  walk-stable m n child (omega (arith, less, h)) (omega (arith, less, k)))
                smaller in
            rw
              (
                e,
                listed,
                visited,
                each-same (walk fs root m) (walk fs root n) found.directories same,
              )
              refl
      ]
    ]
  ]

  split_pending :
      (m n : ℕ) (ds pending : List FilePath)
      → All (λ d. walk fs root m d ≡ walk fs root n d) ds
      → each (walk fs root m) (ds ++ pending)
        ≡ (each (walk fs root n) ds >>= λ us. each (walk fs root m) pending >>= λ bs. ok (us ++ bs))
  split_pending m n ds pending same =
      each-append (walk fs root m) ds pending
      ∙ rw (each-same (walk fs root m) (walk fs root n) ds same) refl

  -- The worklist gives the files so far, and those of each pending directory.
  discover_from-walk :
      (fuel depth : ℕ) (pending files : List FilePath)
      → total size pending ≤ fuel
      → All (λ d. size d < depth) pending
      → discover_from fs fuel root pending files
        ≡ (each (walk fs root depth) pending >>= λ more. ok (files ++ more))
  unfolding discover_from walk
  discover_from-walk fuel depth [] files h small = ap ok (sym (append-nil files))
  discover_from-walk zero depth (d ∷ pending) files h small = absurd (omega (arith, h))
  discover_from-walk (suc fuel) zero (d ∷ pending) files h (less, small) =
      absurd (omega (arith, less))
  discover_from-walk (suc fuel) (suc depth) (d ∷ pending) files h (less, small) =
      elim (Result-cases (checked_path fs root d)) [
        | inr (x, e) ↦ rw e refl
        | inl (resolved, e) ↦ elim (Option-cases (fs.iterdir resolved)) [
          | inl lost ↦ rw (e, lost) refl
          | inr (entries, listed) ↦ elim (Result-cases (visit fs root (sorted name_leb entries))) [
            | inr (x, bad) ↦ rw (e, listed, bad) refl
            | inl (found, visited) ↦
                let below =
                  found-total fs root size finite d resolved entries found e listed visited in
                let smaller = total-All size (size d) found.directories below in
                let more = total-append size found.directories pending in
                let shallow : All (λ child. size child < suc depth) found.directories =
                  All-map found.directories (λ child lower. omega (arith, lower, less)) smaller in
                let same =
                  All-map found.directories
                    (λ child lower.
                      walk-stable (suc depth) depth child (omega (arith, lower, less))
                        (omega (arith, lower, less)))
                    smaller in
                let steps =
                  discover_from-walk fuel (suc depth) (found.directories ++ pending)
                    (files ++ found.files) (omega (arith, h, below, more))
                    (All-append (λ child. size child < suc depth) found.directories pending shallow
                      small) in
                rw (e, listed, visited)
                  (steps
                    ∙ ap (λ r. r >>= λ more. ok ((files ++ found.files) ++ more))
                        (split_pending (suc depth) depth found.directories pending same)
                    ∙ regroup files found.files (each (walk fs root depth) found.directories)
                        (each (walk fs root (suc depth)) pending))
          ]
        ]
      ]

  -- On a finite tree of directories, `discover` with more fuel than the size of the root gives exactly
  -- what a traversal by recursion gives, of more depth than that size: the files of each directory and
  -- then those of its directories, sorted, or the same error.
  pub discover-walk :
      (fuel depth : ℕ)
      → suc (size root) ≤ fuel
      → size root < depth
      → discover fs fuel root
        ≡ (walk fs root depth root >>= λ files. ok (sorted (path_leb root) files))
  unfolding discover
  discover-walk fuel depth h k =
      let steps = discover_from-walk fuel depth (root ∷ []) [] (omega (arith, h)) (k, tt) in
      elim (Result-cases (walk fs root depth root)) [
        | inr (x, e) ↦ rw (steps, e) refl
        | inl (files, e) ↦
            rw (steps, e) (ap (λ all. ok (sorted (path_leb root) all)) (append-nil files))
      ]
