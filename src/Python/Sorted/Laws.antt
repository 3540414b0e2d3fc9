-- ===== src/Python/Sorted/Laws.antt =====
-- `sorted` returns an ascending rearrangement of its input, and its result depends on the order of
-- the input only among items that may stand either way.
use mathlib.Core.List.{Permᴰ}
use mathlib.Core.List.Permᴰ
use soc_investigation_lab.Common.{
  ◌≡◌, refl, ◌∙◌, subst, inl, inr, Bool, true, false, List, [], ◌∷◌, arith, Bool-cases, All,
  All-perm,
}
use soc_investigation_lab.Python.Sorted.{insort, sorted}

module _ {ℓ} {A : Type ℓ} (leb : A → A → Bool) where
  -- Every earlier item may stand before every later one.
  abbrev pub IsSorted : List A → Type 0
  IsSorted [] = Unit
  IsSorted (x ∷ xs) = All (λ y. leb x y ≡ true) xs × IsSorted xs

  -- The item may not stand both before and after another.
  abbrev pub IsUnlike : A → List A → Type 0
  IsUnlike x = All (λ y. (leb x y ≡ true → leb y x ≡ true → ⊥))

  -- No two items of the list may stand either way: their keys are all different.
  abbrev pub IsStrict : List A → Type 0
  IsStrict [] = Unit
  IsStrict (x ∷ xs) = IsUnlike x xs × IsStrict xs

  insort-permᴰ : (x : A) (xs : List A) → Permᴰ (insort leb x xs) (x ∷ xs)
  unfolding insort
  insort-permᴰ x [] = Permᴰ.refl _
  insort-permᴰ x (y ∷ ys) = elim (Bool-cases (leb x y)) [
    | inl h ↦ rw h (Permᴰ.refl _)
    | inr h ↦ rw h (Permᴰ.trans (Permᴰ.cons refl (insort-permᴰ x ys)) (Permᴰ.swap refl refl))
  ]

  pub sorted-permᴰ : (xs : List A) → Permᴰ (sorted leb xs) xs
  unfolding sorted
  sorted-permᴰ [] = Permᴰ.nil
  sorted-permᴰ (x ∷ xs) =
      Permᴰ.trans (insort-permᴰ x (sorted leb xs)) (Permᴰ.cons refl (sorted-permᴰ xs))

module _ {ℓ} {A : Type ℓ} (leb : A → A → Bool)
    (total : (a b : A) → leb a b ≡ false → leb b a ≡ true)
    (trans : (a b c : A) → leb a b ≡ true → leb b c ≡ true → leb a c ≡ true) where
  All-trans :
      (x y : A) (ys : List A)
      → leb x y ≡ true
      → All (λ z. leb y z ≡ true) ys
      → All (λ z. leb x z ≡ true) ys
  All-trans x y [] h hs = tt
  All-trans x y (z ∷ ys) h (k, hs) = (trans x y z h k, All-trans x y ys h hs)

  insort-IsSorted : (x : A) (xs : List A) → IsSorted leb xs → IsSorted leb (insort leb x xs)
  unfolding insort
  insort-IsSorted x [] s = (tt, tt)
  insort-IsSorted x (y ∷ ys) (below, s) = elim (Bool-cases (leb x y)) [
    | inl h ↦ rw h ((h, All-trans x y ys h below), (below, s))
    | inr h ↦ rw h (
      All-perm _ (Permᴰ.symm (insort-permᴰ leb x ys)) (total x y h, below),
      insort-IsSorted x ys s,
    )
  ]

  -- The result is ascending.
  pub sorted-IsSorted : (xs : List A) → IsSorted leb (sorted leb xs)
  unfolding sorted
  sorted-IsSorted [] = tt
  sorted-IsSorted (x ∷ xs) = insort-IsSorted x (sorted leb xs) (sorted-IsSorted xs)

  insort_comm :
      (x y : A) (zs : List A)
      → (leb x y ≡ true → leb y x ≡ true → ⊥)
      → insort leb x (insort leb y zs) ≡ insort leb y (insort leb x zs)
  unfolding insort
  insort_comm x y [] n = ground (arith, n, total x y, total y x)
  insort_comm x y (z ∷ zs) n = ground (
    arith,
    insort_comm x y zs n,
    n,
    total x y,
    total y x,
    total x z,
    total y z,
    trans x y z,
    trans y x z,
  )

  pub IsStrict-perm : {xs ys : List A} → Permᴰ xs ys → IsStrict leb xs → IsStrict leb ys
  IsStrict-perm Permᴰ.nil s = s
  IsStrict-perm (Permᴰ.cons {l₂ = l} e p) (h, s) =
      (subst (λ x. IsUnlike leb x l) e (All-perm _ p h), IsStrict-perm p s)
  IsStrict-perm (Permᴰ.swap {l = l} e f) ((h, hs), (k, s)) = (
    (rw (← f, ← e) (λ p q. h q p), subst (λ x. IsUnlike leb x l) f k),
    (subst (λ x. IsUnlike leb x l) e hs, s),
  )
  IsStrict-perm (Permᴰ.trans p q) s = IsStrict-perm q (IsStrict-perm p s)

  -- With all keys different, the order of the input does not matter.
  pub sorted-perm : {xs ys : List A} → Permᴰ xs ys → IsStrict leb xs → sorted leb xs ≡ sorted leb ys
  unfolding sorted
  sorted-perm Permᴰ.nil s = refl
  sorted-perm (Permᴰ.cons e p) (h, s) = cc (e, sorted-perm p s)
  sorted-perm (Permᴰ.swap {a = a} {b = b} {l = l} e f) ((h, hs), (k, s)) =
      insort_comm a b (sorted leb l) h ∙ cc (e, f)
  sorted-perm (Permᴰ.trans p q) s = sorted-perm p s ∙ sorted-perm q (IsStrict-perm p s)
