-- ===== src/Python/Sorted.antt =====
-- `sorted(items, key=...)`: a stable sort by a test `leb a b` that says that `a` may stand before
-- `b`.
pub mod Laws
use soc_investigation_lab.Common.{Bool, List, [], ◌∷◌, if◌then◌else◌}

module _ {ℓ} {A : Type ℓ} (leb : A → A → Bool) where
  -- Equal keys keep their order: an item goes in front of those that it may precede.
  unfoldable pub insort : A → List A → List A
  insort x [] = x ∷ []
  insort x (y ∷ ys) = if leb x y then x ∷ y ∷ ys else y ∷ insort x ys

  unfoldable pub sorted : List A → List A
  unfolding insort
  sorted [] = []
  sorted (x ∷ xs) = insort x (sorted xs)
