-- ===== src/Common/Equality.antt =====
-- Equality as an interface, with membership, repetition and dictionaries over it.
use Prim.Native.String.{String}
use mathlib.Core.Path.{◌≡◌, refl, sym}
use mathlib.Core.Logic.{◌↔◌}
use mathlib.Core.Bool.{Bool, true, false, ◌&&◌, ◌||◌, not}
use mathlib.Core.Option.{Option, none, some}
use mathlib.Core.List.{List, [], ◌∷◌}
use text.Mathlib.Text.{◌==◌ as str_eq}
use text.Mathlib.TextEquality.{eq_iff}
use mathlib.Core.Logic.{inl, inr}
use soc_investigation_lab.Common.Tests.{if◌then◌else◌, Bool-cases, true-false}

pub record Eq {ℓ} (A : Type ℓ) : Type ℓ where
  pub beq : A → A → Bool
  pub beq_iff : (x y : A) → (beq x y ≡ true) ↔ (x ≡ y)

instance abbrev pub string_eq : Eq String
string_eq = record { beq = str_eq; beq_iff = eq_iff }

-- `x == y`
infix 50 ◌==◌
abbrev pub ◌==◌ {ℓ} : {T : Type ℓ} ⦃same : Eq T⦄ → T → T → Bool
◌==◌ ⦃same⦄ = same.beq

module _ {ℓ} {A : Type ℓ} ⦃e : Eq A⦄ where
  pub beq_refl : (a : A) → (a == a) ≡ true
  beq_refl a = (e.beq_iff a a).1 refl

  pub beq_sym : (a b : A) → (a == b) ≡ (b == a)
  beq_sym a b = elim (Bool-cases (a == b)) [
    | inl same ↦ rw (same, (e.beq_iff b a).1 (sym ((e.beq_iff a b).0 same))) refl
    | inr other ↦ elim (Bool-cases (b == a)) [
      | inl same ↦
          let again = (e.beq_iff a b).1 (sym ((e.beq_iff b a).0 same)) in
          absurd (true-false again other)
      | inr apart ↦ rw (other, apart) refl
    ]
  ]

  -- `x in xs`
  abbrev pub member : A → List A → Bool
  member x [] = false
  member x (y ∷ ys) = x == y || member x ys

  -- `len(set(xs)) == len(xs)`
  abbrev pub is_unique : List A → Bool
  is_unique [] = true
  is_unique (x ∷ xs) = not (member x xs) && is_unique xs

module _ {ℓ κ} {K : Type ℓ} {V : Type κ} ⦃e : Eq K⦄ where
  -- `d.get(k)` on a dictionary in insertion order
  unfoldable pub lookup : K → List (K × V) → Option V
  lookup k [] = none
  lookup k ((j, v) ∷ d) = if k == j then some v else lookup k d
