-- ===== src/Common/Outcomes.antt =====
-- What holds of a value if a call returned one.
use mathlib.Core.Path.{◌≡◌, refl, subst}
use mathlib.Core.Bool.{Bool, true, false}
use soc_investigation_lab.Common.Results.{Result, ok, err, ◌>>=◌, ◌>>◌, guard}

abbrev EnsuresAt {ℓ κ} : {E : Type ℓ} {A : Type κ} → (A → Type 0) → Result E A → Type 0
EnsuresAt P (ok a) = P a
EnsuresAt P (err e) = Unit

-- A record, so that the call can be read off the type.
pub record Ensures {ℓ κ} {E : Type ℓ} {A : Type κ} (P : A → Type 0) (r : Result E A) : Type 0 where
  pub outcome : EnsuresAt P r

module _ {ℓ κ} {E : Type ℓ} {A : Type κ} where
  pub Ensures-ok : {P : A → Type 0} {a : A} → P a → Ensures {E = E} P (ok a)
  Ensures-ok h = record { outcome = h }

  pub Ensures-err : {P : A → Type 0} {e : E} → Ensures {A = A} P (err e)
  Ensures-err = record { outcome = tt }

  pub Ensures-eq-ok : {P : A → Type 0} {r : Result E A} {a : A} → Ensures P r → r ≡ ok a → P a
  Ensures-eq-ok {P} h e = (subst (Ensures P) e h).outcome

  pub Ensures-map :
      {P Q : A → Type 0} {r : Result E A} → ((a : A) → P a → Q a) → Ensures P r → Ensures Q r
  Ensures-map {r = ok a} f h = Ensures-ok (f a h.outcome)
  Ensures-map {r = err e} f h = Ensures-err

module _ {ℓ κ μ} {E : Type ℓ} {A : Type κ} {B : Type μ} where
  pub Ensures-bind :
      (P : A → Type 0) {Q : B → Type 0} {m : Result E A} {f : A → Result E B}
      → Ensures P m
      → ((a : A) → P a → Ensures Q (f a))
      → Ensures Q (m >>= f)
  Ensures-bind P {m = ok a} h k = k a h.outcome
  Ensures-bind P {m = err e} h k = Ensures-err

module _ {ℓ κ} {E : Type ℓ} {B : Type κ} where
  -- What follows a check that was passed.
  pub Ensures-guard :
      (b : Bool) (e : E) {Q : B → Type 0} {n : Result E B}
      → (b ≡ true → Ensures Q n)
      → Ensures Q (guard b e >> n)
  Ensures-guard true e h = h refl
  Ensures-guard false e h = Ensures-err

-- Nothing is asked of the value.
abbrev pub Any {ℓ} : {A : Type ℓ} → A → Type 0
Any a = Unit

pub Any-holds {ℓ κ} : {E : Type ℓ} {A : Type κ} (r : Result E A) → Ensures Any r
Any-holds (ok a) = Ensures-ok tt
Any-holds (err e) = Ensures-err

-- The call that returned.
pub Ensures-call : {E A : Type 0} (r : Result E A) → Ensures (λ a. r ≡ ok a) r
Ensures-call (ok a) = Ensures-ok refl
Ensures-call (err e) = Ensures-err
