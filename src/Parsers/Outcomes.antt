-- ===== src/Parsers/Outcomes.antt =====
-- What a call of a parser may end in: a value that keeps a promise, a controlled error, or the
-- overflow of a datetime that UTC cannot show.
use soc_investigation_lab.Common.{
  ◌≡◌, refl, Bool, true, false, Option, none, some, Result, ok, err, ◌>>=◌, guard, if◌then◌else◌,
}
use soc_investigation_lab.Python.Exceptions.{overflow_error}
use soc_investigation_lab.Parsers.Errors.{ParserError, Raised, controlled, uncontrolled, or_raise}

abbrev pub IsHandled : Raised → Type 0
IsHandled (controlled e) = Unit
IsHandled (uncontrolled overflow_error) = Unit
IsHandled (uncontrolled _) = ⊥

abbrev HandlesAt {ℓ} : {A : Type ℓ} → (A → Type 0) → Result Raised A → Type 0
HandlesAt P (ok a) = P a
HandlesAt P (err e) = IsHandled e

-- A record, so that the call can be read off the type.
pub record Handles {ℓ} {A : Type ℓ} (P : A → Type 0) (r : Result Raised A) : Type 0 where
  pub outcome : HandlesAt P r

-- No promise on the value.
abbrev pub Any {ℓ} : {A : Type ℓ} → A → Type 0
Any a = Unit

pub Handles-ok {ℓ} : {A : Type ℓ} {P : A → Type 0} {a : A} → P a → Handles P (ok a)
Handles-ok h = record { outcome = h }

pub Handles-err {ℓ} :
    {A : Type ℓ} {P : A → Type 0} {e : ParserError} → Handles P (err (controlled e))
Handles-err = record { outcome = tt }

pub Handles-bind {ℓ κ} :
    {A : Type ℓ} {B : Type κ} (P : A → Type 0) {Q : B → Type 0} {m : Result Raised A}
    {f : A → Result Raised B}
    → Handles P m
    → ((a : A) → P a → Handles Q (f a))
    → Handles Q (m >>= f)
Handles-bind P {m = ok a} h k = k a h.outcome
Handles-bind P {m = err e} h k = record { outcome = h.outcome }

-- A controlled error, or a value.
pub Handles-or_raise {ℓ} :
    {A : Type ℓ} {P : A → Type 0} (e : ParserError) (o : Option A)
    → ((a : A) → o ≡ some a → P a)
    → Handles P (or_raise e o)
Handles-or_raise e none h = Handles-err
Handles-or_raise e (some a) h = Handles-ok (h a refl)

pub Handles-guard :
    (b : Bool) (e : ParserError) → Handles {A = Unit {0}} Any (guard b (controlled e))
Handles-guard true e = Handles-ok tt
Handles-guard false e = Handles-err

-- A branch on a test.
pub Handles-if {ℓ} :
    {A : Type ℓ} {P : A → Type 0} (b : Bool) {m n : Result Raised A}
    → Handles P m
    → Handles P n
    → Handles P (if b then m else n)
Handles-if true h k = h
Handles-if false h k = k

pub Handles-map {ℓ} :
    {A : Type ℓ} {P Q : A → Type 0} {r : Result Raised A}
    → ((a : A) → P a → Q a)
    → Handles P r
    → Handles Q r
Handles-map {r = ok a} f h = Handles-ok (f a h.outcome)
Handles-map {r = err e} f h = record { outcome = h.outcome }

-- A branch on a test, with what the test said.
pub Handles-branch {ℓ} :
    {A : Type ℓ} {P : A → Type 0} (b : Bool) {m n : Result Raised A}
    → (b ≡ true → Handles P m)
    → (b ≡ false → Handles P n)
    → Handles P (if b then m else n)
Handles-branch true h k = h refl
Handles-branch false h k = k refl
