-- ===== src/Python/Text/Decimal.antt =====
-- The decimal digits of a number: only digits, at least one, and the number that they stand for.
use Prim.Native.Char.{Char, code}
use text.Mathlib.TextLemmas.{cons-append, nil-append}
use soc_investigation_lab.Common.{
  ℕ, zero, suc, ◌+◌, ◌-◌, ◌*◌, ◌/◌, ◌%◌, ◌≤◌, ◌<◌, String, ◌≡◌, refl, ◌∙◌, ap, inl, inr, Bool, true,
  ◌&&◌, arith, ltb, Bool-cases,
}
use soc_investigation_lab.Python.Text.{◌<>◌, all_chars, is_digit, digit, decimal, decimal_fuel}

pub all_chars-append :
    (p : ℕ → Bool) (a b : String) → all_chars p (a <> b) ≡ (all_chars p a && all_chars p b)
unfolding all_chars
all_chars-append p String.[] b = rw nil-append
all_chars-append p (String.◌∷◌ c a) b = rw cons-append (ground (arith, all_chars-append p a b))

-- A digit is one character, of the value of the digit.
abbrev IsDigit : ℕ → Char → Type 0
IsDigit n c = (is_digit (code c) ≡ true) × (n < 10 → code c ≡ n + 48)

digit-eq : (n : ℕ) → (c : Char) × (digit n ≡ String.◌∷◌ c String.[]) × IsDigit n c
digit-eq zero = (_, refl, (refl, λ h. omega arith))
digit-eq (suc zero) = (_, refl, (refl, λ h. omega arith))
digit-eq (suc (suc zero)) = (_, refl, (refl, λ h. omega arith))
digit-eq (suc (suc (suc zero))) = (_, refl, (refl, λ h. omega arith))
digit-eq (suc (suc (suc (suc zero)))) = (_, refl, (refl, λ h. omega arith))
digit-eq (suc (suc (suc (suc (suc zero))))) = (_, refl, (refl, λ h. omega arith))
digit-eq (suc (suc (suc (suc (suc (suc zero)))))) = (_, refl, (refl, λ h. omega arith))
digit-eq (suc (suc (suc (suc (suc (suc (suc zero))))))) = (_, refl, (refl, λ h. omega arith))
digit-eq (suc (suc (suc (suc (suc (suc (suc (suc zero)))))))) = (_, refl, (refl, λ h. omega arith))
digit-eq (suc (suc (suc (suc (suc (suc (suc (suc (suc n))))))))) =
    (_, refl, (refl, λ h. omega arith))

digit-append : (n : ℕ) (s : String) → (c : Char) × (digit n <> s ≡ String.◌∷◌ c s) × IsDigit n c
digit-append n s =
    let (c, e, d) = digit-eq n in (c, rw e (cons-append c String.[] s ∙ rw nil-append), d)

digit-digits :
    (n : ℕ) (s : String) → all_chars is_digit s ≡ true → all_chars is_digit (digit n <> s) ≡ true
unfolding all_chars
digit-digits n s h = let (c, e, d) = digit-append n s in rw (e, all_chars, d.0) h

decimal_fuel-digits :
    (f n : ℕ) (s : String)
    → all_chars is_digit s ≡ true
    → all_chars is_digit (decimal_fuel f n s) ≡ true
unfolding decimal_fuel
decimal_fuel-digits zero n s h = digit-digits n s h
decimal_fuel-digits (suc f) n s h = elim (Bool-cases (ltb n 10)) [
  | inl small ↦ rw small (digit-digits n s h)
  | inr large ↦
      rw large (decimal_fuel-digits f (n / 10) (digit (n % 10) <> s) (digit-digits (n % 10) s h))
]

decimal_fuel-cons :
    (f n : ℕ) (s : String) → (c : Char) × (r : String) × (decimal_fuel f n s ≡ String.◌∷◌ c r)
unfolding decimal_fuel
decimal_fuel-cons zero n s = let (c, e, d) = digit-append n s in (c, s, e)
decimal_fuel-cons (suc f) n s = elim (Bool-cases (ltb n 10)) [
  | inl small ↦ let (c, e, d) = digit-append n s in (c, s, rw small e)
  | inr large ↦ rw large (decimal_fuel-cons f (n / 10) (digit (n % 10) <> s))
]

pub all_chars-decimal : (n : ℕ) → all_chars is_digit (decimal n) ≡ true
unfolding decimal
all_chars-decimal n = decimal_fuel-digits n n "" (unfold all_chars in refl)

pub decimal-eq-cons : (n : ℕ) → (c : Char) × (r : String) × (decimal n ≡ String.◌∷◌ c r)
unfolding decimal
decimal-eq-cons n = decimal_fuel-cons n n ""

-- The number that digits stand for, after those already read.
unfoldable pub digits_value : ℕ → String → ℕ
digits_value acc String.[] = acc
digits_value acc (String.◌∷◌ c s) = digits_value (acc * 10 + (code c - 48)) s

digits_value-digit :
    (acc n : ℕ) (s : String)
    → n < 10
    → digits_value acc (digit n <> s) ≡ digits_value (acc * 10 + n) s
unfolding digits_value
digits_value-digit acc n s h =
    let (c, e, d) = digit-append n s in
    let value : code c - 48 ≡ n = omega (arith, d.1 h) in
    rw e (ap (λ k. digits_value (acc * 10 + k) s) value)

digits_value-decimal_fuel :
    (f n : ℕ) (s : String) → n ≤ f → digits_value 0 (decimal_fuel f n s) ≡ digits_value n s
unfolding decimal_fuel
digits_value-decimal_fuel zero n s h =
    digits_value-digit 0 n s (omega arith) ∙ ap (λ k. digits_value k s) (omega arith)
digits_value-decimal_fuel (suc f) n s h = elim (Bool-cases (ltb n 10)) [
  | inl small ↦
      rw small (digits_value-digit 0 n s (ground arith) ∙ ap (λ k. digits_value k s) (omega arith))
  | inr large ↦ rw large (
      digits_value-decimal_fuel f (n / 10) (digit (n % 10) <> s) (ground arith)
      ∙ digits_value-digit (n / 10) (n % 10) s (omega arith)
      ∙ ap (λ k. digits_value k s) (omega arith))
]

-- The fuel of `decimal` is enough: its digits stand for the number.
pub digits_value-decimal : (n : ℕ) → digits_value 0 (decimal n) ≡ n
unfolding decimal
digits_value-decimal n =
    digits_value-decimal_fuel n n "" (omega arith) ∙ unfold digits_value in refl
