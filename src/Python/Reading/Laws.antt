-- ===== src/Python/Reading/Laws.antt =====
-- `int` reads what `f"{n}"` writes.
use Prim.Native.Char.{Char, code}
use soc_investigation_lab.Common.{
  ℕ, suc, ◌+◌, ◌-◌, ◌*◌, String, ◌≡◌, refl, ◌∙◌, ap, Bool, true, false, ◌&&◌, some, arith, eqb, leb,
  and-eq-true,
}
use soc_investigation_lab.Python.Int.{pos}
use soc_investigation_lab.Python.Text.{all_chars, is_digit, decimal, text_length}
use soc_investigation_lab.Python.Text.Decimal.{
  digits_value, digits_value-decimal, all_chars-decimal, decimal-eq-cons,
}
use soc_investigation_lab.Python.Reading.{
  digit_value, decimal_in, below, read_digits, read_magnitude, without_prefix, read_int, max_digits,
}

digit_value-digit : (c : ℕ) → is_digit c ≡ true → digit_value c ≡ some (c - 48)
unfolding digit_value decimal_in
digit_value-digit c h = ground (arith, h)

below-digit : (c : ℕ) → is_digit c ≡ true → below 10 (digit_value c) ≡ some (c - 48)
below-digit c h = rw (digit_value-digit c h) (ground (arith, h))

not_underscore : (c : ℕ) (b : Bool) → is_digit c ≡ true → (eqb c b'_' && b) ≡ false
not_underscore c b h = ground (arith, h)

read_digits-cons :
    (after : Bool) (value count : ℕ) (c : Char) (s : String)
    → is_digit (code c) ≡ true
    → read_digits 10 after value count (String.◌∷◌ c s)
      ≡ read_digits 10 true (value * 10 + (code c - 48)) (suc count) s
unfolding read_digits
read_digits-cons after value count c s h =
    rw (not_underscore (code c) after h, below-digit (code c) h) refl

read_digits-digits :
    (value count : ℕ) (s : String)
    → all_chars is_digit s ≡ true
    → read_digits 10 true value count s ≡ some (digits_value value s, count + text_length s)
unfolding all_chars digits_value
read_digits-digits value count String.[] h =
    unfold read_digits in ap (λ n. some (value, n)) (omega arith)
read_digits-digits value count (String.◌∷◌ c s) h =
    let (d, ds) = and-eq-true (is_digit (code c)) (all_chars is_digit s) h in
    read_digits-cons true value count c s d
    ∙ read_digits-digits (value * 10 + (code c - 48)) (suc count) s ds
    ∙ ap (λ n. some (digits_value (value * 10 + (code c - 48)) s, n)) (omega arith)

-- A digit is no sign, and only the first of a prefix.
no_sign : (c : ℕ) → is_digit c ≡ true → (eqb c b'-' ≡ false) × (eqb c b'+' ≡ false)
no_sign c h = ground (arith, h)

read_magnitude-digits :
    (c : Char) (s : String)
    → all_chars is_digit (String.◌∷◌ c s) ≡ true
    → leb (text_length (String.◌∷◌ c s)) max_digits ≡ true
    → read_magnitude 10 (String.◌∷◌ c s) ≡ some (digits_value 0 (String.◌∷◌ c s))
unfolding read_magnitude all_chars digits_value
read_magnitude-digits c s h short =
    let (d, ds) = and-eq-true (is_digit (code c)) (all_chars is_digit s) h in
    let first = read_digits-cons false 0 0 c s d in
    let rest = read_digits-digits (0 * 10 + (code c - 48)) 1 s ds in
    let room : leb (1 + text_length s) max_digits ≡ true = ground (arith, short) in
    rw (first, rest, room) refl

-- Digits, and not more of them than `int` reads.
pub read_int-digits :
    (c : Char) (s : String)
    → all_chars is_digit (String.◌∷◌ c s) ≡ true
    → leb (text_length (String.◌∷◌ c s)) max_digits ≡ true
    → read_int 10 (String.◌∷◌ c s) ≡ some (pos (digits_value 0 (String.◌∷◌ c s)))
unfolding read_int without_prefix
read_int-digits c s h short =
    let (d, ds) = and-eq-true (is_digit (code c)) (all_chars is_digit s) (unfold all_chars in h) in
    let (minus, plus) = no_sign (code c) d in
    rw (minus, plus, read_magnitude-digits c s h short) refl

pub read_int-decimal :
    (n : ℕ)
    → leb (text_length (decimal n)) max_digits ≡ true
    → read_int 10 (decimal n) ≡ some (pos n)
read_int-decimal n short =
    let (c, s, e) = decimal-eq-cons n in
    let digits = rw e at (all_chars-decimal n) in
    let value = rw e at (digits_value-decimal n) in
    rw e (read_int-digits c s digits (rw e at short) ∙ ap (λ k. some (pos k)) value)
