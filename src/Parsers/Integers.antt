-- ===== src/Parsers/Integers.antt =====
-- A number that is written in decimal is read back, by each of the parsers' readers of integers.
use soc_investigation_lab.Common.{
  ℕ, String, ◌≡◌, refl, true, false, ◌&&◌, ◌||◌, ok, and-eq-true, eqb, leb, arith, Bool-cases, inl,
  inr,
}
use Prim.Native.Char.{code}
use soc_investigation_lab.Python.Int.{pos}
use soc_investigation_lab.Python.Text.{decimal, startswith, all_chars, is_digit, text_length}
use soc_investigation_lab.Python.Text.Decimal.{all_chars-decimal}
use soc_investigation_lab.Python.Reading.{max_digits}
use soc_investigation_lab.Python.Reading.Laws.{read_int-decimal}
use soc_investigation_lab.Parsers.Fields.{non_negative_integer}
use soc_investigation_lab.Parsers.WindowsEvent.{parse_integer}
use soc_investigation_lab.Parsers.WindowsSecurity.{windows_integer}
use soc_investigation_lab.Parsers.Sysmon.{decimal_integer}

non_negative_integer-decimal :
    (message field : String) (n : ℕ)
    → leb (text_length (decimal n)) max_digits ≡ true
    → non_negative_integer message 10 (decimal n) field ≡ ok n
unfolding non_negative_integer
non_negative_integer-decimal message field n h = rw (read_int-decimal n h) refl

digit_is_no_x : (c : ℕ) → is_digit c ≡ true → (eqb c 120 ≡ false) × (eqb c 88 ≡ false)
digit_is_no_x c h = (ground (arith, h), ground (arith, h))

-- Digits do not begin with `0x`.
startswith-digits :
    (s : String) → all_chars is_digit s ≡ true → (startswith s "0x" || startswith s "0X") ≡ false
unfolding startswith all_chars
startswith-digits String.[] h = refl
startswith-digits (String.◌∷◌ c String.[]) h = elim (Bool-cases (eqb (code c) 48)) [
  | inl zero_digit ↦ rw zero_digit refl
  | inr other ↦ rw other refl
]
startswith-digits (String.◌∷◌ c (String.◌∷◌ d s)) h =
    let (first, rest) =
      and-eq-true (is_digit (code c)) (is_digit (code d) && all_chars is_digit s) h in
    let (second, more) = and-eq-true (is_digit (code d)) (all_chars is_digit s) rest in
    let (lower, upper) = digit_is_no_x (code d) second in
    elim (Bool-cases (eqb (code c) 48)) [
      | inl zero_digit ↦ rw (zero_digit, lower, upper) refl
      | inr other ↦ rw other refl
    ]

-- A natural number, written in decimal with at most 4300 digits, is read back by the readers of
-- integers of the raw parser, of the Windows Security normalizer, which reads hexadecimal numbers
-- too, and of the Sysmon normalizer.
pub read-decimal :
    (field : String) (n : ℕ)
    → leb (text_length (decimal n)) max_digits ≡ true
    → (parse_integer (decimal n) field ≡ ok (pos n))
      × (windows_integer (decimal n) field ≡ ok n)
      × (decimal_integer (decimal n) field ≡ ok n)
unfolding parse_integer windows_integer
read-decimal field n h = (
  rw (read_int-decimal n h) refl,
  rw (startswith-digits (decimal n) (all_chars-decimal n))
      (non_negative_integer-decimal " must be a valid integer" field n h),
  non_negative_integer-decimal " must be a valid decimal integer" field n h,
)
