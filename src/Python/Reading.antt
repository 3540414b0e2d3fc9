-- ===== src/Python/Reading.antt =====
-- `int(text)` and `int(text, base)` for the bases 10 and 16, on a text without white space at its
-- ends, which is all that the source hands over.
pub mod Laws
use Prim.Native.Char.{code}
use soc_investigation_lab.Common.{
  ℕ, zero, suc, ◌+◌, ◌-◌, ◌*◌, String, Bool, true, false, ◌&&◌, ◌||◌, Option, none, some, List, [],
  ◌∷◌, eqb, leb, ltb, if◌then◌else◌,
}
use soc_investigation_lab.Python.Int.{ℤ, pos, negsuc}
use soc_investigation_lab.Python.Text.Digits.{zeros}

-- The value of a decimal digit of any script.
unfoldable pub decimal_in : List ℕ → ℕ → Option ℕ
decimal_in [] c = none
decimal_in (z ∷ zs) c = if leb z c && leb c (z + 9) then some (c - z) else decimal_in zs c

abbrev in_run : ℕ → ℕ → ℕ → Bool
in_run first last c = leb first c && leb c last

-- The value of a digit: a decimal one, or a Latin letter from ten on.
unfoldable pub digit_value : ℕ → Option ℕ
unfolding decimal_in
digit_value c =
    if in_run b'a' b'z' c
    then some (c - b'a' + 10)
    else if in_run b'A' b'Z' c
    then some (c - b'A' + 10)
    else decimal_in zeros c

-- A digit that the base has.
abbrev pub below : ℕ → Option ℕ → Option ℕ
below base none = none
below base (some d) = if ltb d base then some d else none

-- The value and the number of digits. A single underscore may stand between two digits: `after` says
-- that the last character was a digit.
unfoldable pub read_digits : ℕ → Bool → ℕ → ℕ → String → Option (ℕ × ℕ)
read_digits base after value count String.[] = if after then some (value, count) else none
read_digits base after value count (String.◌∷◌ c s) =
    if eqb (code c) b'_' && after
    then read_digits base false value count s
    else elim (below base (digit_value (code c))) [
      | none ↦ none
      | some d ↦ read_digits base true (value * base + d) (suc count) s
    ]

-- `sys.int_info.default_max_str_digits`, which a base that is a power of two does not have.
abbrev pub max_digits : ℕ
max_digits = 4300

abbrev pub has_room : ℕ → ℕ → Bool
has_room base count = if eqb base 10 then leb count max_digits else true

abbrev within_limit : ℕ → Option (ℕ × ℕ) → Option ℕ
within_limit base none = none
within_limit base (some (value, count)) = if has_room base count then some value else none

unfoldable pub read_magnitude : ℕ → String → Option ℕ
unfolding read_digits
read_magnitude base s = within_limit base (read_digits base false 0 0 s)

-- After `0x`, one underscore may stand before the digits.
abbrev after_prefix : String → String
after_prefix String.[] = String.[]
after_prefix (String.◌∷◌ c s) = if eqb (code c) b'_' then s else String.◌∷◌ c s

abbrev is_x : ℕ → Bool
is_x c = eqb c b'x' || eqb c b'X'

abbrev without_zero_x : String → String → String
without_zero_x whole String.[] = whole
without_zero_x whole (String.◌∷◌ x s) = if is_x (code x) then after_prefix s else whole

-- The prefix that base 16 may have.
unfoldable pub without_prefix : ℕ → String → String
without_prefix base String.[] = String.[]
without_prefix base (String.◌∷◌ c s) =
    if eqb base 16 && eqb (code c) b'0' then without_zero_x (String.◌∷◌ c s) s else String.◌∷◌ c s

abbrev pub negated_ℤ : ℕ → ℤ
negated_ℤ zero = pos 0
negated_ℤ (suc n) = negsuc n

abbrev as_positive : Option ℕ → Option ℤ
as_positive none = none
as_positive (some n) = some (pos n)

abbrev as_negative : Option ℕ → Option ℤ
as_negative none = none
as_negative (some n) = some (negated_ℤ n)

-- `none` is a ValueError.
unfoldable pub read_int : ℕ → String → Option ℤ
unfolding without_prefix read_magnitude
read_int base String.[] = none
read_int base (String.◌∷◌ c s) =
    if eqb (code c) b'-'
    then as_negative (read_magnitude base (without_prefix base s))
    else if eqb (code c) b'+'
    then as_positive (read_magnitude base (without_prefix base s))
    else as_positive (read_magnitude base (without_prefix base (String.◌∷◌ c s)))
