-- ===== src/Python/Text.antt =====
-- Python's str: code points, slices at a separator, prefixes, membership, order and decimals.
pub mod Digits
pub mod Decimal
pub mod Splitting
pub mod Laws
pub mod Stripping
use Prim.Native.Char.{Char, code}
use Prim.Native.String
use soc_investigation_lab.Common.{
  ℕ, zero, suc, ◌+◌, ◌/◌, ◌%◌, ◌<◌, String, Bool, true, false, ◌&&◌, ◌||◌, List, [], ◌∷◌, ltb, leb,
  eqb, if◌then◌else◌,
}

-- `a + b`
infixr 60 ◌<>◌
abbrev pub ◌<>◌ : String → String → String
a <> b = String.◌++◌ a b

-- `c == d` on characters
abbrev pub char_eq : Char → Char → Bool
char_eq c d = eqb (code c) (code d)

-- `s.startswith(prefix)`
unfoldable pub startswith : String → String → Bool
startswith s String.[] = true
startswith String.[] (String.◌∷◌ d p) = false
startswith (String.◌∷◌ c s) (String.◌∷◌ d p) = char_eq c d && startswith s p

-- `part in s`
unfoldable pub contains : String → String → Bool
unfolding startswith
contains String.[] part = startswith String.[] part
contains (String.◌∷◌ c s) part = startswith (String.◌∷◌ c s) part || contains s part

reverse_onto : String → String → String
reverse_onto String.[] acc = acc
reverse_onto (String.◌∷◌ c s) acc = reverse_onto s (String.◌∷◌ c acc)

-- `s[::-1]`
unfoldable pub reversed : String → String
unfolding reverse_onto
reversed s = reverse_onto s String.[]

-- `s.endswith(suffix)`: the reversed suffix is a prefix of the reversed text
unfoldable pub endswith : String → String → Bool
unfolding startswith reversed
endswith s suffix = startswith (reversed s) (reversed suffix)

-- Puts a character in front of the first part.
abbrev onto_first : Char → List String → List String
onto_first c [] = String.◌∷◌ c String.[] ∷ []
onto_first c (p ∷ ps) = String.◌∷◌ c p ∷ ps

-- `s.split(sep)` for a separator of one character
unfoldable pub split : ℕ → String → List String
split sep String.[] = String.[] ∷ []
split sep (String.◌∷◌ c s) =
    if eqb (code c) sep then String.[] ∷ split sep s else onto_first c (split sep s)

-- `all(p(c) for c in s)`
unfoldable pub all_chars : (ℕ → Bool) → String → Bool
all_chars p String.[] = true
all_chars p (String.◌∷◌ c s) = p (code c) && all_chars p s

abbrev pub is_digit : ℕ → Bool
is_digit c = leb b'0' c && leb c b'9'

abbrev pub is_lower : ℕ → Bool
is_lower c = leb b'a' c && leb c b'z'

abbrev pub is_upper : ℕ → Bool
is_upper c = leb b'A' c && leb c b'Z'

-- `[A-Za-z]`
abbrev pub is_letter : ℕ → Bool
is_letter c = is_lower c || is_upper c

-- `[A-Za-z0-9_]`
abbrev pub is_word : ℕ → Bool
is_word c = is_letter c || is_digit c || eqb c b'_'

-- The white space that `str.strip` removes.
abbrev pub is_space : ℕ → Bool
is_space c =
    leb 9 c && leb c 13
    || leb 28 c && leb c 32
    || eqb c 133
    || eqb c 160
    || eqb c 5760
    || leb 8192 c && leb c 8202
    || eqb c 8232
    || eqb c 8233
    || eqb c 8239
    || eqb c 8287
    || eqb c 12288

-- `s.lstrip()`
unfoldable pub lstrip : String → String
lstrip String.[] = String.[]
lstrip (String.◌∷◌ c s) = let rest = lstrip s in if is_space (code c) then rest else String.◌∷◌ c s

-- `s.strip()`
unfoldable pub strip : String → String
unfolding lstrip reversed
strip s = reversed (lstrip (reversed (lstrip s)))

-- `a <= b` on text: by code points, from the left
unfoldable pub text_leb : String → String → Bool
text_leb String.[] b = true
text_leb (String.◌∷◌ c a) String.[] = false
text_leb (String.◌∷◌ c a) (String.◌∷◌ d b) = ltb (code c) (code d) || char_eq c d && text_leb a b

-- The digit of a number below ten.
abbrev pub digit : ℕ → String
digit zero = "0"
digit (suc zero) = "1"
digit (suc (suc zero)) = "2"
digit (suc (suc (suc zero))) = "3"
digit (suc (suc (suc (suc zero)))) = "4"
digit (suc (suc (suc (suc (suc zero))))) = "5"
digit (suc (suc (suc (suc (suc (suc zero)))))) = "6"
digit (suc (suc (suc (suc (suc (suc (suc zero))))))) = "7"
digit (suc (suc (suc (suc (suc (suc (suc (suc zero)))))))) = "8"
digit (suc (suc (suc (suc (suc (suc (suc (suc (suc n))))))))) = "9"

decimal_fuel : ℕ → ℕ → String → String
decimal_fuel zero n acc = digit n <> acc
decimal_fuel (suc f) n acc =
    let more = decimal_fuel f (n / 10) (digit (n % 10) <> acc) in
    if ltb n 10 then digit n <> acc else more

-- `f"{n}"`: the fuel is the number itself, which has more than enough digits
unfoldable pub decimal : ℕ → String
unfolding decimal_fuel
decimal n = decimal_fuel n n ""

-- `len(s)`
abbrev pub text_length : String → ℕ
text_length String.[] = 0
text_length (String.◌∷◌ c s) = suc (text_length s)

-- `s[:-1]`
unfoldable pub initial : String → String
initial String.[] = String.[]
initial (String.◌∷◌ c String.[]) = String.[]
initial (String.◌∷◌ c (String.◌∷◌ d s)) = String.◌∷◌ c (initial (String.◌∷◌ d s))
