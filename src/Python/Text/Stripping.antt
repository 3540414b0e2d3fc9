-- ===== src/Python/Text/Stripping.antt =====
-- `strip` on decimals, and the reversal of text.
use Prim.Native.Char.{code}
use text.Mathlib.TextLemmas.{cons-append, nil-append, append-nil}
use soc_investigation_lab.Common.{ℕ, String, ◌≡◌, refl, ◌∙◌, Bool, true, false, arith, and-eq-true}
use soc_investigation_lab.Python.Text.{
  ◌<>◌, reverse_onto, reversed, all_chars, is_digit, is_space, lstrip, strip, decimal,
}
use soc_investigation_lab.Python.Text.Decimal.{all_chars-decimal}

reverse_onto-reverse_onto :
    (s a b : String) → reverse_onto (reverse_onto s a) b ≡ reverse_onto a (s <> b)
unfolding reverse_onto
reverse_onto-reverse_onto String.[] a b = rw nil-append refl
reverse_onto-reverse_onto (String.◌∷◌ c s) a b =
    rw cons-append (reverse_onto-reverse_onto s (String.◌∷◌ c a) b)

pub reversed-reversed : (s : String) → reversed (reversed s) ≡ s
unfolding reversed reverse_onto
reversed-reversed s = reverse_onto-reverse_onto s String.[] String.[] ∙ append-nil s

all_chars-reverse_onto :
    (p : ℕ → Bool) (s a : String)
    → all_chars p s ≡ true
    → all_chars p a ≡ true
    → all_chars p (reverse_onto s a) ≡ true
unfolding reverse_onto all_chars
all_chars-reverse_onto p String.[] a h k = k
all_chars-reverse_onto p (String.◌∷◌ c s) a h k =
    let (first, rest) = and-eq-true (p (code c)) (all_chars p s) h in
    all_chars-reverse_onto p s (String.◌∷◌ c a) rest (rw (first, k) refl)

digit_is_no_space : (c : ℕ) → is_digit c ≡ true → is_space c ≡ false
digit_is_no_space c h = ground (arith, h)

lstrip-digits : (s : String) → all_chars is_digit s ≡ true → lstrip s ≡ s
unfolding lstrip all_chars
lstrip-digits String.[] h = refl
lstrip-digits (String.◌∷◌ c s) h =
    let (first, rest) = and-eq-true (is_digit (code c)) (all_chars is_digit s) h in
    rw (digit_is_no_space (code c) first) refl

strip-digits : (s : String) → all_chars is_digit s ≡ true → strip s ≡ s
unfolding strip reversed all_chars
strip-digits s h =
    rw
      (
        lstrip-digits s h,
        lstrip-digits (reversed s) (all_chars-reverse_onto is_digit s String.[] h refl),
      )
      (reversed-reversed s)

pub strip-decimal : (n : ℕ) → strip (decimal n) ≡ decimal n
strip-decimal n = strip-digits (decimal n) (all_chars-decimal n)
