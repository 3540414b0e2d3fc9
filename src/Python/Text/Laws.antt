-- ===== src/Python/Text/Laws.antt =====
-- Order of texts, and what the decimal digits are.
use text.Mathlib.TextEquality.{Char-path}
use soc_investigation_lab.Common.{String, ◌≡◌, refl, true, false, arith}
use soc_investigation_lab.Python.Text.{text_leb}

pub text_leb_total : (a b : String) → text_leb a b ≡ false → text_leb b a ≡ true
unfolding text_leb
text_leb_total String.[] b h = ground arith
text_leb_total (String.◌∷◌ c a) String.[] h = refl
text_leb_total (String.◌∷◌ c a) (String.◌∷◌ d b) h = ground (arith, text_leb_total a b)

pub text_leb_trans :
    (a b c : String) → text_leb a b ≡ true → text_leb b c ≡ true → text_leb a c ≡ true
unfolding text_leb
text_leb_trans String.[] b c h k = refl
text_leb_trans (String.◌∷◌ x a) String.[] c h k = ground arith
text_leb_trans (String.◌∷◌ x a) (String.◌∷◌ y b) String.[] h k = ground arith
text_leb_trans (String.◌∷◌ x a) (String.◌∷◌ y b) (String.◌∷◌ z c) h k =
    ground (arith, text_leb_trans a b c)

pub text_leb_antisymm : (a b : String) → text_leb a b ≡ true → text_leb b a ≡ true → a ≡ b
unfolding text_leb
text_leb_antisymm String.[] String.[] h k = refl
text_leb_antisymm String.[] (String.◌∷◌ d b) h k = ground arith
text_leb_antisymm (String.◌∷◌ c a) String.[] h k = ground arith
text_leb_antisymm (String.◌∷◌ c a) (String.◌∷◌ d b) h k =
    ground (arith, text_leb_antisymm a b, Char-path c d)
