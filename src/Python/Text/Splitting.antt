-- ===== src/Python/Text/Splitting.antt =====
-- What `split` at a dot says of the text that it splits.
use Prim.Native.Char.{Char, code}
use text.Mathlib.TextLemmas.{cons-append, nil-append, append_assoc}
use text.Mathlib.TextEquality.{Char-path}
use soc_investigation_lab.Common.{
  ℕ, String, ◌≡◌, refl, ap, true, List, [], ◌∷◌, arith, eqb, inl, inr, Bool-cases,
}
use soc_investigation_lab.Python.Text.{◌<>◌, split, startswith}

split-eq-cons : (sep : ℕ) (s : String) → (p : String) × (ps : List String) × (split sep s ≡ p ∷ ps)
unfolding split
split-eq-cons sep String.[] = (_, _, refl)
split-eq-cons sep (String.◌∷◌ c s) = elim (Bool-cases (eqb (code c) sep)) [
  | inl h ↦ (String.[], split sep s, rw h)
  | inr h ↦ let (p, ps, e) = split-eq-cons sep s in (String.◌∷◌ c p, ps, rw (h, e))
]

split_one : (s n : String) → split b'.' s ≡ n ∷ [] → s ≡ n
unfolding split
split_one String.[] n h = cc
split_one (String.◌∷◌ c s) n h =
    let (p, ps, e) = split-eq-cons b'.' s in ground (arith, e, split_one s p)

abbrev dot : Char
dot = Char.char b'.' tt

-- Two parts are what stands before and behind one dot.
pub split_two : (s p n : String) → split b'.' s ≡ p ∷ n ∷ [] → s ≡ p <> "." <> n
unfolding split
split_two String.[] p n h = cc
split_two (String.◌∷◌ c s) p n h = elim (Bool-cases (eqb (code c) b'.')) [
  | inl e ↦
      let parts : String.[] ∷ split b'.' s ≡ p ∷ n ∷ [] = rw e at h in
      let is_dot : c ≡ dot = Char-path c dot (ground arith) in
      let tail : s ≡ n = split_one s n (cc) in
      let head : p ≡ String.[] = cc in rw (head, is_dot, tail, nil-append, cons-append, nil-append)
  | inr e ↦
      let (q, qs, e') = split-eq-cons b'.' s in
      let parts : String.◌∷◌ c q ∷ qs ≡ p ∷ n ∷ [] = rw (e, e') at h in
      let head : p ≡ String.◌∷◌ c q = cc in
      let tail : split b'.' s ≡ q ∷ n ∷ [] = cc (e') in
      rw (head, cons-append) (ap (String.◌∷◌ c) (split_two s q n tail))
]

pub startswith-append : (p s : String) → startswith (p <> s) p ≡ true
unfolding startswith
startswith-append String.[] s = refl
startswith-append (String.◌∷◌ c p) s = rw cons-append (ground (arith, startswith-append p s))

-- A text of two parts starts with the first and the dot.
pub startswith-dot : (p n : String) → startswith (p <> "." <> n) (p <> ".") ≡ true
startswith-dot p n = rw (← append_assoc p "." n) (startswith-append (p <> ".") n)
