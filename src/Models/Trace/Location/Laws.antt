-- ===== src/Models/Trace/Location/Laws.antt =====
-- The locations that the evaluator builds for children fit the pattern of a location.
use Prim.Native.Char.{Char, code}
use text.Mathlib.TextLemmas.{cons-append, nil-append}
use soc_investigation_lab.Common.{ℕ, String, ◌≡◌, refl, Bool, true, false, arith, and-eq-true}
use soc_investigation_lab.Python.Text.{◌<>◌, decimal, is_digit, all_chars}
use soc_investigation_lab.Python.Text.Decimal.{all_chars-decimal, decimal-eq-cons}
use soc_investigation_lab.Python.Text.Digits.{is_decimal}
use soc_investigation_lab.Models.Trace.{Kind, all_kind, any_kind, kind_value, child_location}
use soc_investigation_lab.Models.Trace.Location.{
  Scan, start, at_node, at_bracket, in_index, scan, scan_all, is_whole, valid_location,
}

scan_all-append : (s : Scan) (a b : String) → scan_all s (a <> b) ≡ scan_all (scan_all s a) b
unfolding scan_all
scan_all-append s String.[] b = rw nil-append
scan_all-append s (String.◌∷◌ c a) b = rw cons-append (scan_all-append (scan s (code c)) a b)

is_decimal-is_digit : (c : ℕ) → is_digit c ≡ true → is_decimal c ≡ true
unfolding is_decimal
is_decimal-is_digit c h = rw h

scan-in_index : (c : ℕ) → is_digit c ≡ true → scan in_index c ≡ in_index
unfolding scan
scan-in_index c h = rw (is_decimal-is_digit c h)

scan-at_bracket : (c : ℕ) → is_digit c ≡ true → scan at_bracket c ≡ in_index
unfolding scan
scan-at_bracket c h = rw (is_decimal-is_digit c h)

scan_all-digits : (s : String) → all_chars is_digit s ≡ true → scan_all in_index s ≡ in_index
unfolding scan_all all_chars
scan_all-digits String.[] h = refl
scan_all-digits (String.◌∷◌ c s) h =
    let (d, ds) = and-eq-true _ _ h in rw (scan-in_index (code c) d) (scan_all-digits s ds)

scan_all-index :
    (c : Char) (s : String)
    → all_chars is_digit (String.◌∷◌ c s) ≡ true
    → scan_all at_bracket (String.◌∷◌ c s) ≡ in_index
unfolding scan_all all_chars
scan_all-index c s h =
    let (d, ds) = and-eq-true _ _ h in rw (scan-at_bracket (code c) d) (scan_all-digits s ds)

scan_all-decimal : (n : ℕ) → scan_all at_bracket (decimal n) ≡ in_index
scan_all-decimal n =
    let (c, r, e) = decimal-eq-cons n in
    let digits : all_chars is_digit (String.◌∷◌ c r) ≡ true = rw e at (all_chars-decimal n) in
    rw e (scan_all-index c r digits)

abbrev pub list_kind : Kind → Bool
list_kind all_kind = true
list_kind any_kind = true
list_kind _ = false

-- The segment of the kind, up to its bracket.
scan_all-kind :
    (k : Kind) (rest : String)
    → list_kind k ≡ true
    → scan_all at_node ("." <> kind_value k <> "[" <> rest) ≡ scan_all at_bracket rest
scan_all-kind all_kind rest h = simp scan_all-append (unfold scan_all in refl)
scan_all-kind any_kind rest h = simp scan_all-append (unfold scan_all in refl)
scan_all-kind _ rest h = cc

is_whole-eq : (s : Scan) → is_whole s ≡ true → s ≡ at_node
is_whole-eq s h = ground arith

-- The location of a child of an `all` or an `any` is valid where that of the node is.
pub valid_location-child_location :
    (location : String) (kind : Kind) (index : ℕ)
    → list_kind kind ≡ true
    → valid_location location ≡ true
    → valid_location (child_location location kind index) ≡ true
unfolding valid_location
valid_location-child_location location kind index k h =
    let at : scan_all start location ≡ at_node = is_whole-eq _ h in
    rw
      (
        scan_all-append start location _,
        at,
        scan_all-kind kind _ k,
        scan_all-append,
        scan_all-decimal,
      )
      (unfold scan_all in refl)

-- The location of the child of a `not` is valid where that of the node is.
pub valid_location-not :
    (location : String)
    → valid_location location ≡ true
    → valid_location (location <> ".not") ≡ true
unfolding valid_location
valid_location-not location h =
    let at : scan_all start location ≡ at_node = is_whole-eq _ h in
    rw (scan_all-append start location ".not", at) (unfold scan_all in refl)
