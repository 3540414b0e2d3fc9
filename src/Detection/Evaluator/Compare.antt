-- ===== src/Detection/Evaluator/Compare.antt =====
-- `_compare` of backend/app/detection/evaluator.py.
use soc_investigation_lab.Common.{
  String, Bool, true, false, ◌||◌, not, List, [], ◌∷◌, Result, ok, err, ◌>>=◌, ◌==◌, string_eq,
  any_of, if◌then◌else◌,
}
use soc_investigation_lab.Python.Int.{ltb_ℤ, eqb_ℤ}
use soc_investigation_lab.Python.Text.{startswith, endswith, contains as text_contains}
use soc_investigation_lab.Python.Exceptions.{Exception, type_error, index_error, other_error}
use soc_investigation_lab.Python.Datetime.{astimezone_utc, same_instant}
use soc_investigation_lab.Python.Address.{address_eq, in_network}
use soc_investigation_lab.Models.Event.{category_eq}
use soc_investigation_lab.Models.Condition.{
  DetectionOperator, equals, not_equals, in_list, not_in_list, contains, contains_any, starts_with,
  ends_with, greater_than, greater_or_equal, less_than, less_or_equal, ip_in_cidr, exists,
  not_exists,
}
use soc_investigation_lab.Models.Trace.{outcome_eq}
use soc_investigation_lab.Detection.Semantics.{
  Scalar, of_str, of_int, of_datetime, of_address, Literal, scalar, network,
}

-- `a == b` on scalars; values of different types are not equal, nor is an address and a network
unfoldable pub scalar_eq : Scalar → Scalar → Bool
scalar_eq (of_str a) (of_str b) = a == b
scalar_eq (of_int a) (of_int b) = eqb_ℤ a b
scalar_eq (of_datetime a) (of_datetime b) = same_instant a b
scalar_eq (of_address a) (of_address b) = address_eq a b
scalar_eq _ _ = false

abbrev literal_eq : Scalar → Literal → Bool
literal_eq a (scalar b) = scalar_eq a b
literal_eq a (network n) = false

-- The tests on text; on another type Python raises a TypeError or an AttributeError.
abbrev on_text : (String → String → Bool) → Scalar → Literal → Result Exception Bool
on_text test (of_str a) (scalar (of_str b)) = ok (test a b)
on_text test _ _ = err type_error

abbrev on_int : (a b : Scalar) → (Bool → Bool → Bool) → Result Exception Bool
on_int (of_int a) (of_int b) pick = ok (pick (ltb_ℤ a b) (eqb_ℤ a b))
on_int _ _ pick = err type_error

-- The comparisons of integers, by what `a < b` and `a == b` say.
abbrev compare_int : (Bool → Bool → Bool) → Scalar → Literal → Result Exception Bool
compare_int pick a (scalar b) = on_int a b pick
compare_int pick a (network n) = err type_error

abbrev in_cidr : Scalar → Literal → Result Exception Bool
in_cidr (of_address a) (network n) = ok (in_network a n)
in_cidr _ _ = err type_error

-- `any(item in actual for item in operands)`
unfoldable pub contains_some : Scalar → List Literal → Result Exception Bool
unfolding text_contains
contains_some a [] = ok false
contains_some a (item ∷ items) = do
  found ← on_text text_contains a item
  if found then ok true else contains_some a items

-- `actual in operands`
abbrev among : Scalar → List Literal → Bool
among a items = any_of (literal_eq a) items

-- The comparison with the operands, of which `expected` is the first.
unfoldable pub compare_with :
    Scalar → DetectionOperator → Literal → List Literal → Result Exception Bool
unfolding scalar_eq text_contains startswith endswith in_network contains_some
compare_with a equals expected operands = ok (literal_eq a expected)
compare_with a not_equals expected operands = ok (not (literal_eq a expected))
compare_with a in_list expected operands = ok (among a operands)
compare_with a not_in_list expected operands = ok (not (among a operands))
compare_with a contains expected operands = on_text text_contains a expected
compare_with a contains_any expected operands = contains_some a operands
compare_with a starts_with expected operands = on_text startswith a expected
compare_with a ends_with expected operands = on_text endswith a expected
compare_with a greater_than expected operands = compare_int (λ lt eq. not (lt || eq)) a expected
compare_with a greater_or_equal expected operands = compare_int (λ lt eq. not lt) a expected
compare_with a less_than expected operands = compare_int (λ lt eq. lt) a expected
compare_with a less_or_equal expected operands = compare_int (λ lt eq. lt || eq) a expected
compare_with a ip_in_cidr expected operands = in_cidr a expected
compare_with a exists expected operands = err other_error
compare_with a not_exists expected operands = err other_error

-- A datetime is compared in UTC.
abbrev in_utc : Scalar → Result Exception Scalar
in_utc (of_datetime d) = do u ← astimezone_utc d; ok (of_datetime u)
in_utc a = ok a

-- `_compare`. The last line of the source, for an operator of another kind, is reached by the two
-- existence operators only, which `_evaluate_leaf` never hands over.
unfoldable pub compare_scalar : Scalar → DetectionOperator → List Literal → Result Exception Bool
unfolding astimezone_utc compare_with
compare_scalar a op [] = err index_error
compare_scalar a op (expected ∷ rest) = do
  a' ← in_utc a
  compare_with a' op expected (expected ∷ rest)
