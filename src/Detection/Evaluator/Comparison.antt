-- ===== src/Detection/Evaluator/Comparison.antt =====
-- Operands that the semantics accept compare with every value of the field's type.
use soc_investigation_lab.Common.{
  String, ◌≡◌, refl, sym, subst, Bool, true, false, List, [], ◌∷◌, ok, arith, inl, inr, Bool-cases,
  >>=-eq-ok, All, if◌then◌else◌,
}
use soc_investigation_lab.Python.Text.{contains as text_contains}
use soc_investigation_lab.Python.Value.{Value}
use soc_investigation_lab.Models.Condition.{
  DetectionOperator, equals, not_equals, contains, contains_any, starts_with, ends_with, in_list,
  not_in_list, greater_than, greater_or_equal, less_than, less_or_equal, ip_in_cidr, is_one_of,
  existence_operators, list_operators, Operand, given, listed, LeafCondition,
}
use soc_investigation_lab.Detection.Semantics.Fields.{
  FieldType, string_field, integer_field, timestamp_field, ip_field,
}
use soc_investigation_lab.Detection.Semantics.{
  Scalar, of_str, of_int, of_datetime, of_address, Literal, scalar, network, TextParsers, literal,
  literals, validated_operands, incompatible_field_type, cidr_operand, list_operand, single_operand,
}
use soc_investigation_lab.Detection.Evaluator.Compare.{compare_scalar, compare_with, contains_some}
use soc_investigation_lab.Detection.Evaluator.Resolution.{HasKind}

-- The literals that are scalars of a type.
abbrev pub IsLiteral : FieldType → Literal → Type 0
IsLiteral string_field (scalar (of_str s)) = Unit
IsLiteral integer_field (scalar (of_int n)) = Unit
IsLiteral timestamp_field (scalar (of_datetime d)) = Unit
IsLiteral ip_field (scalar (of_address a)) = Unit
IsLiteral _ _ = ⊥

abbrev IsNetwork : Literal → Type 0
IsNetwork (network n) = Unit
IsNetwork (scalar s) = ⊥

-- At least one operand, and operands that the operator can take.
abbrev pub AreOperands : FieldType → DetectionOperator → List Literal → Type 0
AreOperands kind op [] = ⊥
AreOperands kind ip_in_cidr (l ∷ ls) = IsNetwork l
AreOperands kind op (l ∷ ls) = All (IsLiteral kind) (l ∷ ls)

abbrev AreLiterals : FieldType → List Literal → Type 0
AreLiterals kind [] = ⊥
AreLiterals kind (l ∷ ls) = All (IsLiteral kind) (l ∷ ls)

AreOperands-literals :
    (kind : FieldType) (op : DetectionOperator) (ls : List Literal)
    → is_one_of op (ip_in_cidr ∷ []) ≡ false
    → AreLiterals kind ls
    → AreOperands kind op ls
AreOperands-literals kind op [] n h = absurd h
AreOperands-literals kind ip_in_cidr (l ∷ ls) n h = cc
AreOperands-literals kind _ (l ∷ ls) n h = h

is_one_of-cidr : (op : DetectionOperator) → is_one_of op (ip_in_cidr ∷ []) ≡ true → op ≡ ip_in_cidr
is_one_of-cidr op h = ground arith

module _ (parsers : TextParsers) where
  literal-IsLiteral :
      (field : String) (kind : FieldType) (op : DetectionOperator) (v : Value) {s : Scalar}
      → literal parsers field kind op v ≡ ok s
      → IsLiteral kind (scalar s)
  unfolding literal
  literal-IsLiteral field string_field op v {s} h = ground arith
  literal-IsLiteral field integer_field op v {s} h = ground arith
  literal-IsLiteral field timestamp_field op v {s} h = ground arith
  literal-IsLiteral field ip_field op v {s} h = ground arith

  literals-All :
      (field : String) (kind : FieldType) (op : DetectionOperator) (vs : List Value)
      {ls : List Literal}
      → literals parsers field kind op vs ≡ ok ls
      → All (IsLiteral kind) ls
  unfolding literals
  literals-All field kind op [] {ls} h = let e : [] ≡ ls = cc in subst (All (IsLiteral kind)) e tt
  literals-All field kind op (v ∷ vs) {ls} h =
      let (s, head, more) = >>=-eq-ok (literal parsers field kind op v) _ h in
      let (rest, tail, e) = >>=-eq-ok (literals parsers field kind op vs) _ more in
      let parts : scalar s ∷ rest ≡ ls = cc in
      subst (All (IsLiteral kind)) parts
        (literal-IsLiteral field kind op v head, literals-All field kind op vs tail)

  list_operand-AreLiterals :
      (field : String) (kind : FieldType) (op : DetectionOperator) (value : Operand)
      {ls : List Literal}
      → list_operand parsers field kind op value ≡ ok ls
      → AreLiterals kind ls
  unfolding list_operand
  list_operand-AreLiterals field kind op (listed (v ∷ vs)) {ls = []} h = ground arith
  list_operand-AreLiterals field kind op (listed (v ∷ vs)) {ls = l ∷ ls} h =
      literals-All field kind op (v ∷ vs) h
  list_operand-AreLiterals field kind op _ h = cc

  single_operand-AreLiterals :
      (field : String) (kind : FieldType) (op : DetectionOperator) (value : Operand)
      {ls : List Literal}
      → single_operand parsers field kind op value ≡ ok ls
      → AreLiterals kind ls
  unfolding single_operand
  single_operand-AreLiterals field kind op (given v) {ls} h =
      let (s, one, e) = >>=-eq-ok (literal parsers field kind op v) _ h in
      let parts : scalar s ∷ [] ≡ ls = cc in
      subst (AreLiterals kind) parts (literal-IsLiteral field kind op v one, tt)
  single_operand-AreLiterals field kind op _ h = cc

  cidr_operand-AreOperands :
      (field : String) (kind : FieldType) (op : DetectionOperator) (value : Operand)
      {ls : List Literal}
      → cidr_operand parsers field op value ≡ ok ls
      → AreOperands kind ip_in_cidr ls
  unfolding cidr_operand
  cidr_operand-AreOperands field kind op value {ls = []} h = ground arith
  cidr_operand-AreOperands field kind op value {ls = l ∷ ls} h = ground arith

  chosen-AreLiterals :
      (kind : FieldType) (leaf : LeafCondition) {ls : List Literal}
      → (if is_one_of leaf.op list_operators
          then list_operand parsers leaf.field kind leaf.op leaf.value
          else single_operand parsers leaf.field kind leaf.op leaf.value)
        ≡ ok ls
      → AreLiterals kind ls
  chosen-AreLiterals kind leaf h = elim (Bool-cases (is_one_of leaf.op list_operators)) [
    | inl many ↦ list_operand-AreLiterals leaf.field kind leaf.op leaf.value (rw many at h)
    | inr one ↦ single_operand-AreLiterals leaf.field kind leaf.op leaf.value (rw one at h)
  ]

  -- Operands that were validated for an operator other than the existence operators.
  pub validated_operands-AreOperands :
      (kind : FieldType) (leaf : LeafCondition) {ls : List Literal}
      → is_one_of leaf.op existence_operators ≡ false
      → validated_operands parsers kind leaf ≡ ok ls
      → (incompatible_field_type leaf.op kind ≡ false) × AreOperands kind leaf.op ls
  unfolding validated_operands
  validated_operands-AreOperands kind leaf {ls} n h =
      elim (Bool-cases (incompatible_field_type leaf.op kind)) [
        | inl bad ↦ let failed = rw (n, bad) at h in cc
        | inr fits ↦
            let rest = rw (n, fits) at h in
            elim (Bool-cases (is_one_of leaf.op (ip_in_cidr ∷ []))) [
              | inl cidr ↦
                  let op = is_one_of-cidr leaf.op cidr in
                  (
                    fits,
                    subst (λ o. AreOperands kind o ls) (sym op)
                        (cidr_operand-AreOperands leaf.field kind leaf.op leaf.value
                          (rw cidr at rest)),
                  )
              | inr plain ↦ (
                fits,
                AreOperands-literals kind leaf.op ls plain
                    (chosen-AreLiterals kind leaf (rw plain at rest)),
              )
            ]
      ]

contains_some-total :
    (a : String) (ls : List Literal)
    → All (IsLiteral string_field) ls
    → (b : Bool) × (contains_some (of_str a) ls ≡ ok b)
unfolding contains_some
contains_some-total a [] h = (false, refl)
contains_some-total a (scalar (of_str s) ∷ ls) (h, hs) =
    let (b, e) = contains_some-total a ls hs in
    elim (Bool-cases (text_contains a s)) [
      | inl found ↦ (true, rw found)
      | inr missing ↦ (b, rw missing e)
    ]
contains_some-total a (l ∷ ls) (h, hs) = absurd h

compare_with-total :
    (kind : FieldType) (s : Scalar) (op : DetectionOperator) (l : Literal) (ls : List Literal)
    → IsLiteral kind (scalar s)
    → is_one_of op existence_operators ≡ false
    → incompatible_field_type op kind ≡ false
    → AreOperands kind op (l ∷ ls)
    → (b : Bool) × (compare_with s op l (l ∷ ls) ≡ ok b)
unfolding compare_with incompatible_field_type
compare_with-total kind s equals l ls h n c o = (_, refl)
compare_with-total kind s not_equals l ls h n c o = (_, refl)
compare_with-total kind s in_list l ls h n c o = (_, refl)
compare_with-total kind s not_in_list l ls h n c o = (_, refl)
compare_with-total string_field (of_str a) contains (scalar (of_str b)) ls h n c o = (_, refl)
compare_with-total string_field (of_str a) starts_with (scalar (of_str b)) ls h n c o = (_, refl)
compare_with-total string_field (of_str a) ends_with (scalar (of_str b)) ls h n c o = (_, refl)
compare_with-total integer_field (of_int a) greater_than (scalar (of_int b)) ls h n c o = (_, refl)
compare_with-total integer_field (of_int a) greater_or_equal (scalar (of_int b)) ls h n c o =
    (_, refl)
compare_with-total integer_field (of_int a) less_than (scalar (of_int b)) ls h n c o = (_, refl)
compare_with-total integer_field (of_int a) less_or_equal (scalar (of_int b)) ls h n c o = (_, refl)
compare_with-total ip_field (of_address a) ip_in_cidr (network b) ls h n c o = (_, refl)
compare_with-total string_field (of_str a) contains_any l ls h n c o =
    contains_some-total a (l ∷ ls) o
compare_with-total kind s op l ls h n c o = absurd (ground arith)

HasKind-IsLiteral : (kind : FieldType) (s : Scalar) → HasKind kind s → IsLiteral kind (scalar s)
HasKind-IsLiteral string_field (of_str s) h = tt
HasKind-IsLiteral integer_field (of_int s) h = tt
HasKind-IsLiteral timestamp_field (of_datetime s) h = tt
HasKind-IsLiteral ip_field (of_address s) h = tt
HasKind-IsLiteral _ _ h = absurd h

-- A value of the field's type (a datetime that UTC can show) compares without an exception, under an
-- operator that is not one of existence and suits the type, with one or more operands of the type,
-- or under `ip_in_cidr` with a network.
pub compare_scalar-total :
    (kind : FieldType) (s : Scalar) (op : DetectionOperator) (ls : List Literal)
    → HasKind kind s
    → is_one_of op existence_operators ≡ false
    → incompatible_field_type op kind ≡ false
    → AreOperands kind op ls
    → (b : Bool) × (compare_scalar s op ls ≡ ok b)
unfolding compare_scalar
compare_scalar-total kind s op [] h n c o = absurd o
compare_scalar-total timestamp_field (of_datetime d) op (l ∷ ls) h n c o =
    rw (h.converts) (compare_with-total timestamp_field (of_datetime h.in_utc) op l ls tt n c o)
compare_scalar-total kind (of_str a) op (l ∷ ls) h n c o =
    compare_with-total kind (of_str a) op l ls (HasKind-IsLiteral kind (of_str a) h) n c o
compare_scalar-total kind (of_int a) op (l ∷ ls) h n c o =
    compare_with-total kind (of_int a) op l ls (HasKind-IsLiteral kind (of_int a) h) n c o
compare_scalar-total kind (of_address a) op (l ∷ ls) h n c o =
    compare_with-total kind (of_address a) op l ls (HasKind-IsLiteral kind (of_address a) h) n c o
compare_scalar-total _ (of_datetime d) op (l ∷ ls) h n c o = absurd h
