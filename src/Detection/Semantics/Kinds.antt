-- ===== src/Detection/Semantics/Kinds.antt =====
-- What the semantic check of a leaf for all categories of a rule says for one of them.
use mathlib.Core.Bool.{or-true}
use soc_investigation_lab.Common.{
  String, ◌≡◌, sym, subst, ◌∙◌, true, ◌&&◌, not, Option, none, some, List, [], ◌∷◌, Result, ok,
  ◌>>=◌, inl, inr, Bool-cases, >>=-eq-ok, guard-eq-ok, and-eq-true, member, ◌==◌, beq_refl,
  string_eq,
}
use soc_investigation_lab.Python.Text.{startswith}
use soc_investigation_lab.Models.Event.{EventCategory, category_eq, category_eq_iff}
use soc_investigation_lab.Models.Condition.{DetectionOperator, operator_value, LeafCondition}
use soc_investigation_lab.Models.Rule.{Sources}
use soc_investigation_lab.Detection.Errors.{EvaluationError, incompatible}
use soc_investigation_lab.Detection.Semantics.Fields.{
  FieldType, field_type, field_type_eq, field_type_eq_iff,
}
use soc_investigation_lab.Detection.Semantics.{
  Literal, TextParsers, validated_operands, field_types, only_kind, same_kinds, or_incompatible,
  lacks_sources, validate_leaf_semantics,
}

-- The type that a field has in one of the categories is among its types in all of them.
field_types-member :
    (field : String) (c : EventCategory) (cs : List EventCategory) {kinds : List FieldType}
    → field_types field cs ≡ ok kinds
    → member c cs ≡ true
    → (k : FieldType) × (field_type field c ≡ ok k) × (member k kinds ≡ true)
unfolding field_types
field_types-member field c [] h m = cc
field_types-member field c (d ∷ cs) {kinds} h m =
    let (k, first, more) = >>=-eq-ok (field_type field d) _ h in
    let (ks, rest, e) = >>=-eq-ok (field_types field cs) _ more in
    let parts : k ∷ ks ≡ kinds = cc in
    elim (Bool-cases (c == d)) [
      | inl here ↦
          let same : c ≡ d = (category_eq_iff c d).0 here in
          (k, rw (same, first), subst (λ js. member k js ≡ true) parts (rw (beq_refl k)))
      | inr there ↦
          let (j, typed, among) = field_types-member field c cs rest (rw there at m) in
          (j, typed, subst (λ js. member j js ≡ true) parts (rw among (or-true _)))
    ]

same_kinds-member :
    (k j : FieldType) (kinds : List FieldType)
    → same_kinds k kinds ≡ true
    → member j kinds ≡ true
    → j ≡ k
same_kinds-member k j [] h m = cc
same_kinds-member k j (i ∷ kinds) h m =
    let (e, es) = and-eq-true _ _ h in
    elim (Bool-cases (j == i)) [
      | inl here ↦ (field_type_eq_iff j i).0 here ∙ sym ((field_type_eq_iff k i).0 e)
      | inr there ↦ same_kinds-member k j kinds es (rw there at m)
    ]

only_kind-member :
    (k j : FieldType) (kinds : List FieldType)
    → only_kind kinds ≡ some k
    → member j kinds ≡ true
    → j ≡ k
unfolding only_kind
only_kind-member k j [] h m = cc
only_kind-member k j (i ∷ kinds) h m = elim (Bool-cases (same_kinds i kinds)) [
  | inl same ↦
      let first : some i ≡ some k = rw same at h in
      let e : i ≡ k = cc in
      subst (λ l. j ≡ l) e (same_kinds-member i j (i ∷ kinds) (rw (beq_refl i, same)) m)
  | inr differ ↦ let missing : none ≡ some k = rw differ at h in cc
]

or_incompatible-eq-ok {ℓ} :
    {A : Type ℓ} (field : String) (op : DetectionOperator) (reason : String) (o : Option A) {a : A}
    → or_incompatible field op reason o ≡ ok a
    → o ≡ some a
or_incompatible-eq-ok field op reason (some b) h = cc
or_incompatible-eq-ok field op reason none h = cc

module _ (parsers : TextParsers) where
  abbrev kinds_operands : LeafCondition → List FieldType → Result EvaluationError (Unit {0})
  kinds_operands leaf kinds = do
    kind ← or_incompatible leaf.field leaf.op "incompatible_category_types" (only_kind kinds)
    operands ← validated_operands parsers kind leaf
    ok tt

  abbrev leaf_kind_operands : List EventCategory → LeafCondition → Result EvaluationError (Unit {0})
  leaf_kind_operands cs leaf = do kinds ← field_types leaf.field cs; kinds_operands leaf kinds

  -- What the semantic check of a leaf says for each category of the rule.
  pub validate_leaf_semantics-operands :
      (c : EventCategory) (cs : List EventCategory) (sources : Sources) (leaf : LeafCondition)
      → member c cs ≡ true
      → validate_leaf_semantics parsers cs sources leaf ≡ ok tt
      → (k : FieldType) × (field_type leaf.field c ≡ ok k)
        × (ls : List Literal) × (validated_operands parsers k leaf ≡ ok ls)
  unfolding validate_leaf_semantics
  validate_leaf_semantics-operands c cs sources leaf m h =
      let (allowed, rest) =
        guard-eq-ok (not (startswith leaf.field "source_data." && lacks_sources sources))
          (incompatible leaf.field (operator_value leaf.op) "sources_required")
          (leaf_kind_operands cs leaf) h in
      let (kinds, typed, more) = >>=-eq-ok (field_types leaf.field cs) (kinds_operands leaf) rest in
      let (k, one, checks) =
        >>=-eq-ok
          (or_incompatible leaf.field leaf.op "incompatible_category_types" (only_kind kinds))
          (λ kind. validated_operands parsers kind leaf >>= λ _. ok tt) more in
      let (ls, operands, e) = >>=-eq-ok (validated_operands parsers k leaf) (λ _. ok tt) checks in
      let (j, at, among) = field_types-member leaf.field c cs typed m in
      let same =
        only_kind-member k j kinds
          (or_incompatible-eq-ok leaf.field leaf.op "incompatible_category_types" (only_kind kinds)
            one)
          among in
      (k, subst (λ i. field_type leaf.field c ≡ ok i) same at, ls, operands)
