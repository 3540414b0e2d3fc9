-- ===== src/Detection/Evaluator/Leaves.antt =====
-- A leaf that the models and the semantics accept evaluates without an error, and its trace passes the
-- validator of traces.
use soc_investigation_lab.Common.{
  String, ◌≡◌, refl, true, false, none, some, List, [], ◌∷◌, Result, ok, inl, inr, Bool-cases,
  if◌then◌else◌,
}
use soc_investigation_lab.Models.Event.{
  NormalizedEvent, validate_context_matches_category, category_eq,
}
use soc_investigation_lab.Models.Condition.Paths.{valid_path}
use soc_investigation_lab.Models.Condition.{
  DetectionOperator, LeafCondition, validate_leaf, is_one_of, existence_operators, omitted, exists,
  not_exists,
}
use soc_investigation_lab.Models.Trace.Location.{valid_location}
use soc_investigation_lab.Models.Trace.{
  ConditionTrace, Traces, trace, evidence, Evidence, ConditionOutcome, unknown, condition_trace,
  validate_trace, valid_leaf_trace, safe_actual,
}
use soc_investigation_lab.Detection.Errors.{Raised, builtin}
use soc_investigation_lab.Detection.Semantics.Fields.{FieldType, timestamp_field, field_type}
use soc_investigation_lab.Detection.Semantics.{
  Scalar, of_str, of_int, of_datetime, of_address, Literal, TextParsers, incompatible_field_type,
  validated_operands,
}
use soc_investigation_lab.Detection.Evaluator.Resolve.{
  ResolvedField, present, missing_field, absent_field, scalar_object,
}
use soc_investigation_lab.Detection.Evaluator.Resolution.{
  IsReadable, HasKind, IsResolved, with_value, without_value, resolve_event_field-Resolves,
}
use soc_investigation_lab.Detection.Evaluator.Comparison.{
  AreOperands, validated_operands-AreOperands, compare_scalar-total,
}
use soc_investigation_lab.Detection.Evaluator.{
  leaf_outcome, leaf_evidence, present_value, evaluate_leaf, outcome_of,
}

safe_actual-HasKind :
    (kind : FieldType) (s : Scalar) → HasKind kind s → safe_actual (scalar_object s) ≡ true
unfolding safe_actual
safe_actual-HasKind kind (of_str s) h = refl
safe_actual-HasKind kind (of_int s) h = refl
safe_actual-HasKind kind (of_address s) h = refl
safe_actual-HasKind timestamp_field (of_datetime s) h = rw (h.offset)
safe_actual-HasKind _ (of_datetime s) h = absurd h

valid_leaf_trace-leaf :
    (leaf : LeafCondition)
    → validate_leaf leaf ≡ true
    → valid_leaf_trace
        (some leaf.field)
        (some leaf.op)
        (if is_one_of leaf.op existence_operators then omitted else leaf.value)
        Traces.nil
      ≡ true
unfolding validate_leaf valid_leaf_trace
valid_leaf_trace-leaf leaf h = elim (Bool-cases (valid_path leaf.field)) [
  | inr bad ↦ let failed : false ≡ true = rw bad at h in cc
  | inl fine ↦
      let checks = rw fine at h in
      elim (Bool-cases (is_one_of leaf.op existence_operators)) [
        | inl ex ↦ rw (fine, ex)
        | inr n ↦ rw (fine, n) (rw n at checks)
      ]
]

validate_trace-leaf :
    (location : String) (leaf : LeafCondition) (kind : FieldType) (f : ResolvedField)
    (o : ConditionOutcome)
    → valid_location location ≡ true
    → validate_leaf leaf ≡ true
    → IsResolved leaf.field kind f
    → validate_trace (leaf_evidence location leaf f o) Traces.nil ≡ true
unfolding validate_trace
validate_trace-leaf location leaf kind f o at v (with_value s h e) =
    rw (e, at, valid_leaf_trace-leaf leaf v, safe_actual-HasKind kind s h) refl
validate_trace-leaf location leaf kind f o at v (without_value present n e) = absurd (n refl)
validate_trace-leaf location leaf kind f o at v (without_value missing_field n e) =
    rw (e, at, valid_leaf_trace-leaf leaf v) refl
validate_trace-leaf location leaf kind f o at v (without_value absent_field n e) =
    rw (e, at, valid_leaf_trace-leaf leaf v) refl

leaf_outcome-none :
    (op : DetectionOperator) (ls : List Literal)
    → (o : ConditionOutcome) × (leaf_outcome op none ls ≡ ok o)
unfolding leaf_outcome
leaf_outcome-none op ls = elim (Bool-cases (is_one_of op existence_operators)) [
  | inl ex ↦ (outcome_of (is_one_of op (not_exists ∷ [])), rw ex refl)
  | inr n ↦ (unknown, rw n)
]

leaf_outcome-some :
    (op : DetectionOperator) (kind : FieldType) (s : Scalar) (ls : List Literal)
    → HasKind kind s
    → (is_one_of op existence_operators ≡ false
        → (incompatible_field_type op kind ≡ false) × AreOperands kind op ls)
    → (o : ConditionOutcome) × (leaf_outcome op (some s) ls ≡ ok o)
unfolding leaf_outcome
leaf_outcome-some op kind s ls h ready = elim (Bool-cases (is_one_of op existence_operators)) [
  | inl ex ↦ (outcome_of (is_one_of op (exists ∷ [])), rw ex refl)
  | inr n ↦
      let (fits, operands) = ready n in
      let (b, e) = compare_scalar-total kind s op ls h n fits operands in (outcome_of b, rw (n, e))
]

leaf_outcome-total :
    (op : DetectionOperator) (path : String) (kind : FieldType) (f : ResolvedField)
    (ls : List Literal)
    → IsResolved path kind f
    → (is_one_of op existence_operators ≡ false
        → (incompatible_field_type op kind ≡ false) × AreOperands kind op ls)
    → (o : ConditionOutcome) × (leaf_outcome op (present_value f) ls ≡ ok o)
leaf_outcome-total op path kind f ls (without_value present n e) ready = absurd (n refl)
leaf_outcome-total op path kind f ls (without_value missing_field n e) ready =
    rw e (leaf_outcome-none op ls)
leaf_outcome-total op path kind f ls (without_value absent_field n e) ready =
    rw e (leaf_outcome-none op ls)
leaf_outcome-total op path kind f ls (with_value s h e) ready =
    rw e (leaf_outcome-some op kind s ls h ready)

IsResolved-field_type :
    {path : String} {kind : FieldType} {f : ResolvedField}
    → IsResolved path kind f
    → f.field_type ≡ kind
IsResolved-field_type (with_value s h e) = rw e
IsResolved-field_type (without_value p n e) = rw e

module _ (parsers : TextParsers) (event : NormalizedEvent)
    (same : validate_context_matches_category event ≡ true)
    (readable : IsReadable event.timestamp) where
  -- The trace of an evaluation that returned, at the location that it was asked for.
  abbrev pub Returns : String → Result Raised ConditionTrace → Type 0
  Returns location r = (t : ConditionTrace) × (r ≡ ok t) × ((evidence t).location ≡ location)

  pub condition_trace-Returns :
      (e : Evidence) (ts : Traces)
      → validate_trace e ts ≡ true
      → Returns e.location (builtin (condition_trace e ts))
  unfolding condition_trace
  condition_trace-Returns e ts v = (trace e ts, rw v, refl)

  pub evaluate_leaf-Returns :
      (leaf : LeafCondition) (location : String) (kind : FieldType) (ls : List Literal)
      → valid_location location ≡ true
      → validate_leaf leaf ≡ true
      → field_type leaf.field event.category ≡ ok kind
      → validated_operands parsers kind leaf ≡ ok ls
      → Returns location (evaluate_leaf parsers event leaf location)
  unfolding evaluate_leaf
  evaluate_leaf-Returns leaf location kind ls at v typed operands =
      let (f, resolves, res) =
        resolve_event_field-Resolves event leaf.field kind same readable typed in
      let (o, outcome) =
        leaf_outcome-total leaf.op leaf.field kind f ls res
          (λ n. validated_operands-AreOperands parsers kind leaf n operands) in
      let accepted = validate_trace-leaf location leaf kind f o at v res in
      rw (resolves, IsResolved-field_type res, operands, outcome)
        (condition_trace-Returns _ _ accepted)
