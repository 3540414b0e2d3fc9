-- ===== src/Detection/Evaluator/Kleene.antt =====
-- The outcome of a condition against Kleene's three-valued logic, in which false < unknown < true:
-- an `all` is a minimum, an `any` a maximum, and a `not` turns the order round.
use soc_investigation_lab.Common.{
  ℕ, ◌+◌, String, ◌≡◌, refl, ap₂, ◌∙◌, Bool, true, false, List, Result, ok, err, ◌>>=◌, arith,
  >>=-eq-ok, Bool-cases, inl, inr,
}
use soc_investigation_lab.Python.Text.{◌<>◌}
use soc_investigation_lab.Python.Exceptions.{validation_error}
use soc_investigation_lab.Models.Event.{NormalizedEvent}
use soc_investigation_lab.Models.Condition.{LeafCondition, ConditionNode, Nodes}
use soc_investigation_lab.Models.Trace.{
  ConditionTrace, Traces, trace, evidence, Evidence, ConditionOutcome, true_outcome, false_outcome,
  unknown, condition_trace, validate_trace, Kind, all_kind, any_kind, not_kind, child_location,
}
use soc_investigation_lab.Detection.Errors.{Raised, uncontrolled, builtin, checked}
use soc_investigation_lab.Detection.Semantics.{Literal, TextParsers, validated_operands}
use soc_investigation_lab.Detection.Evaluator.Resolve.{ResolvedField, resolve_event_field}
use soc_investigation_lab.Detection.Evaluator.{
  leaf_outcome, leaf_evidence, present_value, evaluate_leaf, evaluate, evaluate_children,
  node_trace, node_evidence, aggregate, negated,
}

abbrev pub meet : ConditionOutcome → ConditionOutcome → ConditionOutcome
meet false_outcome b = false_outcome
meet unknown false_outcome = false_outcome
meet unknown _ = unknown
meet true_outcome b = b

abbrev pub join : ConditionOutcome → ConditionOutcome → ConditionOutcome
join true_outcome b = true_outcome
join unknown true_outcome = true_outcome
join unknown _ = unknown
join false_outcome b = b

pub aggregate-meet :
    (t : ConditionTrace) (ts : Traces)
    → aggregate true (Traces.cons t ts) ≡ meet (evidence t).outcome (aggregate true ts)
unfolding aggregate
aggregate-meet (trace e us) ts = ground arith

pub aggregate-join :
    (t : ConditionTrace) (ts : Traces)
    → aggregate false (Traces.cons t ts) ≡ join (evidence t).outcome (aggregate false ts)
unfolding aggregate
aggregate-join (trace e us) ts = ground arith

pub condition_trace-eq-ok :
    (e : Evidence) (ts : Traces) {t : ConditionTrace}
    → builtin (condition_trace e ts) ≡ ok t
    → trace e ts ≡ t
unfolding condition_trace
condition_trace-eq-ok e ts {t} h = elim (Bool-cases (validate_trace e ts)) [
  | inl fine ↦ let same : ok (trace e ts) ≡ ok t = rw fine at h in cc
  | inr bad ↦ let failed : err (uncontrolled validation_error) ≡ ok t = rw bad at h in cc
]

module _ (parsers : TextParsers) (event : NormalizedEvent) where
  abbrev outcome_or_unknown : Result Raised ConditionOutcome → ConditionOutcome
  outcome_or_unknown (ok o) = o
  outcome_or_unknown (err e) = unknown

  -- The outcome of a leaf, without its trace.
  pub leaf_value : LeafCondition → ConditionOutcome
  leaf_value leaf = outcome_or_unknown (do
    f ← resolve_event_field event leaf.field
    operands ← checked (validated_operands parsers f.field_type leaf)
    builtin (leaf_outcome leaf.op (present_value f) operands))

  unfoldable mutual
    pub kleene_value : ConditionNode → ConditionOutcome
    kleene_value (ConditionNode.leaf l) = leaf_value l
    kleene_value (ConditionNode.all ns) = kleene_meet ns
    kleene_value (ConditionNode.any ns) = kleene_join ns
    kleene_value (ConditionNode.not_ n) = negated (kleene_value n)

    pub kleene_meet : Nodes → ConditionOutcome
    kleene_meet Nodes.nil = true_outcome
    kleene_meet (Nodes.cons n ns) = meet (kleene_value n) (kleene_meet ns)

    pub kleene_join : Nodes → ConditionOutcome
    kleene_join Nodes.nil = false_outcome
    kleene_join (Nodes.cons n ns) = join (kleene_value n) (kleene_join ns)

  abbrev after_outcome :
      LeafCondition → String → ResolvedField → ConditionOutcome → Result Raised ConditionTrace
  after_outcome l location f o = builtin (condition_trace (leaf_evidence location l f o) Traces.nil)

  abbrev after_operands :
      LeafCondition → String → ResolvedField → List Literal → Result Raised ConditionTrace
  after_operands l location f ls =
      builtin (leaf_outcome l.op (present_value f) ls) >>= after_outcome l location f

  abbrev after_field : LeafCondition → String → ResolvedField → Result Raised ConditionTrace
  after_field l location f =
      checked (validated_operands parsers f.field_type l) >>= after_operands l location f

  evaluate_leaf-outcome :
      (l : LeafCondition) (location : String) {t : ConditionTrace}
      → evaluate_leaf parsers event l location ≡ ok t
      → (evidence t).outcome ≡ leaf_value l
  unfolding evaluate_leaf leaf_value
  evaluate_leaf-outcome l location {t} h =
      let (f, resolves, more) =
        >>=-eq-ok (resolve_event_field event l.field) (after_field l location) h in
      let (ls, operands, last) =
        >>=-eq-ok (checked (validated_operands parsers f.field_type l))
          (after_operands l location f) more in
      let (o, outcome, made) =
        >>=-eq-ok (builtin (leaf_outcome l.op (present_value f) ls)) (after_outcome l location f)
          last in
      let same = condition_trace-eq-ok (leaf_evidence location l f o) Traces.nil made in
      rw (resolves, operands, outcome, ← same) refl

  abbrev after_child : String → ConditionTrace → Result Raised ConditionTrace
  after_child location child =
      node_trace parsers event location not_kind (negated (evidence child).outcome)
        (Traces.cons child Traces.nil)

  abbrev after_children : String → Kind → Bool → Traces → Result Raised ConditionTrace
  after_children location kind conjunction ts =
      node_trace parsers event location kind (aggregate conjunction ts) ts

  abbrev after_first : Nodes → String → Kind → ℕ → ConditionTrace → Result Raised Traces
  after_first ns location kind index t = do
    us ← evaluate_children parsers event ns location kind (index + 1)
    ok (Traces.cons t us)

  mutual
    unfolding evaluate kleene_value aggregate

    pub evaluate-outcome :
        (n : ConditionNode) (location : String) {t : ConditionTrace}
        → evaluate parsers event n location ≡ ok t
        → (evidence t).outcome ≡ kleene_value n
    evaluate-outcome (ConditionNode.leaf l) location h = evaluate_leaf-outcome l location h
    evaluate-outcome (ConditionNode.not_ n) location {t} h =
        let (child, e, made) =
          >>=-eq-ok (evaluate parsers event n (location <> ".not")) (after_child location) h in
        let same =
          condition_trace-eq-ok (node_evidence location not_kind (negated (evidence child).outcome))
            (Traces.cons child Traces.nil) made in
        rw (← same, ← evaluate-outcome n (location <> ".not") e) refl
    evaluate-outcome (ConditionNode.all ns) location {t} h =
        let (ts, e, made) =
          >>=-eq-ok (evaluate_children parsers event ns location all_kind 0)
            (after_children location all_kind true) h in
        let same =
          condition_trace-eq-ok (node_evidence location all_kind (aggregate true ts)) ts made in
        rw (← same) ((evaluate_children-outcomes ns location all_kind 0 e).0)
    evaluate-outcome (ConditionNode.any ns) location {t} h =
        let (ts, e, made) =
          >>=-eq-ok (evaluate_children parsers event ns location any_kind 0)
            (after_children location any_kind false) h in
        let same =
          condition_trace-eq-ok (node_evidence location any_kind (aggregate false ts)) ts made in
        rw (← same) ((evaluate_children-outcomes ns location any_kind 0 e).1)

    evaluate_children-outcomes :
        (ns : Nodes) (location : String) (kind : Kind) (index : ℕ) {ts : Traces}
        → evaluate_children parsers event ns location kind index ≡ ok ts
        → (aggregate true ts ≡ kleene_meet ns) × (aggregate false ts ≡ kleene_join ns)
    evaluate_children-outcomes Nodes.nil location kind index {ts} h =
        let none_left : Traces.nil ≡ ts = cc in rw (← none_left) (refl, refl)
    evaluate_children-outcomes (Nodes.cons n ns) location kind index {ts} h =
        let (t, e, more) =
          >>=-eq-ok (evaluate parsers event n (child_location location kind index))
            (after_first ns location kind index) h in
        let (us, es, last) =
          >>=-eq-ok (evaluate_children parsers event ns location kind (index + 1))
            (λ us. ok (Traces.cons t us)) more in
        let same : Traces.cons t us ≡ ts = cc in
        let head = evaluate-outcome n (child_location location kind index) e in
        let (meets, joins) = evaluate_children-outcomes ns location kind (index + 1) es in
        rw (← same)
          (aggregate-meet t us ∙ ap₂ meet head meets, aggregate-join t us ∙ ap₂ join head joins)
