-- ===== src/Detection/Evaluator/Validated.antt =====
-- Every trace that the evaluator returns passes the validator of traces, at each of its nodes.
use soc_investigation_lab.Common.{
  ℕ, ◌+◌, String, ◌≡◌, refl, true, false, Result, ok, err, ◌>>=◌, >>=-eq-ok, if-eq-ok,
  map_err-eq-ok,
}
use soc_investigation_lab.Python.Exceptions.{Exception, validation_error}
use soc_investigation_lab.Python.Text.{◌<>◌}
use soc_investigation_lab.Models.Event.{NormalizedEvent}
use soc_investigation_lab.Models.Condition.{LeafCondition, ConditionNode, Nodes}
use soc_investigation_lab.Models.Trace.{
  ConditionTrace, Traces, trace, evidence, Evidence, condition_trace, validate_trace, Kind,
  all_kind, any_kind, not_kind, child_location,
}
use soc_investigation_lab.Models.Alert.Construct.{validate_trace_tree, validate_trace_trees}
use soc_investigation_lab.Detection.Errors.{builtin, checked}
use soc_investigation_lab.Detection.Semantics.{TextParsers, validated_operands}
use soc_investigation_lab.Detection.Evaluator.Resolve.{resolve_event_field}
use soc_investigation_lab.Detection.Evaluator.{
  leaf_outcome, leaf_evidence, node_evidence, node_trace, present_value, evaluate_leaf, evaluate,
  evaluate_children, aggregate, negated, guarded, evaluate_condition,
}

builtin-eq-ok {ℓ} : {A : Type ℓ} (m : Result Exception A) {a : A} → builtin m ≡ ok a → m ≡ ok a
builtin-eq-ok (ok a) h = cc
builtin-eq-ok (err e) h = cc

condition_trace-validated :
    (e : Evidence) (ts : Traces) {t : ConditionTrace}
    → validate_trace_trees ts ≡ true
    → builtin (condition_trace e ts) ≡ ok t
    → validate_trace_tree t ≡ true
unfolding condition_trace validate_trace_tree
condition_trace-validated e ts below h =
    let (fine, same) =
      if-eq-ok (validate_trace e ts) (trace e ts) validation_error
        (builtin-eq-ok (condition_trace e ts) h) in
    rw (← same, fine) below

no_traces : validate_trace_trees Traces.nil ≡ true
unfolding validate_trace_tree
no_traces = refl

more_traces :
    (t : ConditionTrace) (ts : Traces)
    → validate_trace_tree t ≡ true
    → validate_trace_trees ts ≡ true
    → validate_trace_trees (Traces.cons t ts) ≡ true
unfolding validate_trace_tree
more_traces t ts h hs = rw (h, hs) refl

module _ (parsers : TextParsers) (event : NormalizedEvent) where
  evaluate_leaf-validated :
      (l : LeafCondition) (location : String) {t : ConditionTrace}
      → evaluate_leaf parsers event l location ≡ ok t
      → validate_trace_tree t ≡ true
  unfolding evaluate_leaf
  evaluate_leaf-validated l location {t} h =
      let (f, resolves, h) =
        >>=-eq-ok (resolve_event_field event l.field)
          (λ f. do
            operands ← checked (validated_operands parsers f.field_type l)
            outcome ← builtin (leaf_outcome l.op (present_value f) operands)
            builtin (condition_trace (leaf_evidence location l f outcome) Traces.nil))
          h in
      let (operands, checks, h) =
        >>=-eq-ok (checked (validated_operands parsers f.field_type l))
          (λ operands. do
            outcome ← builtin (leaf_outcome l.op (present_value f) operands)
            builtin (condition_trace (leaf_evidence location l f outcome) Traces.nil))
          h in
      let (outcome, answers, h) =
        >>=-eq-ok (builtin (leaf_outcome l.op (present_value f) operands))
          (λ outcome. builtin (condition_trace (leaf_evidence location l f outcome) Traces.nil))
          h in
      condition_trace-validated (leaf_evidence location l f outcome) Traces.nil no_traces h

  mutual
    unfolding evaluate

    evaluate-validated :
        (n : ConditionNode) (location : String) {t : ConditionTrace}
        → evaluate parsers event n location ≡ ok t
        → validate_trace_tree t ≡ true
    evaluate-validated (ConditionNode.leaf l) location h = evaluate_leaf-validated l location h
    evaluate-validated (ConditionNode.not_ n) location h =
        let (child, e, h) =
          >>=-eq-ok (evaluate parsers event n (location <> ".not"))
            (λ child.
              node_trace parsers event location not_kind (negated (evidence child).outcome)
                (Traces.cons child Traces.nil))
            h in
        condition_trace-validated
          (node_evidence location not_kind (negated (evidence child).outcome))
          (Traces.cons child Traces.nil)
          (more_traces child Traces.nil (evaluate-validated n (location <> ".not") e) no_traces) h
    evaluate-validated (ConditionNode.all ns) location h =
        let (ts, e, h) =
          >>=-eq-ok (evaluate_children parsers event ns location all_kind 0)
            (λ ts. node_trace parsers event location all_kind (aggregate true ts) ts) h in
        condition_trace-validated (node_evidence location all_kind (aggregate true ts)) ts
          (evaluate_children-validated ns location all_kind 0 e) h
    evaluate-validated (ConditionNode.any ns) location h =
        let (ts, e, h) =
          >>=-eq-ok (evaluate_children parsers event ns location any_kind 0)
            (λ ts. node_trace parsers event location any_kind (aggregate false ts) ts) h in
        condition_trace-validated (node_evidence location any_kind (aggregate false ts)) ts
          (evaluate_children-validated ns location any_kind 0 e) h

    evaluate_children-validated :
        (ns : Nodes) (location : String) (kind : Kind) (index : ℕ) {ts : Traces}
        → evaluate_children parsers event ns location kind index ≡ ok ts
        → validate_trace_trees ts ≡ true
    evaluate_children-validated Nodes.nil location kind index {ts} h =
        let same : Traces.nil ≡ ts = cc in rw (← same) no_traces
    evaluate_children-validated (Nodes.cons n ns) location kind index {ts} h =
        let (t, e, h) =
          >>=-eq-ok (evaluate parsers event n (child_location location kind index))
            (λ t. do
              rest ← evaluate_children parsers event ns location kind (index + 1)
              ok (Traces.cons t rest))
            h in
        let (rest, es, h) =
          >>=-eq-ok (evaluate_children parsers event ns location kind (index + 1))
            (λ rest. ok (Traces.cons t rest)) h in
        let same : Traces.cons t rest ≡ ts = cc in
        rw (← same) (
          more_traces t rest (evaluate-validated n (child_location location kind index) e)
            (evaluate_children-validated ns location kind (index + 1) es))

  pub evaluate_condition-validated :
      (condition : ConditionNode) {t : ConditionTrace}
      → evaluate_condition parsers event condition ≡ ok t
      → validate_trace_tree t ≡ true
  unfolding evaluate_condition
  evaluate_condition-validated condition h =
      evaluate-validated condition "$"
        (map_err-eq-ok guarded (evaluate parsers event condition "$") h)
